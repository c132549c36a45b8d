-- ===== src/Net/Tcp/Bursts.antt =====
-- Packets that come one behind the other, each in one read, while one event is handled.
use nebula_toolkit.Net.{Kernel, got, would_block}
use nebula_toolkit.UnPacker.Contiguous.{IsPacket}
use nebula_toolkit.Net.Tcp.Delivery.{take_in-packet, has_room, first_read, read_nothing}
use nebula_toolkit.Net.Tcp.{TcpHandler, process_readable_event}
use nebula_toolkit.Prelude.{
  ℕ, zero, suc, ◌+◌, ◌≤◌, ◌<◌, ◌≡◌, ◌∙◌, refl, sym, ap, true, some, List, [], ◌∷◌, Bytes, length,
  arith,
}
use nebula_toolkit.RingBuffer.Contents.{IsValid, contents, length-contents, Holds}
use nebula_toolkit.RingBuffer.{capacity, get_linear_write_space}
use nebula_toolkit.UnPacker.{head_tail}

-- `reads` come in this order, each in one piece where there is room for it, and then there is no more.
pub data Comes (K : Kernel) (fd : ℕ) (k' : K.State) : K.State → List Bytes → Type 0 where
  no_more :
      {k : K.State} → ((room : ℕ) → K.receive k fd room ≡ (would_block, k')) → Comes K fd k' k []
  one_more :
      {k : K.State} (k1 : K.State) (bs : Bytes) (reads : List Bytes)
      → ((room : ℕ) → length bs ≤ room → K.receive k fd room ≡ (got bs, k1))
      → Comes K fd k' k1 reads
      → Comes K fd k' k (bs ∷ reads)

abbrev pub ArePackets : Bytes → Bytes → List Bytes → Type 0
ArePackets head_key tail_key [] = Unit {0}
ArePackets head_key tail_key (bs ∷ reads) =
    ((t : ℕ) × IsPacket head_key tail_key bs t) × ArePackets head_key tail_key reads

abbrev pub total : List Bytes → ℕ
total [] = 0
total (bs ∷ reads) = length bs + total reads

-- the last of the packets, alone; what was there, if there is none
abbrev pub last_of : List Bytes → List Bytes → List Bytes
last_of packs [] = packs
last_of packs (bs ∷ reads) = last_of (bs ∷ []) reads

module _ (K : Kernel) (scan_fuel rounds : ℕ) where
  -- Packets that come while one event is handled, each in one read into the room behind an empty buffer:
  -- with a round for each and one more, the loop of `ProcessReadableEvent` returns, with the last packet
  -- alone in `packs_`, and a task scheduled for each. The buffer is empty again.
  pub process_readable_event-burst :
      (n : ℕ) (k k' : K.State) (h : TcpHandler) (reads : List Bytes)
      → Comes K h.fd k' k reads
      → length reads < n
      → ArePackets h.unpacker.head_key h.unpacker.tail_key reads
      → IsValid h.unpacker.ring
      → contents h.unpacker.ring ≡ []
      → h.unpacker.model ≡ head_tail
      → h.has_cb ≡ true
      → capacity h.unpacker.ring < scan_fuel
      → total reads ≤ (get_linear_write_space h.unpacker.ring).1
      → (h' : TcpHandler) × (process_readable_event K scan_fuel (suc (suc rounds)) n k h
          ≡ some (k', h'))
        × (h'.packs ≡ last_of h.packs reads)
        × (h'.scheduled ≡ h.scheduled + length reads)
        × (h'.should_close ≡ h.should_close)
        × Holds h.unpacker.ring h'.unpacker.ring []
  unfolding process_readable_event
  process_readable_event-burst zero k k' h reads comes few ps v empty mode cb enough fits =
      absurd (omega arith)
  process_readable_event-burst (suc n) k k' h [] (no_more blocks) few ps v empty mode cb enough
        fits =
      let ends =
        read_nothing K scan_fuel (suc (suc rounds)) k k' h (has_room h.unpacker.ring v empty)
          (blocks _) in
      (
        h,
        rw (process_readable_event, ends) refl,
        refl,
        omega arith,
        refl,
        record { valid = v; same_capacity = refl; holds = empty },
      )
  process_readable_event-burst (suc n) k k' h ([] ∷ reads) (one_more k1 [] reads' comes rest) few
        ((t, p), ps) v empty mode cb enough fits =
      absurd (let some_bytes = p.tail_fits in let pos = p.head_pos in omega arith)
  process_readable_event-burst (suc n) k k' h ((c ∷ bs) ∷ reads) (one_more k1 bs' reads' comes rest)
        few ((t, p), ps) v empty mode cb enough fits =
      let ring = h.unpacker.ring in
      let room = (get_linear_write_space ring).1 in
      let nothing : ring.len ≡ 0 = sym (length-contents ring) ∙ ap length empty in
      let (r', ran, left, more) =
        take_in-packet scan_fuel rounds h.unpacker (c ∷ bs) t v nothing mode p enough
          (omega arith) in
      let u' = record h.unpacker { ring = r' } in
      let h1 = record h { unpacker = u'; packs = (c ∷ bs) ∷ []; scheduled = h.scheduled + 1 } in
      let goes_on =
        first_read K scan_fuel (suc (suc rounds)) k k1 h c bs (c ∷ bs) [] u' (has_room ring v empty)
          (comes room (omega arith)) ran cb in
      let (h', ran', packs, scheduled, stays, left') =
        process_readable_event-burst n k1 k' h1 reads rest (omega arith) ps left.valid left.holds
          mode cb (omega (arith, left.same_capacity)) (omega (arith, more)) in
      (
        h',
        rw (process_readable_event, goes_on) ran',
        packs,
        omega (arith, scheduled),
        stays,
        record {
          valid = left'.valid;
          same_capacity = left'.same_capacity ∙ left.same_capacity;
          holds = left'.holds;
        },
      )
