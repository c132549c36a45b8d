-- ===== src/Net/Tcp/Segments.antt =====
-- Several packets that one read of `TcpHandler` brings.
use mathlib.Core.Path.{subst}
use nebula_toolkit.Net.Tcp.Delivery.{commit-IsContiguous, first_read, read_nothing, two_rounds}
use nebula_toolkit.Net.Tcp.{TcpHandler, take_in, process_readable_event}
use nebula_toolkit.Net.{Kernel, IsLawful, got, would_block}
use nebula_toolkit.Prelude.{
  ℕ, suc, ◌+◌, ◌-◌, ◌*◌, ◌≤◌, ◌<◌, ◌≡◌, ◌∙◌, refl, sym, ap, true, false, some, List, [], ◌∷◌, ◌++◌,
  Bytes, length, drop, arith, ◌==◌, length-drop,
}
use nebula_toolkit.RingBuffer.Contents.{IsValid, contents, length-contents, Holds}
use nebula_toolkit.RingBuffer.Linear.{commit_write-Holds, linear_write_space_bounds}
use nebula_toolkit.RingBuffer.{RingBuffer, capacity, get_linear_write_space}
use nebula_toolkit.UnPacker.EverySecond.{joined, every_second, ArePackets, get-every_second}
use nebula_toolkit.UnPacker.{UnPacker, head_tail}

-- `CommitWriteSize` and `Get` behind a read of packets into an empty buffer
take_in-packets :
    (scan_fuel rounds size : ℕ) (u : UnPacker) (packets : List Bytes)
    → IsValid u.ring
    → contents u.ring ≡ []
    → u.model ≡ head_tail
    → ArePackets u.head_key u.tail_key size packets
    → capacity u.ring < scan_fuel
    → length packets < rounds
    → length (joined packets) ≤ (get_linear_write_space u.ring).1
    → (u' : UnPacker) × (take_in scan_fuel rounds u
          (get_linear_write_space u.ring).0
          (joined packets)
        ≡ some (every_second packets, u'))
      × Holds u.ring u'.ring (drop (length (every_second packets) * size) (joined packets))
unfolding take_in
take_in-packets scan_fuel rounds size u packets v empty mode ok enough more fits =
    let bs = joined packets in
    let (b, r', copied, committed, h) = commit_write-Holds bs v fits in
    let holds : contents r' ≡ bs = h.holds ∙ ap (λ q. q ++ bs) empty in
    let none_held : u.ring.len ≡ 0 = sym (length-contents u.ring) ∙ ap length empty in
    let flat =
      commit-IsContiguous b bs v none_held fits committed
        (record { valid = h.valid; same_capacity = h.same_capacity; holds = holds }) in
    let (u', ran, left) =
      get-every_second scan_fuel (record u { ring = r' }) packets rounds size h.valid flat
        (omega (arith, h.same_capacity)) holds ok more mode in
    (
      u',
      rw (copied, committed, ran) refl,
      record {
        valid = left.valid;
        same_capacity = left.same_capacity ∙ h.same_capacity;
        holds = left.holds ∙ ap (drop (length (every_second packets) * size)) holds;
      },
    )

every_second-first :
    (p : Bytes) (ps : List Bytes) → (rest : List Bytes) × (every_second (p ∷ ps) ≡ p ∷ rest)
every_second-first p [] = ([], refl)
every_second-first p (q ∷ ps) = (every_second ps, refl)

-- With a packet taken out of what came into an empty buffer, there is room for the next read.
room_again :
    (r r' : RingBuffer) (bs : Bytes) (m size : ℕ)
    → IsValid r
    → 0 < size
    → 0 < length bs
    → length bs ≤ (get_linear_write_space r).1
    → Holds r r' (drop (suc m * size) bs)
    → ((get_linear_write_space r').1 == 0) ≡ false
room_again r r' bs m size v pos some_bytes fits left =
    let before = linear_write_space_bounds v in
    let behind = linear_write_space_bounds left.valid in
    let held : r'.len ≡ length bs - suc m * size =
      sym (length-contents r') ∙ ap length left.holds ∙ length-drop (suc m * size) bs in
    let taken : suc m * size ≡ size + m * size = omega arith in
    let same = left.same_capacity in ground arith

module _ (K : Kernel) (law : IsLawful K) (scan_fuel rounds : ℕ) where
  -- Packets of one size that one read gives, one behind the other, to a handler with an empty buffer, in
  -- head-and-tail mode and with no more to read behind them: when the loop of `ProcessReadableEvent` returns,
  -- `packs_` has every second one of them, one task is scheduled, and the buffer has the packets that are left when as
  -- many are taken off the front.
  pub process_readable_event-every_second :
      (n size : ℕ) (k k1 k2 : K.State) (h : TcpHandler) (p : Bytes) (ps : List Bytes)
      → IsValid h.unpacker.ring
      → contents h.unpacker.ring ≡ []
      → h.unpacker.model ≡ head_tail
      → h.has_cb ≡ true
      → ArePackets h.unpacker.head_key h.unpacker.tail_key size (p ∷ ps)
      → capacity h.unpacker.ring < scan_fuel
      → length (p ∷ ps) < rounds
      → K.receive k h.fd (get_linear_write_space h.unpacker.ring).1 ≡ (got (joined (p ∷ ps)), k1)
      → ((room : ℕ) → K.receive k1 h.fd room ≡ (would_block, k2))
      → (h' : TcpHandler) × (process_readable_event K scan_fuel rounds (suc (suc n)) k h
          ≡ some (k2, h'))
        × (h'.packs ≡ every_second (p ∷ ps))
        × (h'.scheduled ≡ h.scheduled + 1)
        × Holds h.unpacker.ring h'.unpacker.ring
            (drop (length (every_second (p ∷ ps)) * size) (joined (p ∷ ps)))
  process_readable_event-every_second n size k k1 k2 h [] ps v empty mode cb (l, ok, oks) enough
        more first then_none =
      absurd (let fits = ok.tail_fits in let pos = ok.head_pos in omega arith)
  process_readable_event-every_second n size k k1 k2 h (c ∷ p) ps v empty mode cb (l, ok, oks)
        enough more first then_none =
      let room = (get_linear_write_space h.unpacker.ring).1 in
      let fits : length (joined ((c ∷ p) ∷ ps)) ≤ room =
        rw first at (law.receive-fits k h.fd room) in
      let some_bytes : 0 < length (joined ((c ∷ p) ∷ ps)) = omega arith in
      let (u', ran, left) =
        take_in-packets scan_fuel rounds size h.unpacker ((c ∷ p) ∷ ps) v empty mode (l, ok, oks)
          enough more fits in
      let (rest, e) = every_second-first (c ∷ p) ps in
      let h1 = record h { unpacker = u'; packs = (c ∷ p) ∷ rest; scheduled = h.scheduled + 1 } in
      let free : (room == 0) ≡ false = ground arith in
      let left' : Holds h.unpacker.ring u'.ring
          (drop (suc (length rest) * size) (joined ((c ∷ p) ∷ ps))) =
        subst (λ q. Holds h.unpacker.ring u'.ring (drop (length q * size) (joined ((c ∷ p) ∷ ps))))
          e left in
      let free' =
        room_again h.unpacker.ring u'.ring (joined ((c ∷ p) ∷ ps)) (length rest) size v
          (omega arith) some_bytes fits left' in
      (
        h1,
        two_rounds K scan_fuel rounds n k k1 k2 h h1
            (first_read K scan_fuel rounds k k1 h c (p ++ joined ps) (c ∷ p) rest u' free first
              (ran ∙ ap (λ q. some (q, u')) e) cb)
            (read_nothing K scan_fuel rounds k1 k2 h1 free' (then_none _)),
        sym e,
        refl,
        left,
      )
