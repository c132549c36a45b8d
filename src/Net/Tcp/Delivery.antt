-- ===== src/Net/Tcp/Delivery.antt =====
-- A packet that comes in one read, from the descriptor to the task that `TcpHandler` schedules.
use nebula_toolkit.Net.{Kernel, IsLawful, got, would_block}
use nebula_toolkit.Net.Tcp.{TcpHandler, take_in, handle_read, read_round, process_readable_event}
use nebula_toolkit.Prelude.{
  ℕ, suc, ◌+◌, ◌-◌, ◌%◌, ◌≤◌, ◌<◌, ◌≡◌, ◌∙◌, refl, sym, ap, true, false, some, List, [], ◌∷◌, Bytes,
  length, take, drop, arith, ◌==◌, take_all, drop_all, mod-below_double,
}
use nebula_toolkit.RingBuffer.Contents.{IsValid, contents, contents_ext, length-contents, Holds}
use nebula_toolkit.RingBuffer.Linear.{commit_write-Holds, linear_write_space_bounds}
use nebula_toolkit.RingBuffer.{
  RingBuffer, Result, success, capacity, get_linear_write_space, commit_write_size,
}
use nebula_toolkit.UnPacker.{UnPacker, head_tail}
use nebula_toolkit.UnPacker.Contiguous.{IsContiguous, IsPacket, first_place}
use nebula_toolkit.RingBuffer.Reading.{consumed, consumed-Holds}
use nebula_toolkit.RingBuffer.Writing.{write_in}
use nebula_toolkit.UnPacker.HeadTail.{Framed, get_first_run}

pub empty-contents : (r : RingBuffer) → r.len ≡ 0 → contents r ≡ []
empty-contents r e = contents_ext r [] e λ i p. absurd (omega arith)

commit-read_index :
    (r : RingBuffer) (n : ℕ) {code : Result} {r' : RingBuffer}
    → commit_write_size r n ≡ some (code, r')
    → r'.read_index ≡ r.read_index
unfolding commit_write_size
commit-read_index r n e = ground (arith, e)

commit-write_index :
    (r : RingBuffer) (b : Bytes) (n : ℕ) {r' : RingBuffer}
    → IsValid r
    → n ≤ capacity r
    → commit_write_size (record r { buffer = b }) n ≡ some (success, r')
    → capacity r' ≡ capacity r
    → r'.write_index ≡ (r.write_index + n) % capacity r
unfolding commit_write_size
commit-write_index r b n v fits e same = ground (arith, e, write_in v, same)

-- An empty buffer offers what is behind its write position.
empty_room :
    (r : RingBuffer)
    → IsValid r
    → r.len ≡ 0
    → (get_linear_write_space r).1 ≡ capacity r - r.write_index
unfolding get_linear_write_space
empty_room r v e = ground (arith, write_in v)

-- Nothing is left of `n` bytes put into the empty buffer `r`, and the room behind them is still there.
room_left :
    (r r' : RingBuffer) (n : ℕ)
    → IsValid r
    → r.len ≡ 0
    → Holds r r' []
    → n ≤ (get_linear_write_space r).1
    → r'.write_index ≡ (r.write_index + n) % capacity r
    → (get_linear_write_space r).1 ≤ n + (get_linear_write_space r').1
room_left r r' n v e h fits moved =
    let nothing : r'.len ≡ 0 = sym (length-contents r') ∙ ap length h.holds in
    omega (
      arith,
      empty_room r v e,
      empty_room r' h.valid nothing,
      h.same_capacity,
      write_in v,
      mod-below_double (r.write_index + n) (capacity r),
    )

-- what is committed into an empty buffer lies in one piece
pub commit-IsContiguous :
    {r r' : RingBuffer} (b bs : Bytes) {code : Result}
    → IsValid r
    → r.len ≡ 0
    → length bs ≤ (get_linear_write_space r).1
    → commit_write_size (record r { buffer = b }) (length bs) ≡ some (code, r')
    → Holds r r' bs
    → IsContiguous r'
commit-IsContiguous {r} {r'} b bs v e fits ran h =
    let at = commit-read_index (record r { buffer = b }) (length bs) ran in
    let size = h.same_capacity in
    let inside = linear_write_space_bounds v in
    let held : r'.len ≡ length bs = sym (length-contents r') ∙ ap length h.holds in
    let start : r.write_index ≡ r.read_index =
      ground
        (arith, v.write_is, e, v.read_in, mod-below_double (r.read_index + r.len) (capacity r)) in
    omega arith

-- `CommitWriteSize` and `Get` behind a read of a whole packet into an empty buffer
pub take_in-packet :
    (scan_fuel rounds : ℕ) (u : UnPacker) (bs : Bytes) (t : ℕ)
    → IsValid u.ring
    → u.ring.len ≡ 0
    → u.model ≡ head_tail
    → IsPacket u.head_key u.tail_key bs t
    → capacity u.ring < scan_fuel
    → length bs ≤ (get_linear_write_space u.ring).1
    → (r' : RingBuffer) × (take_in scan_fuel
          (suc (suc rounds))
          u
          (get_linear_write_space u.ring).0
          bs
        ≡ some (bs ∷ [], record u { ring = r' }))
      × Holds u.ring r' []
      × ((get_linear_write_space u.ring).1 ≤ length bs + (get_linear_write_space r').1)
unfolding take_in
take_in-packet scan_fuel rounds u bs t v e mode p enough fits =
    let (b, r', copied, committed, h0) = commit_write-Holds bs v fits in
    let none_held = empty-contents u.ring e in
    let h : Holds u.ring r' bs = record {
      valid = h0.valid;
      same_capacity = h0.same_capacity;
      holds = h0.holds ∙ (rw none_held refl);
    } in
    let held : r'.len ≡ length bs = sym (length-contents r') ∙ ap length h.holds in
    let behind : 0 + length u.head_key ≡ length u.head_key = omega arith in
    let f : Framed (record u { ring = r' }) 0 t = record {
      valid = h.valid;
      flat = commit-IsContiguous b bs v e fits committed h;
      head_pos = p.head_pos;
      tail_pos = p.tail_pos;
      tail_fits = omega (arith, p.tail_fits, held);
      head_at = rw h.holds p.head_at;
      tail_at = rw h.holds (ap (λ i. first_place bs u.tail_key i) behind ∙ p.tail_at);
    } in
    let size = t + length u.tail_key - 0 in
    let short : r'.len ≤ t + length u.tail_key + size = omega (arith, p.at_end, held) in
    let ran =
      get_first_run scan_fuel (record u { ring = r' }) 0 t f (omega (arith, h.same_capacity)) short
        rounds mode in
    let left = consumed-Holds size h.valid (omega (arith, p.at_end, held)) in
    let whole : t + length u.tail_key - 0 ≡ length bs = omega (arith, p.at_end) in
    let pack : take (t + length u.tail_key - 0) (contents r') ≡ bs =
      rw (whole, h.holds) (take_all bs) in
    let gone : drop (t + length u.tail_key - 0) (contents r') ≡ [] =
      rw (whole, h.holds) (drop_all bs) in
    let empty : Holds u.ring (consumed r' size) [] = record {
      valid = left.valid;
      same_capacity = left.same_capacity ∙ h.same_capacity;
      holds = left.holds ∙ gone;
    } in
    (
      consumed r' size,
      rw (copied, committed, ran, pack) refl,
      empty,
      room_left u.ring (consumed r' size) (length bs) v e empty fits (
          commit-write_index u.ring b (length bs) v (omega (arith, linear_write_space_bounds v))
            committed h.same_capacity),
    )

pub has_room :
    (r : RingBuffer) → IsValid r → contents r ≡ [] → ((get_linear_write_space r).1 == 0) ≡ false
has_room r v e =
    let nothing : r.len ≡ 0 = sym (length-contents r) ∙ ap length e in
    let inside = linear_write_space_bounds v in ground arith

module _ (K : Kernel) (scan_fuel rounds : ℕ) where
  pub first_read :
      (k k1 : K.State) (h : TcpHandler) (c : ℕ) (bs p : Bytes) (ps : List Bytes) (u' : UnPacker)
      → let (at, room) = get_linear_write_space h.unpacker.ring in
        (room == 0) ≡ false
        → K.receive k h.fd room ≡ (got (c ∷ bs), k1)
        → take_in scan_fuel rounds h.unpacker at (c ∷ bs) ≡ some (p ∷ ps, u')
        → h.has_cb ≡ true
        → read_round K scan_fuel rounds k h
          ≡ some (true, k1, record h { unpacker = u'; packs = p ∷ ps; scheduled = h.scheduled + 1 })
  unfolding read_round handle_read
  first_read k k1 h c bs p ps u' free came ran cb = rw (free, came, ran, cb) refl

  pub read_nothing :
      (k1 k2 : K.State) (h : TcpHandler)
      → let (at, room) = get_linear_write_space h.unpacker.ring in
        (room == 0) ≡ false
        → K.receive k1 h.fd room ≡ (would_block, k2)
        → read_round K scan_fuel rounds k1 h ≡ some (false, k2, h)
  unfolding read_round handle_read
  read_nothing k1 k2 h free came = rw (free, came) refl

  pub two_rounds :
      (n : ℕ) (k k1 k2 : K.State) (h h1 : TcpHandler)
      → read_round K scan_fuel rounds k h ≡ some (true, k1, h1)
      → read_round K scan_fuel rounds k1 h1 ≡ some (false, k2, h1)
      → process_readable_event K scan_fuel rounds (suc (suc n)) k h ≡ some (k2, h1)
  unfolding process_readable_event
  two_rounds n k k1 k2 h h1 goes_on ends = rw (process_readable_event, goes_on, ends) refl

module _ (K : Kernel) (law : IsLawful K) (scan_fuel rounds : ℕ) where
  -- A packet that one read gives to a handler with an empty buffer, in head-and-tail mode and with no
  -- more to read behind it, is in `packs_` when the loop of `ProcessReadableEvent` returns, alone and
  -- whole; one task is scheduled for it, and the buffer is empty again.
  pub process_readable_event-delivers :
      (n : ℕ) (k k1 k2 : K.State) (h : TcpHandler) (bs : Bytes) (t : ℕ)
      → IsValid h.unpacker.ring
      → contents h.unpacker.ring ≡ []
      → h.unpacker.model ≡ head_tail
      → h.has_cb ≡ true
      → IsPacket h.unpacker.head_key h.unpacker.tail_key bs t
      → capacity h.unpacker.ring < scan_fuel
      → K.receive k h.fd (get_linear_write_space h.unpacker.ring).1 ≡ (got bs, k1)
      → ((room : ℕ) → K.receive k1 h.fd room ≡ (would_block, k2))
      → (h' : TcpHandler) × (process_readable_event K scan_fuel (suc (suc rounds)) (suc (suc n)) k h
          ≡ some (k2, h'))
        × (h'.packs ≡ bs ∷ [])
        × (h'.scheduled ≡ h.scheduled + 1)
        × (h'.should_close ≡ h.should_close)
        × Holds h.unpacker.ring h'.unpacker.ring []
  process_readable_event-delivers n k k1 k2 h [] t v empty mode cb p enough first then_none =
      absurd (let fits = p.tail_fits in let pos = p.head_pos in omega arith)
  process_readable_event-delivers n k k1 k2 h (c ∷ bs) t v empty mode cb p enough first then_none =
      let free = has_room h.unpacker.ring v empty in
      let fits : length (c ∷ bs) ≤ (get_linear_write_space h.unpacker.ring).1 =
        rw first at (law.receive-fits k h.fd (get_linear_write_space h.unpacker.ring).1) in
      let nothing : h.unpacker.ring.len ≡ 0 =
        sym (length-contents h.unpacker.ring) ∙ ap length empty in
      let (r', ran, left, _) =
        take_in-packet scan_fuel rounds h.unpacker (c ∷ bs) t v nothing mode p enough fits in
      let u' = record h.unpacker { ring = r' } in
      let h1 = record h { unpacker = u'; packs = (c ∷ bs) ∷ []; scheduled = h.scheduled + 1 } in
      let free' = has_room r' left.valid left.holds in
      (
        h1,
        two_rounds K scan_fuel (suc (suc rounds)) n k k1 k2 h h1
            (first_read K scan_fuel (suc (suc rounds)) k k1 h c bs (c ∷ bs) [] u' free first ran cb)
            (read_nothing K scan_fuel (suc (suc rounds)) k1 k2 h1 free' (then_none _)),
        refl,
        refl,
        refl,
        left,
      )
