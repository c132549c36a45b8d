-- ===== src/UnPacker/Packets.antt =====
-- Copying a packet out of the buffer, and taking its bytes off the front.
use mathlib.Core.List.{append-nil}
use native.Mathlib.Nat.{le_of_eq}
use nebula_toolkit.Prelude.{
  ℕ, suc, ◌+◌, ◌%◌, ◌≤◌, ◌<◌, ◌≡◌, ◌∙◌, ap, sym, some, none, Option, ltb, lt→ltb, Bool-cases, inl,
  inr, [], take, drop, drop_all, replicate, length-replicate, arith, mod-below_double,
}
use nebula_toolkit.RingBuffer.Contents.{IsValid, contents}
use nebula_toolkit.RingBuffer.Reading.{consumed-Holds, copied_eq}
use nebula_toolkit.RingBuffer.Transfer.{CopiesOut, ring-CopiesOut}
use nebula_toolkit.RingBuffer.{RingBuffer, capacity}
use nebula_toolkit.UnPacker.{Progress, copy_packet, loop}

copy_packet_runs :
    (r : RingBuffer) (off size : ℕ) (v : IsValid r)
    (c : CopiesOut (replicate size 0) r.buffer ((r.read_index + off) % capacity r) size)
    → off ≤ r.len
    → copy_packet r off size ≡ some c.both
unfolding copy_packet
copy_packet_runs r off size v c p =
    ground (arith, c.first_eq, c.both_eq, mod-below_double (r.read_index + off) (capacity r))

-- A packet within the readable bytes is copied out as these hold it, wrapped or not.
pub copy_packet_lem :
    (r : RingBuffer) (off size : ℕ)
    → IsValid r
    → off < r.len
    → off + size ≤ r.len
    → copy_packet r off size ≡ some (take size (drop off (contents r)))
copy_packet_lem r off size v p q =
    let moved = consumed-Holds off v (omega arith) in
    let zeros = length-replicate {A = ℕ} size 0 in
    let c =
      ring-CopiesOut (replicate size 0) r.buffer ((r.read_index + off) % capacity r) size
        moved.valid.read_in (omega arith) (le_of_eq (sym zeros)) in
    let copied =
      copied_eq size moved.valid (omega arith) (replicate size 0) c (le_of_eq (sym zeros)) in
    let rest : drop size (replicate {A = ℕ} size 0) ≡ [] =
      rw zeros at (drop_all (replicate {A = ℕ} size 0)) in
    copy_packet_runs r off size v c (omega arith)
    ∙ ap some (copied ∙ (rw (rest, append-nil, moved.holds)))

-- A round that goes on, where the next one does not, is the whole loop.
pub loop_once :
    (round : Progress → Option (Option Progress)) (total_size : ℕ) {s s' : Progress}
    → s.current_pos < total_size
    → round s ≡ some (some s')
    → round s' ≡ some none
    → (k : ℕ) → loop round (suc (suc k)) total_size s ≡ some s'
unfolding loop
loop_once round total_size {s} {s'} more goes stops k =
    rw (loop, lt→ltb s.current_pos total_size more, goes)
      (elim (Bool-cases (ltb s'.current_pos total_size)) [
        | inl again ↦ rw (loop, again, stops)
        | inr done ↦ rw (loop, done)
      ])
