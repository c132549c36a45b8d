-- ===== src/UnPacker/Contiguous.antt =====
-- `FindKey` where the readable bytes do not wrap round the end of the buffer.
use nebula_toolkit.Prelude.{
  ℕ, ◌+◌, ◌-◌, ◌≤◌, ◌<◌, ◌≡◌, refl, ap, ◌∙◌, Option, none, some, Bytes, length, arith,
  mod-below_double,
}
use nebula_toolkit.RingBuffer.Contents.{IsValid, contents, length-contents}
use nebula_toolkit.RingBuffer.{RingBuffer, capacity}
use nebula_toolkit.UnPacker.Search.{occurs, first_at, part1_size, either_place, find_key_lem}
use nebula_toolkit.UnPacker.{find_key}

-- the first place of `key` in `q` at or behind `start`
abbrev pub first_place : Bytes → Bytes → ℕ → Option ℕ
first_place q key start = first_at (length q + 1 - length key - start) (λ i. occurs q i key) start

-- The bytes are a packet: the head key in front, and the first tail key behind it at their end.
pub record IsPacket (head_key tail_key bs : Bytes) (t : ℕ) : Type 0 where
  pub head_pos : 0 < length head_key
  pub tail_pos : 0 < length tail_key
  pub tail_fits : length head_key + length tail_key ≤ length bs
  pub head_at : first_place bs head_key 0 ≡ some 0
  pub tail_at : first_place bs tail_key (length head_key) ≡ some t
  pub at_end : t + length tail_key ≡ length bs

abbrev pub place_or : Option ℕ → ℕ → ℕ
place_or none missing = missing
place_or (some i) missing = i

-- The readable bytes lie in one piece.
abbrev pub IsContiguous : RingBuffer → Type 0
IsContiguous r = r.read_index + r.len ≤ capacity r

either-none : (o : Option ℕ) (missing : ℕ) → either_place o none missing ≡ place_or o missing
either-none none missing = refl
either-none (some i) missing = refl

-- On readable bytes in one piece, with room for the key behind `start_offset`, `FindKey` is the
-- search for the first place of the key in these bytes, with the capacity for "not found".
pub find_key-first_place :
    (fuel : ℕ) (r : RingBuffer) (key : Bytes) (start : ℕ)
    → IsValid r
    → IsContiguous r
    → 0 < length key
    → start + length key ≤ r.len
    → capacity r < fuel
    → find_key fuel r key start ≡ some (place_or (first_place (contents r) key start) (capacity r))
find_key-first_place fuel r key start v flat nonempty room enough =
    let turn = mod-below_double (r.read_index + start) (capacity r) in
    let part1 : part1_size r start ≡ r.len - start = ground (arith, turn) in
    let n2 : r.len - start - part1_size r start + 1 - length key ≡ 0 = omega arith in
    let n1 : part1_size r start + 1 - length key ≡ length (contents r) + 1 - length key - start =
      omega (arith, length-contents r) in
    find_key_lem fuel r key start v nonempty (omega arith) enough (omega arith)
    ∙ (rw (n2, n1) (ap some (either-none (first_place (contents r) key start) (capacity r))))
