-- ===== src/RingBuffer/Contents.antt =====
-- The bytes that a ring buffer holds, oldest first, and its representation invariant.
use nebula_toolkit.Prelude.{
  ℕ, ◌+◌, ◌%◌, ◌^◌, ◌≤◌, ◌<◌, ◌≡◌, ◌∙◌, Bytes, get_or, tabulate, length, lt→ltb, arith,
  length-tabulate, get_or-tabulate, list_ext,
}
use nebula_toolkit.RingBuffer.{RingBuffer, capacity}

-- The capacity bound is far above any address space; with it no sum of indices wraps.
pub record IsValid (r : RingBuffer) : Type 0 where
  pub small : length r.buffer ≤ 2 ^ 61
  pub read_in : r.read_index < length r.buffer
  pub len_in : r.len ≤ length r.buffer
  pub write_is : r.write_index ≡ (r.read_index + r.len) % length r.buffer

-- the byte `i` places after the oldest one
abbrev pub byte_at : RingBuffer → ℕ → ℕ
byte_at r i = get_or r.buffer ((r.read_index + i) % capacity r) 0

abbrev pub contents : RingBuffer → Bytes
contents r = tabulate r.len (byte_at r)

pub length-contents : (r : RingBuffer) → length (contents r) ≡ r.len
length-contents r = length-tabulate r.len (byte_at r)

pub get_or-contents : (r : RingBuffer) (i : ℕ) → i < r.len → get_or (contents r) i 0 ≡ byte_at r i
get_or-contents r i p = get_or-tabulate r.len (byte_at r) i 0 ∙ rw (lt→ltb i r.len p)

pub contents_ext :
    (r : RingBuffer) (q : Bytes)
    → r.len ≡ length q
    → ((i : ℕ) → i < r.len → byte_at r i ≡ get_or q i 0)
    → contents r ≡ q
contents_ext r q e h =
    list_ext 0 (contents r) q (length-contents r ∙ e) λ i p.
      let p' : i < r.len = omega (arith, length-contents r) in get_or-contents r i p' ∙ h i p'

-- `r'` is in order, has the capacity of `r`, and holds the bytes `q`.
pub record Holds (r r' : RingBuffer) (q : Bytes) : Type 0 where
  pub valid : IsValid r'
  pub same_capacity : capacity r' ≡ capacity r
  pub holds : contents r' ≡ q
