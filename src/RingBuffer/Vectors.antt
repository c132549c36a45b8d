-- ===== src/RingBuffer/Vectors.antt =====
-- `Write(const std::vector<T> &)` and `Read(std::vector<T> &, size_t)`, against the byte versions.
use native.Mathlib.Nat.{div-add-mod', mul-one, mul-le-mul_left}
use nebula_toolkit.Prelude.{
  ℕ, ◌+◌, ◌-◌, ◌*◌, ◌/◌, ◌%◌, ◌≤◌, ◌<◌, ◌≡◌, ◌≢◌, ◌⊎◌, inl, inr, none, some, arith, Bytes, length,
  memcpy_lem, memcpy_outside, splice, get_or-splice, length-splice, ◌>>=◌, drop, list_ext,
  length-drop, get_or-drop,
}
use nebula_toolkit.RingBuffer.Contents.{IsValid}
use nebula_toolkit.RingBuffer.Writing.{write_in}
use nebula_toolkit.RingBuffer.{RingBuffer, Vector, capacity, write, read, write_vector, read_vector}

-- a vector whose object representation has the size that it should have
pub record IsVector (v : Vector) : Type 0 where
  pub elem_pos : 0 < v.elem_size
  pub bytes_eq : length v.bytes ≡ v.count * v.elem_size

mul_pos : (a b : ℕ) → 0 < b → (a ≢ 0 → 0 < a * b) × (a ≡ 0 → a * b ≡ 0)
mul_pos a b h = (λ p. grind arith, λ e. rw e (omega arith))

-- For elements of one byte, and for any elements where the bytes do not wrap round the end of the
-- buffer, the vector is written as its bytes are.
pub write_vector-write :
    {r : RingBuffer} (v : Vector)
    → IsValid r
    → IsVector v
    → (v.elem_size ≡ 1) ⊎ (r.write_index + v.count * v.elem_size ≤ capacity r)
    → write_vector r v ≡ write r v.bytes (v.count * v.elem_size)
unfolding write_vector write
write_vector-write {r} v valid shape (inl one) = rw one (simp mul-one)
write_vector-write {r} v valid shape (inr fits) =
    ground (arith, write_in valid, mul_pos v.count v.elem_size shape.elem_pos)

-- Elements of two bytes or more that fit, but wrap round the end of the buffer: the second copy
-- starts `first_chunk` elements into the vector instead of `first_chunk` bytes, and reads past its
-- end.
pub write_vector_wraps :
    {r : RingBuffer} (v : Vector)
    → IsValid r
    → IsVector v
    → 2 ≤ v.elem_size
    → r.len + v.count * v.elem_size ≤ capacity r
    → capacity r < r.write_index + v.count * v.elem_size
    → write_vector r v ≡ none
unfolding write_vector
write_vector_wraps {r} v valid shape wide fits wraps =
    let n = v.count * v.elem_size in
    let w = write_in valid in
    let c = capacity r - r.write_index in
    let past : 2 * c ≤ c * v.elem_size = omega (arith, mul-le-mul_left c wide) in
    ground (
      arith,
      mul_pos v.count v.elem_size shape.elem_pos,
      memcpy_lem r.buffer r.write_index v.bytes 0 c,
      memcpy_outside (splice r.buffer r.write_index v.bytes 0 c) 0 v.bytes (c * v.elem_size)
          (n - c),
    )

-- A read into a vector reads its bytes where the source's element arithmetic is exact: the bytes do
-- not wrap round the end of the buffer, or do so at the end of an element.
pub read_vector-read :
    (r : RingBuffer) (v : Vector) (n : ℕ)
    → IsValid r
    → IsVector v
    → n % v.elem_size ≡ 0
    → n ≤ v.count * v.elem_size
    → (r.read_index + n ≤ capacity r) ⊎ ((capacity r - r.read_index) % v.elem_size ≡ 0)
    → read_vector r v n
      ≡ (do (code, d, r') ← read r v.bytes n; some (code, record v { bytes = d }, r'))
unfolding read_vector read
read_vector-read r v n valid shape whole room (inl fits) = ground arith
read_vector-read r v n valid shape whole room (inr exact) =
    ground (arith, div-add-mod' (capacity r - r.read_index) v.elem_size)

-- Where the bytes wrap inside an element, the second copy starts too early: the call reports `n`
-- bytes read, but from index `k` on leaves the vector as it was, `k` being any index past the first
-- part and no smaller than `n - broken`, with `broken` the bytes that the first part had of the
-- broken element.
pub read_vector_misplaced :
    (r : RingBuffer) (v : Vector) (n k : ℕ)
    → IsValid r
    → IsVector v
    → 0 < n
    → n ≤ r.len
    → n % v.elem_size ≡ 0
    → n ≤ v.count * v.elem_size
    → capacity r < r.read_index + n
    → capacity r - r.read_index ≤ k
    → n - (capacity r - r.read_index) % v.elem_size ≤ k
    → (d : Bytes) × (r' : RingBuffer) × (read_vector r v n ≡ some (n, record v { bytes = d }, r'))
      × (drop k d ≡ drop k v.bytes)
unfolding read_vector
read_vector_misplaced r v n k valid shape some_bytes enough whole room wraps past unread =
    let c = capacity r - r.read_index in
    let q = c / v.elem_size * v.elem_size in
    let d1 = splice v.bytes 0 r.buffer r.read_index c in
    let d2 = splice d1 q r.buffer 0 (n - c) in
    let parts = div-add-mod' c v.elem_size in
    let l1 = length-splice v.bytes 0 r.buffer r.read_index c (omega arith) (omega arith) in
    let l2 = length-splice d1 q r.buffer 0 (n - c) (omega arith) (omega arith) in
    (
      d2,
      record r { read_index = (r.read_index + n) % capacity r; len = r.len - n },
      ground (
        arith,
        parts,
        l1,
        memcpy_lem v.bytes 0 r.buffer r.read_index c,
        memcpy_lem d1 q r.buffer 0 (n - c),
      ),
      list_ext 0 (drop k d2) (drop k v.bytes)
          (omega (arith, length-drop k d2, length-drop k v.bytes))
          (λ i p. ground (
            arith,
            parts,
            l1,
            get_or-drop k d2 i 0,
            get_or-drop k v.bytes i 0,
            get_or-splice d1 q r.buffer 0 (n - c) (k + i),
            get_or-splice v.bytes 0 r.buffer r.read_index c (k + i),
          )),
    )
