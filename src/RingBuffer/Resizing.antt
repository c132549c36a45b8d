-- ===== src/RingBuffer/Resizing.antt =====
-- `Resize`: the new size of the block under indices that stay as they are.
use nebula_toolkit.Prelude.{
  ℕ, ◌+◌, ◌-◌, ◌%◌, ◌^◌, ◌≤◌, ◌<◌, ◌≡◌, ◌∙◌, sym, ap, Bytes, length, replicate, ◌++◌, get_or, arith,
  get_or-take, get_or-append, mod-below_double,
}
use nebula_toolkit.RingBuffer.Contents.{
  IsValid, contents, contents_ext, length-contents, get_or-contents,
}
use nebula_toolkit.RingBuffer.Reading.{length-resize_bytes}
use native.Mathlib.Nat.{mod-eq_of_lt}
use nebula_toolkit.RingBuffer.{RingBuffer, capacity, resize, resize_bytes}

-- The bytes below both sizes stay.
get_or-resize_bytes :
    (d : Bytes) (n i : ℕ) → i < n → i < length d → get_or (resize_bytes d n) i 0 ≡ get_or d i 0
get_or-resize_bytes d n i p q = ground (
  arith,
  get_or-take n (d ++ replicate (n - length d) 0) i 0,
  get_or-append d (replicate (n - length d) 0) i 0,
)

-- Bytes that do not reach the end of the block, before and after, are kept by `Resize`, and so is the
-- invariant; it returns the new size.
pub resize-keeps :
    (r : RingBuffer) (size : ℕ)
    → IsValid r
    → r.read_index + r.len < capacity r
    → r.read_index + r.len < size
    → size ≤ 2 ^ 61
    → let (returned, r') = resize r size in
      (returned ≡ size) × IsValid r' × (contents r' ≡ contents r)
unfolding resize
resize-keeps r size v before after small =
    let b = resize_bytes r.buffer size in
    let whole = length-resize_bytes r.buffer size in
    let r' = record r { buffer = b } in
    let in_new : r.read_index + r.len < length b = omega (arith, whole) in
    (
      whole,
      record {
        small = omega (arith, whole);
        read_in = omega (arith, whole);
        len_in = omega (arith, whole);
        write_is = v.write_is ∙ mod-eq_of_lt before ∙ sym (mod-eq_of_lt in_new);
      },
      contents_ext r' (contents r) (sym (length-contents r)) λ i p.
          let old : (r.read_index + i) % capacity r ≡ r.read_index + i =
            mod-eq_of_lt (omega arith) in
          let new : (r.read_index + i) % length b ≡ r.read_index + i =
            mod-eq_of_lt (omega (arith, whole)) in
          ap (λ j. get_or b j 0) new
          ∙ get_or-resize_bytes r.buffer size (r.read_index + i) (omega arith) (omega arith)
          ∙ sym (ap (λ j. get_or r.buffer j 0) old)
          ∙ sym (get_or-contents r i p),
    )

-- A larger block under bytes that reach the end of the old one breaks the invariant.
pub resize_breaks :
    (r : RingBuffer) (size : ℕ)
    → IsValid r
    → capacity r ≤ r.read_index + r.len
    → capacity r < size
    → ¬ IsValid (resize r size).1
unfolding resize
resize_breaks r size v wraps grows v' =
    let whole = length-resize_bytes r.buffer size in
    let total = r.read_index + r.len in
    ground (
      arith,
      whole,
      v.write_is,
      v'.write_is,
      mod-below_double total (capacity r),
      mod-below_double total (length (resize_bytes r.buffer size)),
    )
