-- ===== src/RingBuffer/Writing.antt =====
-- `Write(const std::byte *, size_t)`.
use nebula_toolkit.Prelude.{
  ℕ, ◌+◌, ◌-◌, ◌%◌, ◌≤◌, ◌<◌, ◌≡◌, ◌∙◌, ◌++◌, some, arith, Bytes, length, get_or, take,
  mod-below_double, length-append, length-take, length-tabulate, get_or-append, get_or-take,
  get_or-tabulate, ltb, lt→ltb, Bool-cases, inl, inr, sym, if◌then◌else◌,
}
use nebula_toolkit.RingBuffer.Contents.{
  IsValid, byte_at, contents, length-contents, contents_ext, Holds,
}
use nebula_toolkit.RingBuffer.Transfer.{CopiesIn, ring-CopiesIn}
use nebula_toolkit.RingBuffer.{RingBuffer, capacity, write, to_size, error_full, error_empty}

-- the buffer after `n` bytes went in, `b` being its block
abbrev pub advanced : RingBuffer → Bytes → ℕ → RingBuffer
advanced r b n = record r {
  buffer = b;
  write_index = (r.write_index + n) % capacity r;
  len = r.len + n;
}

write_runs :
    {r : RingBuffer} (src : Bytes) (n : ℕ) (v : IsValid r)
    (c : CopiesIn r.buffer r.write_index src n)
    → 0 < n
    → n ≤ capacity r - r.len
    → write r src n ≡ some (n, advanced r c.both n)
unfolding write
write_runs {r} src n v c p q = ground (arith, c.first_eq, c.both_eq)

module _ {r : RingBuffer} (src : Bytes) (n : ℕ) (v : IsValid r)
    (c : CopiesIn r.buffer r.write_index src n) (fits : n ≤ capacity r - r.len)
    (has : n ≤ length src) where
  advanced-IsValid : IsValid (advanced r c.both n)
  advanced-IsValid = ground (
    arith,
    c.length_eq,
    mod-below_double (r.read_index + r.len) (capacity r),
    mod-below_double (r.write_index + n) (capacity r),
    mod-below_double (r.read_index + (r.len + n)) (capacity r),
  )

  byte_kept : (i : ℕ) → i < r.len → byte_at (advanced r c.both n) i ≡ byte_at r i
  byte_kept i p = ground (
    arith,
    c.length_eq,
    c.byte_eq ((r.read_index + i) % capacity r),
    mod-below_double (r.read_index + r.len) (capacity r),
    mod-below_double (r.read_index + i) (capacity r),
  )

  byte_added :
      (i : ℕ)
      → r.len ≤ i
      → i < r.len + n
      → byte_at (advanced r c.both n) i ≡ get_or src (i - r.len) 0
  byte_added i p q = ground (
    arith,
    c.length_eq,
    c.byte_eq ((r.read_index + i) % capacity r),
    mod-below_double (r.read_index + r.len) (capacity r),
    mod-below_double (r.read_index + i) (capacity r),
  )

  byte_at-advanced :
      (i : ℕ)
      → i < r.len + n
      → byte_at (advanced r c.both n) i ≡ get_or (contents r ++ take n src) i 0
  byte_at-advanced i p = elim (Bool-cases (ltb i r.len)) [
    | inl old ↦ byte_kept i (ground arith) ∙ sym (appended ∙ rw (old, get_or-tabulate, old))
    | inr new ↦
        byte_added i (ground arith) p
        ∙ sym (appended ∙ rw (new, get_or-take, lt→ltb (i - r.len) n (ground arith)))
  ]
    where
      appended :
          get_or (contents r ++ take n src) i 0
          ≡ (if ltb i r.len then get_or (contents r) i 0 else get_or (take n src) (i - r.len) 0)
      appended =
          rw (length-tabulate r.len (byte_at r)) at (get_or-append (contents r) (take n src) i 0)

  contents-advanced : contents (advanced r c.both n) ≡ contents r ++ take n src
  contents-advanced =
      contents_ext (advanced r c.both n) (contents r ++ take n src)
        (omega
          (arith, length-append (contents r) (take n src), length-contents r, length-take n src))
        byte_at-advanced

  pub advanced-Holds : Holds r (advanced r c.both n) (contents r ++ take n src)
  advanced-Holds = record {
    valid = advanced-IsValid;
    same_capacity = c.length_eq;
    holds = contents-advanced;
  }

pub write_in : {r : RingBuffer} → IsValid r → r.write_index < capacity r
write_in {r} v = ground (arith, mod-below_double (r.read_index + r.len) (capacity r))

-- `Write` of `n` bytes that fit returns `n`, puts exactly the block's first `n` bytes behind those
-- held before, touches nothing outside of a block, and keeps the invariant and the capacity.
pub write-Holds :
    {r : RingBuffer} (src : Bytes) (n : ℕ)
    → IsValid r
    → 0 < n
    → r.len + n ≤ capacity r
    → n ≤ length src
    → (r' : RingBuffer) × (write r src n ≡ some (n, r')) × Holds r r' (contents r ++ take n src)
write-Holds {r} src n v p q s =
    let c = ring-CopiesIn r.buffer r.write_index src n (write_in v) (omega arith) s in
    (
      advanced r c.both n,
      write_runs src n v c p (omega arith),
      advanced-Holds src n v c (omega arith) s,
    )

-- What does not fit is refused with `kErrorFull`, nothing at all with `kErrorEmpty`, and the buffer
-- is as it was.
pub write_refused :
    {r : RingBuffer} (src : Bytes) (n : ℕ)
    → IsValid r
    → (n ≡ 0 → write r src n ≡ some (to_size error_empty, r))
      × (capacity r < r.len + n → write r src n ≡ some (to_size error_full, r))
unfolding write
write_refused src n v = (λ e. ground arith, λ h. ground arith)
