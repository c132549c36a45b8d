-- ===== src/RingBuffer/Reading.antt =====
-- `Read(std::byte *, size_t)` and `Peek`.
use mathlib.Core.List.{append-nil}
use nebula_toolkit.Prelude.{
  ℕ, ◌+◌, ◌-◌, ◌%◌, ◌^◌, ◌≤◌, ◌<◌, ◌≡◌, ◌∙◌, sym, ap, ◌++◌, [], some, arith, Bytes, length, get_or,
  take, drop, drop_all, replicate, mod-below_double, list_ext, length-append, length-take,
  length-drop, length-replicate, get_or-append, get_or-take, get_or-drop, ltb, ◌==◌, Bool-cases,
  inl, inr, if◌then◌else◌,
}
use nebula_toolkit.RingBuffer.Contents.{
  IsValid, byte_at, contents, length-contents, get_or-contents, contents_ext, Holds,
}
use nebula_toolkit.RingBuffer.Transfer.{CopiesOut, ring-CopiesOut, wrap_index}
use nebula_toolkit.RingBuffer.{
  RingBuffer, capacity, resize_bytes, read, peek, to_size, error_full, error_empty,
}

-- the buffer after its oldest `n` bytes are gone
abbrev pub consumed : RingBuffer → ℕ → RingBuffer
consumed r n = record r { read_index = (r.read_index + n) % capacity r; len = r.len - n }

module _ {r : RingBuffer} (n : ℕ) (v : IsValid r) (enough : n ≤ r.len) where
  consumed-IsValid : IsValid (consumed r n)
  consumed-IsValid = ground (
    arith,
    mod-below_double (r.read_index + r.len) (capacity r),
    mod-below_double (r.read_index + n) (capacity r),
    mod-below_double ((r.read_index + n) % capacity r + (r.len - n)) (capacity r),
  )

  byte_at-consumed : (i : ℕ) → i < r.len - n → byte_at (consumed r n) i ≡ byte_at r (n + i)
  byte_at-consumed i p =
      ap (λ k. get_or r.buffer k 0)
        (ground (
          arith,
          mod-below_double (r.read_index + n) (capacity r),
          mod-below_double ((r.read_index + n) % capacity r + i) (capacity r),
          mod-below_double (r.read_index + (n + i)) (capacity r),
        ))

  pub consumed-Holds : Holds r (consumed r n) (drop n (contents r))
  consumed-Holds = record {
    valid = consumed-IsValid;
    same_capacity = ground arith;
    holds =
        contents_ext (consumed r n) (drop n (contents r))
          (omega (arith, length-drop n (contents r), length-contents r))
          λ i p.
            byte_at-consumed i p
            ∙ sym (get_or-drop n (contents r) i 0 ∙ get_or-contents r (n + i) (omega arith));
  }

  -- the block that a copy of the oldest `n` bytes into `dst` leaves
  module _ (dst : Bytes) (c : CopiesOut dst r.buffer r.read_index n) (room : n ≤ length dst) where
    byte_at-copied :
        (i : ℕ) → i < n → get_or r.buffer (wrap_index (capacity r) r.read_index i) 0 ≡ byte_at r i
    byte_at-copied i p =
        ap (λ k. get_or r.buffer k 0)
          (ground (arith, mod-below_double (r.read_index + i) (capacity r)))

    length-taken : length (take n (contents r)) ≡ n
    length-taken = omega (arith, length-take n (contents r), length-contents r)

    byte-copied : (i : ℕ) → get_or c.both i 0 ≡ get_or (take n (contents r) ++ drop n dst) i 0
    byte-copied i = elim (Bool-cases (ltb i n)) [
      | inl new ↦ ground (
        arith,
        new,
        c.byte_eq i,
        appended,
        byte_at-copied i,
        get_or-take n (contents r) i 0,
        get_or-contents r i,
      )
      | inr old ↦ ground (arith, old, c.byte_eq i, appended, get_or-drop n dst (i - n) 0)
    ]
      where
        appended :
            get_or (take n (contents r) ++ drop n dst) i 0
            ≡ (if ltb i n then get_or (take n (contents r)) i 0 else get_or (drop n dst) (i - n) 0)
        appended = rw length-taken at (get_or-append (take n (contents r)) (drop n dst) i 0)

    pub copied_eq : c.both ≡ take n (contents r) ++ drop n dst
    copied_eq =
        list_ext 0 c.both (take n (contents r) ++ drop n dst)
          (omega (
            arith,
            c.length_eq,
            length-append (take n (contents r)) (drop n dst),
            length-taken,
            length-drop n dst,
          ))
          (λ i p. byte-copied i)

read_runs :
    {r : RingBuffer} (dst : Bytes) (n : ℕ) (v : IsValid r)
    (c : CopiesOut dst r.buffer r.read_index n)
    → 0 < n
    → n ≤ r.len
    → read r dst n ≡ some (n, c.both, consumed r n)
unfolding read
read_runs dst n v c p q = ground (arith, c.first_eq, c.both_eq)

-- `Read` of `n` bytes that are there returns `n`, overwrites exactly the first `n` bytes of the
-- destination by the oldest `n` bytes, takes these out, and keeps the invariant and the capacity.
pub read-Holds :
    {r : RingBuffer} (dst : Bytes) (n : ℕ)
    → IsValid r
    → 0 < n
    → n ≤ r.len
    → n ≤ length dst
    → (r' : RingBuffer) × (read r dst n ≡ some (n, take n (contents r) ++ drop n dst, r'))
      × Holds r r' (drop n (contents r))
read-Holds {r} dst n v p q s =
    let c = ring-CopiesOut dst r.buffer r.read_index n v.read_in (omega arith) s in
    (consumed r n, rw (← copied_eq n v q dst c s) (read_runs dst n v c p q), consumed-Holds n v q)

-- Too few bytes are refused with `kErrorFull`, a read of nothing with `kErrorEmpty`; destination and
-- buffer are as they were.
pub read_refused :
    (r : RingBuffer) (dst : Bytes) (n : ℕ)
    → (n ≡ 0 → read r dst n ≡ some (to_size error_empty, dst, r))
      × (r.len < n → read r dst n ≡ some (to_size error_full, dst, r))
unfolding read
read_refused r dst n = (λ e. ground arith, λ h. ground arith)

pub length-resize_bytes : (d : Bytes) (n : ℕ) → length (resize_bytes d n) ≡ n
length-resize_bytes d n = omega (
  arith,
  length-take n (d ++ replicate (n - length d) 0),
  length-append d (replicate (n - length d) 0),
  length-replicate {A = ℕ} (n - length d) 0,
)

peek_runs :
    {r : RingBuffer} (d : Bytes) (n : ℕ) (v : IsValid r)
    (c : CopiesOut (resize_bytes d n) r.buffer r.read_index n)
    → 0 < n
    → n ≤ r.len
    → peek r d n ≡ some (n, c.both)
unfolding peek
peek_runs d n v c p q = ground (arith, c.first_eq, c.both_eq)

peek_held :
    {r : RingBuffer} (d : Bytes) (n : ℕ)
    → IsValid r
    → 0 < n
    → n ≤ r.len
    → peek r d n ≡ some (n, take n (contents r))
peek_held {r} d n v p q =
    let full = length-resize_bytes d n in
    let c =
      ring-CopiesOut (resize_bytes d n) r.buffer r.read_index n v.read_in (omega arith)
        (omega arith) in
    let rest : drop n (resize_bytes d n) ≡ [] = rw full at (drop_all (resize_bytes d n)) in
    peek_runs d n v c p q
    ∙ ap (λ b. some (n, b))
        (copied_eq n v q (resize_bytes d n) c (omega arith) ∙ (rw (rest, append-nil)))

-- `Peek` of `n` bytes that are there gives exactly the oldest `n` bytes, whatever the vector held
-- before, and returns `n`; of more it returns `(size_t)-1`, of none 0, with the vector as it was.
pub peek_lem :
    {r : RingBuffer} (d : Bytes) (n : ℕ)
    → IsValid r
    → peek r d n
      ≡ some (
          if n == 0
          then (0, d)
          else if ltb r.len n
          then (2 ^ 64 - 1, d)
          else (n, take n (contents r)))
peek_lem {r} d n v = elim (Bool-cases (n == 0)) [
  | inl nothing ↦ unfold peek in rw nothing
  | inr some_bytes ↦ elim (Bool-cases (ltb r.len n)) [
    | inl short ↦ unfold peek in rw (some_bytes, short)
    | inr enough ↦ peek_held d n v (ground arith) (ground arith) ∙ (rw (some_bytes, enough))
  ]
]
