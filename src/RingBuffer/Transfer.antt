-- ===== src/RingBuffer/Transfer.antt =====
-- The two-part copies into and out of a ring of bytes, byte by byte.
use nebula_toolkit.Prelude.{
  ℕ, ◌+◌, ◌-◌, ◌≤◌, ◌<◌, ◌≡◌, min, arith, Bytes, length, get_or, some, memcpy, splice, memcpy_lem,
  length-splice, get_or-splice, ltb, if◌then◌else◌, Bool-cases, inl, inr, lt→ltb, le→ltb,
}
use nebula_toolkit.RingBuffer.{wrap_copy}

-- the byte at index `k` of a ring that gets `n` bytes of `src` at `at`
abbrev pub byte_in : Bytes → ℕ → Bytes → ℕ → ℕ → ℕ
byte_in dst at src n k =
    let offset = if ltb k at then k + length dst - at else k - at in
    if ltb offset n then get_or src offset 0 else get_or dst k 0

-- the index `k` bytes past `at` in a ring of `cap` bytes
abbrev pub wrap_index : ℕ → ℕ → ℕ → ℕ
wrap_index cap at k = if ltb (at + k) cap then at + k else at + k - cap

-- What a copy into the ring `dst` at `at` does.
pub record CopiesIn (dst : Bytes) (at : ℕ) (src : Bytes) (n : ℕ) : Type 0 where
  pub first : Bytes
  pub both : Bytes
  pub first_eq : memcpy dst at src 0 (min n (length dst - at)) ≡ some first
  pub both_eq :
      wrap_copy first 0 src (min n (length dst - at)) (min n (length dst - at)) n ≡ some both
  pub length_eq : length both ≡ length dst
  pub byte_eq : (k : ℕ) → k < length dst → get_or both k 0 ≡ byte_in dst at src n k

module _ (dst : Bytes) (at : ℕ) (src : Bytes) (n : ℕ) where
  CopiesIn-whole : at + n ≤ length dst → n ≤ length src → CopiesIn dst at src n
  CopiesIn-whole p q =
      let chunk : min n (length dst - at) ≡ n = omega arith in
      record {
        first = splice dst at src 0 n;
        both = splice dst at src 0 n;
        first_eq = rw chunk (memcpy_lem dst at src 0 n p (omega arith));
        both_eq = rw (chunk, le→ltb n n (omega arith));
        length_eq = length-splice dst at src 0 n p (omega arith);
        byte_eq = λ k h. ground (arith, get_or-splice dst at src 0 n k);
      }

  CopiesIn-parts :
      (c : ℕ)
      → at + c ≡ length dst
      → c < n
      → n ≤ length dst
      → n ≤ length src
      → CopiesIn dst at src n
  CopiesIn-parts c e p q s =
      let chunk : min n (length dst - at) ≡ c = omega arith in
      let first_length = length-splice dst at src 0 c (omega arith) (omega arith) in
      record {
        first = splice dst at src 0 c;
        both = splice (splice dst at src 0 c) 0 src c (n - c);
        first_eq = rw chunk (memcpy_lem dst at src 0 c (omega arith) (omega arith));
        both_eq =
            rw (chunk, lt→ltb c n p)
              (memcpy_lem (splice dst at src 0 c) 0 src c (n - c) (omega arith) (omega arith));
        length_eq = ground (arith, length-splice (splice dst at src 0 c) 0 src c (n - c));
        byte_eq = λ k h. ground (
          arith,
          get_or-splice (splice dst at src 0 c) 0 src c (n - c) k,
          get_or-splice dst at src 0 c k,
        );
      }

  pub ring-CopiesIn : at < length dst → n ≤ length dst → n ≤ length src → CopiesIn dst at src n
  ring-CopiesIn p q s = elim (Bool-cases (ltb (length dst - at) n)) [
    | inl wraps ↦ CopiesIn-parts (length dst - at) (omega arith) (ground arith) q s
    | inr fits ↦ CopiesIn-whole (ground arith) s
  ]

-- What a copy of `n` bytes out of the ring `src` from `at` on does.
pub record CopiesOut (dst src : Bytes) (at n : ℕ) : Type 0 where
  pub first : Bytes
  pub both : Bytes
  pub first_eq : memcpy dst 0 src at (min n (length src - at)) ≡ some first
  pub both_eq :
      wrap_copy first (min n (length src - at)) src 0 (min n (length src - at)) n ≡ some both
  pub length_eq : length both ≡ length dst
  pub byte_eq :
      (k : ℕ)
      → get_or both k 0
        ≡ (if ltb k n then get_or src (wrap_index (length src) at k) 0 else get_or dst k 0)

module _ (dst src : Bytes) (at n : ℕ) where
  CopiesOut-whole : at + n ≤ length src → n ≤ length dst → CopiesOut dst src at n
  CopiesOut-whole p q =
      let chunk : min n (length src - at) ≡ n = omega arith in
      record {
        first = splice dst 0 src at n;
        both = splice dst 0 src at n;
        first_eq = rw chunk (memcpy_lem dst 0 src at n (omega arith) p);
        both_eq = rw (chunk, le→ltb n n (omega arith));
        length_eq = length-splice dst 0 src at n (omega arith) p;
        byte_eq = λ k. ground (arith, get_or-splice dst 0 src at n k);
      }

  CopiesOut-parts :
      (c : ℕ)
      → at + c ≡ length src
      → c < n
      → n ≤ length src
      → n ≤ length dst
      → CopiesOut dst src at n
  CopiesOut-parts c e p q s =
      let chunk : min n (length src - at) ≡ c = omega arith in
      let first_length = length-splice dst 0 src at c (omega arith) (omega arith) in
      record {
        first = splice dst 0 src at c;
        both = splice (splice dst 0 src at c) c src 0 (n - c);
        first_eq = rw chunk (memcpy_lem dst 0 src at c (omega arith) (omega arith));
        both_eq =
            rw (chunk, lt→ltb c n p)
              (memcpy_lem (splice dst 0 src at c) c src 0 (n - c) (omega arith) (omega arith));
        length_eq = ground (arith, length-splice (splice dst 0 src at c) c src 0 (n - c));
        byte_eq = λ k. ground (
          arith,
          get_or-splice (splice dst 0 src at c) c src 0 (n - c) k,
          get_or-splice dst 0 src at c k,
        );
      }

  pub ring-CopiesOut : at < length src → n ≤ length src → n ≤ length dst → CopiesOut dst src at n
  ring-CopiesOut p q s = elim (Bool-cases (ltb (length src - at) n)) [
    | inl wraps ↦ CopiesOut-parts (length src - at) (omega arith) (ground arith) q s
    | inr fits ↦ CopiesOut-whole (ground arith) s
  ]
