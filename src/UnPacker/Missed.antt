-- ===== src/UnPacker/Missed.antt =====
-- Where `FindKey` fails to see a key, and where it does not return.
use nebula_toolkit.Prelude.{
  ℕ, zero, suc, ◌+◌, ◌-◌, ◌%◌, ◌^◌, ◌≤◌, ◌<◌, ◌≡◌, ◌≢◌, ◌⊎◌, ◌∙◌, refl, Bool, false, none, some,
  Bytes, ◌∷◌, length, get_or, arith, mod-below_double, inl, inr, add_size, sub_size, ne→==,
}
use nebula_toolkit.RingBuffer.Contents.{IsValid, contents}
use nebula_toolkit.RingBuffer.{RingBuffer, capacity}
use nebula_toolkit.UnPacker.Finding.{matches_at, scan}
use nebula_toolkit.UnPacker.Search.{occurs, first_at, part1_size, find_key_runs, find_key_lem}
use nebula_toolkit.UnPacker.{find_key}

first_at-none :
    (n : ℕ) (t : ℕ → Bool) (i : ℕ)
    → ((k : ℕ) → i ≤ k → k < i + n → t k ≡ false)
    → first_at n t i ≡ none
first_at-none zero t i h = refl
first_at-none (suc n) t i h =
    rw (h i (omega arith) (omega arith))
      (first_at-none n t (i + 1) (λ k p q. h k (omega arith) (omega arith)))

-- A key that stands, from `start_offset` on, only across the end of the buffer is reported missing,
-- although it is among the readable bytes: no part of the search looks there.
pub find_key_straddling :
    (fuel : ℕ) (r : RingBuffer) (key : Bytes) (start : ℕ)
    → IsValid r
    → 0 < length key
    → start < r.len
    → length key ≤ part1_size r start
    → capacity r < fuel
    → ((i : ℕ)
        → start ≤ i
        → i + length key ≤ r.len
        → (i + length key ≤ start + part1_size r start) ⊎ (start + part1_size r start ≤ i)
        → occurs (contents r) i key ≡ false)
    → find_key fuel r key start ≡ some (capacity r)
find_key_straddling fuel r key start v nonempty inside long enough only =
    find_key_lem fuel r key start v nonempty inside enough long
    ∙ (rw (
      first_at-none (part1_size r start + 1 - length key) (λ i. occurs (contents r) i key) start
          (λ k p q. only k p (omega arith) (inl (omega arith))),
      first_at-none (r.len - start - part1_size r start + 1 - length key)
          (λ i. occurs (contents r) i key) (start + part1_size r start)
          (λ k p q. only k (omega arith) (omega arith) (inr (omega arith))),
    ))

-- the key's first byte is nowhere in the buffer
abbrev Absent : Bytes → ℕ → Type 0
Absent buffer k = (i : ℕ) → get_or buffer i 0 ≢ k

-- A scan to the largest `size_t` that never hits does not end.
scan_forever :
    (fuel : ℕ) (test : ℕ → Bool) (i : ℕ)
    → ((k : ℕ) → test k ≡ false)
    → i < 2 ^ 64
    → scan fuel test (2 ^ 64 - 1) i ≡ none
unfolding scan
scan_forever zero test i never p = refl
scan_forever (suc f) test i never p =
    ground (arith, never i, scan_forever f test (add_size i 1) never)

-- Where the first part of the bytes from `start_offset` on is one byte shorter than the key, and the
-- key's first byte stands nowhere in the buffer, the bound of the first loop wraps to the largest
-- `size_t`, and `FindKey` does not return, however many rounds it is given.
pub find_key_hangs :
    (fuel : ℕ) (r : RingBuffer) (k : ℕ) (key : Bytes) (start : ℕ)
    → IsValid r
    → suc (length key) ≤ r.len
    → start < r.len
    → part1_size r start ≡ length key
    → Absent r.buffer k
    → find_key fuel r (k ∷ key) start ≡ none
find_key_hangs fuel r k key start v shorter inside short absent =
    let turn = mod-below_double (r.read_index + start) (capacity r) in
    let bound : sub_size (part1_size r start) (suc (length key)) ≡ 2 ^ 64 - 1 =
      rw short (omega arith) in
    find_key_runs fuel r (k ∷ key) start v (omega arith) inside shorter
    ∙ (rw (
      bound,
      scan_forever fuel
          (λ i. matches_at r.buffer (add_size ((r.read_index + start) % capacity r) i) (k ∷ key)) 0
          (λ i. mismatch (add_size ((r.read_index + start) % capacity r) i)) (omega arith),
    ))
  where
    mismatch : (p : ℕ) → matches_at r.buffer p (k ∷ key) ≡ false
    mismatch p = unfold matches_at in rw (ne→== _ k (absent (p % capacity r)))
