-- ===== src/UnPacker/Search.antt =====
-- `FindKey` against the search for a key in the bytes that the buffer holds.
use nebula_toolkit.Prelude.{
  ℕ, zero, suc, ◌+◌, ◌-◌, ◌%◌, ◌^◌, ◌≤◌, ◌<◌, ◌≡◌, ◌∙◌, ◌⊎◌, inl, inr, refl, ap, Bool, true, false,
  Option, none, some, [], ◌∷◌, Bytes, length, get_or, min, leb, ◌==◌, if◌then◌else◌, ◌>>=◌,
  add_size, sub_size, arith, mod-below_double, Bool-cases, Option-cases, ne→==, le→ltb, lt→leb,
}
use nebula_toolkit.RingBuffer.Contents.{IsValid, contents, get_or-contents}
use nebula_toolkit.RingBuffer.{RingBuffer, capacity}
use nebula_toolkit.UnPacker.Finding.{matches_at, linear_matches, scan, hit, find_second, find_key}

-- `key` stands in `q` at `i`
abbrev pub occurs : Bytes → ℕ → Bytes → Bool
occurs q i [] = true
occurs q i (k ∷ key) = if get_or q i 0 == k then occurs q (i + 1) key else false

-- the first of the `n` numbers from `i` on that passes the test
abbrev pub first_at : ℕ → (ℕ → Bool) → ℕ → Option ℕ
first_at zero test i = none
first_at (suc n) test i = if test i then some i else first_at n test (i + 1)

-- A loop to a bound that is not the largest `size_t` makes one round for each number up to it.
scan-first_at :
    (n fuel : ℕ) (test : ℕ → Bool) (bound i : ℕ)
    → i + n ≡ bound + 1
    → n < fuel
    → bound + 1 < 2 ^ 64
    → scan fuel test bound i ≡ some (first_at n test i)
unfolding scan
scan-first_at n zero test bound i e p q = absurd (omega arith)
scan-first_at zero (suc f) test bound i e p q = ground arith
scan-first_at (suc n) (suc f) test bound i e p q =
    ground (arith, scan-first_at n f test bound (i + 1))

module _ (r : RingBuffer) (v : IsValid r) where
  -- The bytes from `p` on in the buffer are those from `j` on in its contents, `w` being the turn.
  matches_at-occurs :
      (w p j : ℕ) (key : Bytes)
      → (w ≡ 0) ⊎ (w ≡ capacity r)
      → p + w ≡ r.read_index + j
      → p + length key ≤ capacity r
      → j + length key ≤ r.len
      → matches_at r.buffer p key ≡ occurs (contents r) j key
  unfolding matches_at
  matches_at-occurs w p j [] turn e inside held = refl
  matches_at-occurs w p j (k ∷ key) turn e inside held = ground (
    arith,
    get_or-contents r j,
    mod-below_double (r.read_index + j) (capacity r),
    mod-below_double p (capacity r),
    matches_at-occurs w (p + 1) (j + 1) key turn,
  )

  linear_matches-occurs :
      (p j : ℕ) (key : Bytes)
      → p + capacity r ≡ r.read_index + j
      → p + length key ≤ capacity r
      → j + length key ≤ r.len
      → linear_matches r.buffer p key ≡ occurs (contents r) j key
  unfolding linear_matches
  linear_matches-occurs p j [] e inside held = refl
  linear_matches-occurs p j (k ∷ key) e inside held = ground (
    arith,
    get_or-contents r j,
    mod-below_double (r.read_index + j) (capacity r),
    linear_matches-occurs (p + 1) (j + 1) key,
  )

abbrev pub shift : ℕ → Option ℕ → Option ℕ
shift s none = none
shift s (some i) = some (s + i)

-- Searches from two places whose tests agree step by step find the same place.
pub first_at-shift :
    (n : ℕ) (t t' : ℕ → Bool) (i s j : ℕ)
    → s + i ≡ j
    → ((k : ℕ) → i ≤ k → k < i + n → t k ≡ t' (s + k))
    → first_at n t' j ≡ shift s (first_at n t i)
first_at-shift zero t t' i s j e h = refl
first_at-shift (suc n) t t' i s j e h = elim (Bool-cases (t i)) [
  | inl here ↦ ground (arith, here, h i)
  | inr on ↦ ground (
    arith,
    on,
    h i,
    first_at-shift n t t' (i + 1) s (j + 1) (omega arith)
        (λ k p q. h k (omega arith) (omega arith)),
  )
]

pub first_at-bounds :
    (n : ℕ) (t : ℕ → Bool) (i k : ℕ)
    → first_at n t i ≡ some k
    → (i ≤ k) × (k < i + n) × (t k ≡ true)
first_at-bounds zero t i k e = cc
first_at-bounds (suc n) t i k e = elim (Bool-cases (t i)) [
  | inl here ↦ ground (arith, here)
  | inr on ↦ ground (arith, on, first_at-bounds n t (i + 1) k)
]

-- how many of the bytes from `start` on lie in front of the end of the buffer
abbrev pub part1_size : RingBuffer → ℕ → ℕ
part1_size r start = min (capacity r - (r.read_index + start) % capacity r) (r.len - start)

-- the first of two places, or the value for "not found"
abbrev pub either_place : Option ℕ → Option ℕ → ℕ → ℕ
either_place (some i) second missing = i
either_place none (some i) missing = i
either_place none none missing = missing

-- the places that `FindKey` tries: in front of the end of the buffer, then from its start on
abbrev pub places : RingBuffer → Bytes → ℕ → Option ℕ × Option ℕ
places r key start =
    let part1 = part1_size r start in
    (
      first_at (part1 + 1 - length key) (λ i. occurs (contents r) i key) start,
      first_at (r.len - start - part1 + 1 - length key) (λ i. occurs (contents r) i key)
          (start + part1),
    )

hit_lem :
    (o : Option ℕ) (base missing : ℕ)
    → ((i : ℕ) → o ≡ some i → base + i < 2 ^ 64)
    → hit o base (some missing) ≡ some (either_place none (shift base o) missing)
hit_lem none base missing h = refl
hit_lem (some i) base missing h = ground (arith, h i refl)

-- The search up to its two loops, with no wrapped arithmetic but the bound of the first.
module _ (fuel : ℕ) (r : RingBuffer) (key : Bytes) (start : ℕ) (v : IsValid r)
    (nonempty : 0 < length key) (inside : start < r.len) where
  pub find_key_runs :
      length key ≤ r.len
      → find_key fuel r key start ≡ (do
        first ←
            scan fuel
              (λ i. matches_at r.buffer (add_size ((r.read_index + start) % capacity r) i) key)
              (sub_size (part1_size r start) (length key))
              0
        hit first start (
            find_second fuel r key
              (r.len - start - part1_size r start)
              (start + part1_size r start)))
  unfolding find_key
  find_key_runs long =
      let turn = mod-below_double (r.read_index + start) (capacity r) in
      let rest : sub_size r.len start ≡ r.len - start = omega arith in
      let from : add_size r.read_index start ≡ r.read_index + start = omega arith in
      let linear : sub_size (capacity r) ((r.read_index + start) % capacity r)
          ≡ capacity r - (r.read_index + start) % capacity r =
        ground (arith, turn) in
      let second : sub_size (r.len - start) (part1_size r start)
          ≡ r.len - start - part1_size r start =
        omega arith in
      let base : add_size start (part1_size r start) ≡ start + part1_size r start = omega arith in
      rw (
        ne→== (length key) 0 (omega arith),
        le→ltb r.len (length key) (omega arith),
        lt→leb r.len start inside,
        rest,
        from,
        ne→== (capacity r) 0 (omega arith),
        linear,
        second,
        base,
      )

module _ (fuel : ℕ) (r : RingBuffer) (key : Bytes) (start : ℕ) (v : IsValid r)
    (nonempty : 0 < length key) (inside : start < r.len) (enough : capacity r < fuel) where
  second_scan :
      length key ≤ r.len - start - part1_size r start
      → (o : Option ℕ) × (scan fuel
            (λ i. linear_matches r.buffer i key)
            (r.len - start - part1_size r start - length key)
            0
          ≡ some o)
        × ((places r key start).1 ≡ shift (start + part1_size r start) o)
        × ((i : ℕ) → o ≡ some i → i < capacity r)
  second_scan long =
      let part2 = r.len - start - part1_size r start in
      let n = part2 + 1 - length key in
      let test = λ (i : ℕ). linear_matches r.buffer i key in
      let turn = mod-below_double (r.read_index + start) (capacity r) in
      (
        first_at n test 0,
        scan-first_at n fuel test (part2 - length key) 0 (omega arith) (omega arith) (omega arith),
        first_at-shift n test (λ i. occurs (contents r) i key) 0 (start + part1_size r start) _
            (omega arith)
            (λ k p q.
              linear_matches-occurs r v k (start + part1_size r start + k) key
                (ground (arith, turn)) (ground (arith, turn)) (ground (arith, turn))),
        λ i e. let b = first_at-bounds n test 0 i e in omega arith,
      )

  find_second_lem :
      find_second fuel r key (r.len - start - part1_size r start) (start + part1_size r start)
      ≡ some (either_place none (places r key start).1 (capacity r))
  unfolding find_second
  find_second_lem = elim (Bool-cases (leb (length key) (r.len - start - part1_size r start))) [
    | inl long ↦
        let (o, ran, moved, small) = second_scan (ground arith) in
        ground (
          arith,
          long,
          ran,
          moved,
          hit_lem o (start + part1_size r start) (capacity r)
              (λ i e. let b = small i e in omega arith),
        )
    | inr short ↦
        let none_left : r.len - start - part1_size r start + 1 - length key ≡ 0 = ground arith in
        rw none_left (rw (short, find_second))
  ]

  first_scan :
      length key ≤ part1_size r start
      → (o : Option ℕ) × (scan fuel
            (λ i. matches_at r.buffer (add_size ((r.read_index + start) % capacity r) i) key)
            (part1_size r start - length key)
            0
          ≡ some o)
        × ((places r key start).0 ≡ shift start o)
        × ((i : ℕ) → o ≡ some i → i < capacity r)
  first_scan long =
      let abs_start = (r.read_index + start) % capacity r in
      let n = part1_size r start + 1 - length key in
      let test = λ (i : ℕ). matches_at r.buffer (add_size abs_start i) key in
      let turn = mod-below_double (r.read_index + start) (capacity r) in
      (
        first_at n test 0,
        scan-first_at n fuel test (part1_size r start - length key) 0 (omega arith) (omega arith)
            (omega arith),
        first_at-shift n test (λ i. occurs (contents r) i key) 0 start _ (omega arith)
            (λ k p q.
              let whole : add_size abs_start k ≡ abs_start + k = ground (arith, turn) in
              rw whole (
                matches_at-occurs r v (r.read_index + start - abs_start) (abs_start + k) (start + k)
                  key (ground (arith, turn)) (ground (arith, turn)) (ground (arith, turn))
                  (ground (arith, turn)))),
        λ i e. let b = first_at-bounds n test 0 i e in omega arith,
      )

  -- `FindKey` where the key is not empty and no longer than the first part of the readable bytes from
  -- `start_offset` on, with more fuel than the capacity: it returns the first place of the key within the first
  -- part, else the first within the second part, else the capacity. Places across the end of the
  -- buffer are not tried.
  pub find_key_lem :
      length key ≤ part1_size r start
      → find_key fuel r key start
        ≡ some (either_place (places r key start).0 (places r key start).1 (capacity r))
  find_key_lem long =
      let (o, ran, found, small) = first_scan long in
      let bound : sub_size (part1_size r start) (length key) ≡ part1_size r start - length key =
        omega arith in
      let runs = find_key_runs fuel r key start v nonempty inside (omega arith) in
      elim (Option-cases o) [
        | inl missing ↦ runs ∙ (rw (bound, ran, missing, found, missing) find_second_lem)
        | inr (i, here) ↦
            let near = small i here in
            runs ∙ (rw (bound, ran, here, found, here) (ap some (ground arith)))
      ]
