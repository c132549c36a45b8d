-- ===== src/UnPacker/Finding.antt =====
-- `UnPacker::FindKey`.
use nebula_toolkit.Prelude.{
  ℕ, zero, suc, ◌%◌, Bool, true, false, not, ◌||◌, Option, none, some, [], ◌∷◌, Bytes, length,
  get_or, min, ltb, leb, ◌==◌, if◌then◌else◌, ◌>>=◌, add_size, sub_size, mod_size,
}
use nebula_toolkit.RingBuffer.{RingBuffer, capacity, available_to_read}

-- `buffer_[(p + j) % buffer_.size()] == find_key[j]` for every `j`
unfoldable pub matches_at : Bytes → ℕ → Bytes → Bool
matches_at buffer p [] = true
matches_at buffer p (k ∷ key) =
    if get_or buffer (p % length buffer) 0 == k then matches_at buffer (add_size p 1) key else false

-- `buffer_[i + j] == find_key[j]` for every `j`
unfoldable pub linear_matches : Bytes → ℕ → Bytes → Bool
linear_matches buffer i [] = true
linear_matches buffer i (k ∷ key) =
    if get_or buffer i 0 == k then linear_matches buffer (add_size i 1) key else false

-- `for (size_t i = ...; i <= bound; ++i) if (test(i)) ...`: the first hit, or `some none`
unfoldable pub scan : ℕ → (ℕ → Bool) → ℕ → ℕ → Option (Option ℕ)
scan zero test bound i = none
scan (suc f) test bound i = elim (leb i bound) [
  | false ↦ some none
  | true ↦ elim (test i) [ true ↦ some (some i) | false ↦ scan f test bound (add_size i 1) ]
]

-- where the search ends: at a hit, `base` further on, or with `otherwise`
abbrev pub hit : Option ℕ → ℕ → Option ℕ → Option ℕ
hit none base otherwise = otherwise
hit (some i) base otherwise = some (add_size base i)

-- the second part, at the start of the buffer
unfoldable pub find_second : ℕ → RingBuffer → Bytes → ℕ → ℕ → Option ℕ
find_second fuel r key part2_size base =
    if not (leb (length key) part2_size) then some (capacity r) else do
      second ← scan fuel (λ i. linear_matches r.buffer i key) (sub_size part2_size (length key)) 0
      hit second base (some (capacity r))

unfoldable pub find_key : ℕ → RingBuffer → Bytes → ℕ → Option ℕ
find_key fuel r key start_offset =
    if length key == 0
      || (ltb (available_to_read r) (length key) || leb (available_to_read r) start_offset)
    then some (capacity r)
    else do
      let rest = sub_size (available_to_read r) start_offset
      abs_start ← mod_size (add_size r.read_index start_offset) (capacity r)
      let part1_size = min (sub_size (capacity r) abs_start) rest
      first ←
          scan fuel (λ i. matches_at r.buffer (add_size abs_start i) key)
            (sub_size part1_size (length key)) 0
      hit first start_offset
          (find_second fuel r key (sub_size rest part1_size) (add_size start_offset part1_size))
