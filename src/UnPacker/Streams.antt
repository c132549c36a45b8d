-- ===== src/UnPacker/Streams.antt =====
-- Searches for a key inside one part of a longer sequence of bytes.
use nebula_toolkit.Prelude.{
  ℕ, zero, suc, ◌+◌, ◌-◌, ◌≤◌, ◌<◌, ◌≡◌, ◌∙◌, refl, sym, ap, true, Bool, Bool-cases, inl, inr, some,
  [], ◌∷◌, ◌++◌, Bytes, length, take, drop, get_or, arith, length-append, get_or-append,
}
use nebula_toolkit.UnPacker.Contiguous.{first_place}
use nebula_toolkit.UnPacker.Search.{occurs, first_at, first_at-shift, shift}

pub first_at-here : (n : ℕ) (t : ℕ → Bool) (i : ℕ) → 0 < n → t i ≡ true → first_at n t i ≡ some i
first_at-here zero t i pos here = absurd (omega arith)
first_at-here (suc n) t i pos here = rw here refl

-- A longer search finds what a shorter one does.
first_at-longer :
    (n m : ℕ) (t : ℕ → Bool) (i k : ℕ) → n ≤ m → first_at n t i ≡ some k → first_at m t i ≡ some k
first_at-longer zero m t i k p e = cc
first_at-longer (suc n) zero t i k p e = absurd (omega arith)
first_at-longer (suc n) (suc m) t i k p e = elim (Bool-cases (t i)) [
  | inl here ↦ ground (arith, here)
  | inr on ↦ ground (arith, on, first_at-longer n m t (i + 1) k)
]

get_or-inside :
    (a p b : Bytes) (i : ℕ) → i < length p → get_or (a ++ (p ++ b)) (length a + i) 0 ≡ get_or p i 0
get_or-inside a p b i inside =
    ground (arith, get_or-append a (p ++ b) (length a + i) 0, get_or-append p b i 0)

-- What stands in `p` stands in a sequence around `p`.
occurs-inside :
    (a p b key : Bytes) (i j : ℕ)
    → length a + i ≡ j
    → i + length key ≤ length p
    → occurs (a ++ (p ++ b)) j key ≡ occurs p i key
occurs-inside a p b [] i j e inside = refl
occurs-inside a p b (k ∷ key) i j e inside =
    ground (arith, get_or-inside a p b i, occurs-inside a p b key (i + 1) (j + 1))

-- the first place of a key in `p` behind `i`
pub first_place-inside :
    (a p b key : Bytes) (i k : ℕ)
    → i + length key ≤ length p
    → first_place p key i ≡ some k
    → first_place (a ++ (p ++ b)) key (length a + i) ≡ some (length a + k)
first_place-inside a p b key i k room e =
    let n = length p + 1 - length key - i in
    let moved =
      first_at-shift n (λ x. occurs p x key) (λ x. occurs (a ++ (p ++ b)) x key) i (length a)
        (length a + i) refl
        (λ x q below. sym (occurs-inside a p b key x (length a + x) refl (omega arith))) in
    let found : first_at n (λ x. occurs (a ++ (p ++ b)) x key) (length a + i)
        ≡ some (length a + k) =
      moved ∙ ap (shift (length a)) e in
    let l = length-append a (p ++ b) in
    let l' = length-append p b in
    first_at-longer n (length (a ++ (p ++ b)) + 1 - length key - (length a + i))
      (λ x. occurs (a ++ (p ++ b)) x key) (length a + i) (length a + k) (omega arith) found

pub take-inside : (a p b : Bytes) → take (length p) (drop (length a) (a ++ (p ++ b))) ≡ p
take-inside [] [] b = refl
take-inside [] (x ∷ p) b = ap (λ q. x ∷ q) (take-inside [] p b)
take-inside (x ∷ a) p b = take-inside a p b

-- What is dropped from a longer first part.
pub drop-front : (n : ℕ) (xs ys : Bytes) → n ≤ length xs → drop n (xs ++ ys) ≡ drop n xs ++ ys
drop-front zero xs ys p = refl
drop-front (suc n) [] ys p = absurd (omega arith)
drop-front (suc n) (x ∷ xs) ys p = drop-front n xs ys (omega arith)
