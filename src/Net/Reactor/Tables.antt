-- ===== src/Net/Reactor/Tables.antt =====
-- The tables of the reactor: `std::unordered_map` from descriptors, `std::unordered_set` of them.
use nebula_toolkit.Prelude.{
  ℕ, ◌≡◌, refl, Bool, true, false, ◌||◌, Option, none, some, List, [], ◌∷◌, arith, ◌==◌,
  if◌then◌else◌, Bool-cases, inl, inr,
}

module _ {A : Type 0} where
  abbrev pub find : ℕ → List (ℕ × A) → Option A
  find fd [] = none
  find fd ((i, a) ∷ t) = if i == fd then some a else find fd t

  -- `table[fd] = a`
  unfoldable pub store : ℕ → A → List (ℕ × A) → List (ℕ × A)
  store fd a [] = (fd, a) ∷ []
  store fd a ((i, b) ∷ t) =
      let rest = store fd a t in if i == fd then (fd, a) ∷ t else (i, b) ∷ rest

  unfoldable pub erase : ℕ → List (ℕ × A) → List (ℕ × A)
  erase fd [] = []
  erase fd ((i, b) ∷ t) = let rest = erase fd t in if i == fd then rest else (i, b) ∷ rest

  pub find-store :
      (fd j : ℕ) (a : A) (t : List (ℕ × A))
      → find j (store fd a t) ≡ (if j == fd then some a else find j t)
  unfolding store
  find-store fd j a [] = ground arith
  find-store fd j a ((i, b) ∷ t) = ground (arith, find-store fd j a t)

  pub find-erase :
      (fd j : ℕ) (t : List (ℕ × A)) → find j (erase fd t) ≡ (if j == fd then none else find j t)
  unfolding erase
  find-erase fd j [] = ground arith
  find-erase fd j ((i, b) ∷ t) = ground (arith, find-erase fd j t)

abbrev pub contains : ℕ → List ℕ → Bool
contains fd [] = false
contains fd (i ∷ s) = i == fd || contains fd s

abbrev pub insert : ℕ → List ℕ → List ℕ
insert fd s = if contains fd s then s else fd ∷ s

unfoldable pub erase_all : ℕ → List ℕ → List ℕ
erase_all fd [] = []
erase_all fd (i ∷ s) = let rest = erase_all fd s in if i == fd then rest else i ∷ rest

pub contains-insert :
    (fd j : ℕ) (s : List ℕ) → contains j (insert fd s) ≡ (if fd == j then true else contains j s)
contains-insert fd j s = elim (Bool-cases (contains fd s)) [
  | inl already ↦ elim (Bool-cases (fd == j)) [
    | inl same ↦ let e : fd ≡ j = ground (arith, same) in rw (already, same) (rw e at already)
    | inr other ↦ rw (already, other) refl
  ]
  | inr fresh ↦ rw fresh (ground arith)
]

pub contains-erase_all :
    (fd j : ℕ) (s : List ℕ)
    → contains j (erase_all fd s) ≡ (if j == fd then false else contains j s)
unfolding erase_all
contains-erase_all fd j [] = ground arith
contains-erase_all fd j (i ∷ s) = ground (arith, contains-erase_all fd j s)
