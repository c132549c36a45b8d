-- ===== src/IniReader/Trimming.antt =====
-- What `Trim` cuts off, and what it leaves.
use nebula_toolkit.IniReader.Text.{
  is_blank, next, last_of, between, find_first_not_of, find_last_not_of, trim,
}
use nebula_toolkit.Prelude.{
  ℕ, suc, ◌+◌, ◌-◌, ◌≡◌, ◌∙◌, refl, ap, Bool, true, false, not, Option, none, some, [], ◌∷◌, ◌++◌,
  Bytes, length, take, take_all, arith, inl, inr, Bool-cases,
}

abbrev pub AllBlank : Bytes → Type 0
AllBlank [] = Unit {0}
AllBlank (c ∷ s) = (is_blank c ≡ true) × AllBlank s

-- the last byte is there, and is no blank
abbrev pub solid_end : Bytes → Bool
solid_end [] = false
solid_end (c ∷ []) = not (is_blank c)
solid_end (c ∷ d ∷ s) = solid_end (d ∷ s)

-- empty, or with no blank at either end
abbrev pub IsTrimmed : Bytes → Type 0
IsTrimmed [] = Unit {0}
IsTrimmed (c ∷ s) = (is_blank c ≡ false) × (solid_end (c ∷ s) ≡ true)

abbrev until : Bytes → Option ℕ → Bytes
until s none = []
until s (some l) = take (l + 1) s

-- the text up to its last byte that is no blank
cut : Bytes → Bytes
cut s = until s (find_last_not_of s)

until-next : (c : ℕ) (s : Bytes) (l : ℕ) → until (c ∷ s) (some (suc l)) ≡ c ∷ until s (some l)
until-next c s l = let e : suc l + 1 ≡ suc (l + 1) = omega arith in rw e

between_blank :
    (c : ℕ) (s : Bytes) (first last : Option ℕ)
    → between (c ∷ s) (next first) (last_of true last) ≡ between s first last
between_blank c s none last = refl
between_blank c s (some i) none = refl
between_blank c s (some i) (some l) = let e : suc l + 1 - suc i ≡ l + 1 - i = omega arith in rw e

between_solid :
    (c : ℕ) (s : Bytes) (last : Option ℕ)
    → between (c ∷ s) (some 0) (last_of false last) ≡ c ∷ until s last
between_solid c s none = refl
between_solid c s (some l) = let e : suc l + 1 - 0 ≡ suc (l + 1) = omega arith in rw e

trim_blank : (c : ℕ) (s : Bytes) → is_blank c ≡ true → trim (c ∷ s) ≡ trim s
unfolding trim find_first_not_of find_last_not_of
trim_blank c s b = rw b (between_blank c s (find_first_not_of s) (find_last_not_of s))

trim_solid : (c : ℕ) (s : Bytes) → is_blank c ≡ false → trim (c ∷ s) ≡ c ∷ cut s
unfolding trim find_first_not_of find_last_not_of cut
trim_solid c s b = rw b (between_solid c s (find_last_not_of s))

solid_end-cons : (c : ℕ) (t : Bytes) → solid_end t ≡ true → solid_end (c ∷ t) ≡ true
solid_end-cons c [] h = cc
solid_end-cons c (d ∷ t) h = h

abbrev Ends : Bytes → Option ℕ → Type 0
Ends s none = Unit {0}
Ends s (some l) = solid_end (until s (some l)) ≡ true

-- What is cut off behind `last` is blank, and the byte at `last` is not.
record Cuts (s : Bytes) (last : Option ℕ) : Type 0 where
  post : Bytes
  splits : s ≡ until s last ++ post
  blank : AllBlank post
  ends : Ends s last

Cuts-cons :
    (c : ℕ) (s : Bytes) (b : Bool) (last : Option ℕ)
    → is_blank c ≡ b
    → Cuts s last
    → Cuts (c ∷ s) (last_of b last)
Cuts-cons c s true none e h = record {
  post = c ∷ h.post;
  splits = ap (λ t. c ∷ t) h.splits;
  blank = (e, h.blank);
  ends = tt;
}
Cuts-cons c s false none e h = record {
  post = h.post;
  splits = ap (λ t. c ∷ t) h.splits;
  blank = h.blank;
  ends = ap not e;
}
Cuts-cons c s b (some l) e h =
    let step = until-next c s l in
    record {
      post = h.post;
      splits = rw step (ap (λ t. c ∷ t) h.splits);
      blank = h.blank;
      ends = rw step (solid_end-cons c (until s (some l)) h.ends);
    }

cut-Cuts : (s : Bytes) → Cuts s (find_last_not_of s)
unfolding find_last_not_of
cut-Cuts [] = record { post = []; splits = refl; blank = tt; ends = tt }
cut-Cuts (c ∷ s) = Cuts-cons c s (is_blank c) (find_last_not_of s) refl (cut-Cuts s)

solid_end-cut : (c : ℕ) (s : Bytes) → is_blank c ≡ false → solid_end (c ∷ cut s) ≡ true
unfolding cut
solid_end-cut c s b = go (find_last_not_of s) (cut-Cuts s).ends
  where
    go : (last : Option ℕ) → Ends s last → solid_end (c ∷ until s last) ≡ true
    go none h = ap not b
    go (some l) h = solid_end-cons c (until s (some l)) h

-- A text is blanks, its trimmed text, and blanks; and this begins and ends with no blank.
pub record Trims (s t : Bytes) : Type 0 where
  pub pre : Bytes
  pub post : Bytes
  pub splits : s ≡ pre ++ (t ++ post)
  pub pre_blank : AllBlank pre
  pub post_blank : AllBlank post
  pub trimmed : IsTrimmed t

-- `Trim` takes blanks and tabs off both ends and nothing else: any text is blanks, the result and
-- blanks, and the result is empty or has no blank at either end.
pub trim-Trims : (s : Bytes) → Trims s (trim s)
trim-Trims [] = record {
  pre = [];
  post = [];
  splits = unfold trim find_first_not_of in refl;
  pre_blank = tt;
  post_blank = tt;
  trimmed = unfold trim find_first_not_of in tt;
}
trim-Trims (c ∷ s) = elim (Bool-cases (is_blank c)) [
  | inl b ↦
      let h = trim-Trims s in
      rw (trim_blank c s b) (record {
        pre = c ∷ h.pre;
        post = h.post;
        splits = ap (λ t. c ∷ t) h.splits;
        pre_blank = (b, h.pre_blank);
        post_blank = h.post_blank;
        trimmed = h.trimmed;
      })
  | inr b ↦
      let h = cut-Cuts s in
      rw (trim_solid c s b) (record {
        pre = [];
        post = h.post;
        splits = unfold cut in ap (λ t. c ∷ t) h.splits;
        pre_blank = tt;
        post_blank = h.blank;
        trimmed = (b, solid_end-cut c s b);
      })
]

last_of_solid :
    (c : ℕ) (s : Bytes) → solid_end (c ∷ s) ≡ true → find_last_not_of (c ∷ s) ≡ some (length s)
unfolding find_last_not_of
last_of_solid c [] h = ground arith
last_of_solid c (d ∷ s) h = rw (last_of_solid d s h)

cut_of_solid : (s : Bytes) → solid_end s ≡ true → cut s ≡ s
unfolding cut
cut_of_solid [] h = cc
cut_of_solid (c ∷ s) h =
    let e : length s + 1 ≡ suc (length s) = omega arith in
    rw (last_of_solid c s h, e) (take_all (c ∷ s))

-- Trimmed text is left as it is.
pub trim_of_IsTrimmed : (s : Bytes) → IsTrimmed s → trim s ≡ s
trim_of_IsTrimmed [] h = unfold trim find_first_not_of in refl
trim_of_IsTrimmed (c ∷ s) h = trim_solid c s h.0 ∙ ap (λ t. c ∷ t) (cut_of_tail s h.1)
  where
    cut_of_tail : (t : Bytes) → solid_end (c ∷ t) ≡ true → cut t ≡ t
    cut_of_tail [] p = unfold cut find_last_not_of in refl
    cut_of_tail (d ∷ t) p = cut_of_solid (d ∷ t) p
