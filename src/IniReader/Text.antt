-- ===== src/IniReader/Text.antt =====
-- The text functions: those of the reader, and those of the standard library that it calls.
use Prim.Native.Char.{code}
use Prim.Native.String.{String}
use nebula_toolkit.Prelude.{
  ℕ, suc, ◌+◌, ◌-◌, ◌*◌, ◌%◌, ◌^◌, Bool, true, false, ◌&&◌, ◌||◌, Option, none, some, List, [], ◌∷◌,
  Bytes, take, drop, leb, ◌==◌, if◌then◌else◌,
}

-- the bytes of a literal
abbrev pub codes : String → Bytes
codes String.[] = []
codes (String.◌∷◌ c s) = code c ∷ codes s

abbrev pub is_blank : ℕ → Bool
is_blank c = c == b' ' || c == b'\t'

-- one place further on
abbrev pub next : Option ℕ → Option ℕ
next none = none
next (some i) = some (suc i)

-- `s.find_first_not_of(" \t")`
unfoldable pub find_first_not_of : Bytes → Option ℕ
find_first_not_of [] = none
find_first_not_of (c ∷ s) = if is_blank c then next (find_first_not_of s) else some 0

abbrev pub last_of : Bool → Option ℕ → Option ℕ
last_of blank (some i) = some (suc i)
last_of true none = none
last_of false none = some 0

-- `s.find_last_not_of(" \t")`
unfoldable pub find_last_not_of : Bytes → Option ℕ
find_last_not_of [] = none
find_last_not_of (c ∷ s) = last_of (is_blank c) (find_last_not_of s)

-- `s.substr(start, end - start + 1)`, or "" if there is no start
abbrev pub between : Bytes → Option ℕ → Option ℕ → Bytes
between s none last = []
between s (some start) none = drop start s
between s (some start) (some last) = take (last + 1 - start) (drop start s)

unfoldable pub trim : Bytes → Bytes
unfolding find_first_not_of find_last_not_of
trim s = between s (find_first_not_of s) (find_last_not_of s)

-- `s.find(c)`
unfoldable pub find : ℕ → Bytes → Option ℕ
find c [] = none
find c (x ∷ s) = if x == c then some 0 else next (find c s)

unfoldable pub bytes_eq : Bytes → Bytes → Bool
bytes_eq [] [] = true
bytes_eq [] (y ∷ b) = false
bytes_eq (x ∷ a) [] = false
bytes_eq (x ∷ a) (y ∷ b) = if x == y then bytes_eq a b else false

abbrev pub in_range : ℕ → ℕ → ℕ → Bool
in_range lo hi c = leb lo c && leb c hi

unfoldable pub to_lower : Bytes → Bytes
to_lower [] = []
to_lower (c ∷ s) = (if in_range b'A' b'Z' c then c + 32 else c) ∷ to_lower s

abbrev pub grow : ℕ → List Bytes → List Bytes
grow c [] = (c ∷ []) ∷ []
grow c (l ∷ ls) = (c ∷ l) ∷ ls

-- the lines that `std::getline` returns one after the other
unfoldable pub lines : Bytes → List Bytes
lines [] = []
lines (c ∷ s) = if c == b'\n' then [] ∷ lines s else grow c (lines s)

abbrev pub is_space : ℕ → Bool
is_space c = c == b' ' || in_range 9 13 c

unfoldable pub skip_space : Bytes → Bytes
skip_space [] = []
skip_space (c ∷ s) = if is_space c then skip_space s else c ∷ s

-- the value of the digits at the front, `acc` being that of those read
unfoldable pub digits_value : ℕ → Bytes → ℕ
digits_value acc [] = acc
digits_value acc (c ∷ s) =
    if in_range b'0' b'9' c then digits_value (acc * 10 + (c - b'0')) s else acc

abbrev pub starts_digit : Bytes → Bool
starts_digit [] = false
starts_digit (c ∷ s) = in_range b'0' b'9' c

-- digits behind an optional sign: `none` is an exception
abbrev pub magnitude : Bool → Bytes → Option ℕ
magnitude negative s =
    let n = digits_value 0 s in
    if starts_digit s
    then (if leb (2 ^ 64) n then none else some (if negative then (2 ^ 64 - n) % 2 ^ 64 else n))
    else none

abbrev pub signed : Bytes → Option ℕ
signed [] = none
signed (c ∷ s) =
    if c == b'-'
    then magnitude true s
    else if c == b'+'
    then magnitude false s
    else magnitude false (c ∷ s)

-- `std::stoul(s)`: what stands behind the digits is not read
unfoldable pub stoul : Bytes → Option ℕ
unfolding skip_space digits_value
stoul s = signed (skip_space s)
