-- ===== src/Prelude/Size.antt =====
-- size_t: 64-bit unsigned arithmetic, with its wrap-around written out.
use Prim.Native.Nat.{ℕ, ◌+◌, ◌-◌, ◌%◌, ◌^◌, ◌<◌}
use mathlib.Core.Path.{◌≡◌}
use mathlib.Core.Option.{Option, none, some}
use native.Mathlib.Omega.{arith}
use native.Mathlib.Nat.{mod-eq_of_lt, mod-eq-sub-mod}
use native.Mathlib.Decide.{dec_lt}
use nebula_toolkit.Prelude.Tests.{ltb, ◌==◌, if◌then◌else◌}

abbrev pub size_mod : ℕ
size_mod = 2 ^ 64

abbrev pub add_size : ℕ → ℕ → ℕ
add_size a b = (a + b) % 2 ^ 64

abbrev pub sub_size : ℕ → ℕ → ℕ
sub_size a b = (a + 2 ^ 64 - b) % 2 ^ 64

-- `a % b`, undefined at `b = 0`
abbrev pub mod_size : ℕ → ℕ → Option ℕ
mod_size a b = if b == 0 then none else some (a % b)

-- A remainder below twice the modulus, without `%`.
pub mod-below_double : (a c : ℕ) → a < c + c → a % c ≡ (if ltb a c then a else a - c)
mod-below_double a c h = elim (dec_lt a c) [
  | yes p ↦ ground (arith, mod-eq_of_lt {n = a} {m = c} p)
  | no p ↦ ground (
    arith,
    mod-eq-sub-mod {n = a} {m = c} (omega arith),
    mod-eq_of_lt {n = a - c} {m = c} (omega arith),
  )
]
