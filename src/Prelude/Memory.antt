-- ===== src/Prelude/Memory.antt =====
-- `memcpy` between blocks of bytes. A block is the list of its bytes; `none` is an access outside
-- of a block, which is undefined behaviour.
use Prim.Native.Nat.{ℕ, ◌+◌, ◌-◌, ◌≤◌, ◌<◌}
use mathlib.Core.Path.{◌≡◌}
use mathlib.Core.Bool.{◌&&◌}
use mathlib.Core.Option.{Option, none, some}
use mathlib.Core.List.{List, ◌++◌}
use native.Mathlib.Omega.{arith}
use nebula_toolkit.Prelude.Lists.{
  length, get_or, take, drop, length-append, length-take, length-drop, get_or-append, get_or-take,
  get_or-drop,
}
use nebula_toolkit.Prelude.Tests.{ltb, leb, if◌then◌else◌}

abbrev pub Bytes : Type 0
Bytes = List ℕ

-- `dst` with `n` bytes at `at` replaced by the bytes of `src` from `from` on
pub splice : Bytes → ℕ → Bytes → ℕ → ℕ → Bytes
splice dst at src from n = take at dst ++ (take n (drop from src) ++ drop (at + n) dst)

-- memcpy(dst + at, src + from, n)
unfoldable pub memcpy : Bytes → ℕ → Bytes → ℕ → ℕ → Option Bytes
unfolding splice
memcpy dst at src from n =
    if leb (at + n) (length dst) && leb (from + n) (length src)
    then some (splice dst at src from n)
    else none

module _ (dst : Bytes) (at : ℕ) (src : Bytes) (from n : ℕ) where
  pub memcpy_lem :
      at + n ≤ length dst
      → from + n ≤ length src
      → memcpy dst at src from n ≡ some (splice dst at src from n)
  unfolding memcpy
  memcpy_lem p q = ground arith

  pub memcpy_outside : length src < from + n → memcpy dst at src from n ≡ none
  unfolding memcpy
  memcpy_outside p = ground arith

  pub length-splice :
      at + n ≤ length dst → from + n ≤ length src → length (splice dst at src from n) ≡ length dst
  unfolding splice
  length-splice p q = omega (
    arith,
    length-append (take at dst) (take n (drop from src) ++ drop (at + n) dst),
    length-append (take n (drop from src)) (drop (at + n) dst),
    length-take at dst,
    length-take n (drop from src),
    length-drop from src,
    length-drop (at + n) dst,
  )

  -- the byte at each index of the result
  pub get_or-splice :
      (i : ℕ)
      → at + n ≤ length dst
      → from + n ≤ length src
      → get_or (splice dst at src from n) i 0
        ≡ (if leb at i && ltb i (at + n) then get_or src (from + (i - at)) 0 else get_or dst i 0)
  unfolding splice
  get_or-splice i p q = ground (
    arith,
    get_or-append (take at dst) (take n (drop from src) ++ drop (at + n) dst) i 0,
    get_or-append (take n (drop from src)) (drop (at + n) dst) (i - at) 0,
    get_or-take at dst i 0,
    get_or-take n (drop from src) (i - at) 0,
    get_or-drop from src (i - at) 0,
    get_or-drop (at + n) dst (i - at - n) 0,
    length-take at dst,
    length-take n (drop from src),
    length-drop from src,
  )
