-- ===== src/ByteQueue.antt =====
-- What a ring buffer promises its callers: a bounded queue of bytes, oldest first.
use nebula_toolkit.Prelude.{
  ℕ, ◌+◌, ◌-◌, ◌^◌, List, [], ◌∷◌, ◌++◌, Bytes, length, take, drop, replicate, ltb, ◌==◌,
  if◌then◌else◌,
}

-- A caller's request: to write bytes, to read or to peek at a number of bytes, or to clear.
pub data Op : Type 0 where
  put : Bytes → Op
  get : ℕ → Op
  look : ℕ → Op
  reset : Op

-- the return value, and the bytes in the caller's block afterwards
abbrev pub Reply : Type 0
Reply = ℕ × Bytes

abbrev refused_empty : ℕ
refused_empty = 2 ^ 64 - 2

abbrev refused_full : ℕ
refused_full = 2 ^ 64 - 1

module _ (cap : ℕ) where
  unfoldable pub step : Bytes → Op → Reply × Bytes
  step q (put bs) =
      if length bs == 0
      then ((refused_empty, []), q)
      else if ltb cap (length q + length bs)
      then ((refused_full, []), q)
      else ((length bs, []), q ++ bs)
  step q (get n) =
      if n == 0
      then ((refused_empty, []), q)
      else if ltb (length q) n
      then ((refused_full, replicate n 0), q)
      else ((n, take n q), drop n q)
  step q (look n) =
      if n == 0
      then ((0, []), q)
      else if ltb (length q) n
      then ((2 ^ 64 - 1, []), q)
      else ((n, take n q), q)
  step q reset = ((1, []), [])

  unfoldable pub run : Bytes → List Op → List Reply
  unfolding step
  run q [] = []
  run q (o ∷ ops) = let (reply, q') = step q o in reply ∷ run q' ops
