-- ===== src/ByteStream/Tests.antt =====
-- Runs of a stream, and the theorem about it at a concrete stream.
use nebula_toolkit.ByteStream.RoundTrip.{get_all-put_all}
use nebula_toolkit.ByteStream.{put_all, get_all, put_vector, get_vector}
use nebula_toolkit.Prelude.{◌≡◌, refl, some, List, [], ◌∷◌, Bytes, arith, ◌>>=◌, memcpy}
use nebula_toolkit.RingBuffer.Contents.{IsValid, Holds}
use nebula_toolkit.RingBuffer.{RingBuffer, Vector, write_vector, read_vector}

-- an empty stream of six bytes, at its fourth
abbrev stream : RingBuffer
stream = record { read_index = 4; write_index = 4; len = 0; buffer = 0 ∷ 0 ∷ 0 ∷ 0 ∷ 0 ∷ 0 ∷ [] }

stream-IsValid : IsValid stream
stream-IsValid = omega arith

-- a number of two bytes and a string
abbrev values : List Bytes
values = (1 ∷ 2 ∷ []) ∷ (b'a' ∷ b'b' ∷ b'c' ∷ []) ∷ []

abbrev variables : List Bytes
variables = (0 ∷ 0 ∷ []) ∷ (0 ∷ 0 ∷ 0 ∷ []) ∷ []

get_all-put_all_example :
    (r' : RingBuffer) × ((do s ← put_all stream values; get_all s variables) ≡ some (values, r'))
    × Holds stream r' []
get_all-put_all_example =
    get_all-put_all values variables stream-IsValid refl (omega arith) (refl, (refl, tt))

-- two elements of two bytes, where the end of the buffer is reached between them
abbrev pairs : Vector
pairs = record { elem_size = 2; count = 2; bytes = 1 ∷ 0 ∷ 2 ∷ 0 ∷ [] }

abbrev room_behind : RingBuffer
room_behind = record stream { read_index = 0; write_index = 0 }

get_vector-put_vector :
    (do
      s ← put_vector room_behind pairs
      (v, r') ← get_vector s (record pairs { bytes = 0 ∷ 0 ∷ 0 ∷ 0 ∷ [] })
      some v)
    ≡ some pairs
unfolding put_vector get_vector write_vector read_vector memcpy
get_vector-put_vector = refl
