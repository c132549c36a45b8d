-- ===== src/RingBuffer/Tests.antt =====
-- Runs of the ring buffer, and the theorems about it at concrete buffers.
use nebula_toolkit.ByteQueue
use nebula_toolkit.ByteQueue.{Op, put, get, look, reset}
use nebula_toolkit.Prelude.{
  ◌+◌, ◌-◌, ◌^◌, ◌≤◌, ◌≡◌, refl, inr, none, some, List, [], ◌∷◌, arith, Bytes, memcpy, ◌>>=◌,
}
use nebula_toolkit.RingBuffer.Contents.{IsValid, contents, Holds}
use nebula_toolkit.RingBuffer.Linear.{linear_write_space_bounds, commit_write-Holds}
use nebula_toolkit.RingBuffer.Resizing.{resize-keeps}
use nebula_toolkit.RingBuffer.Refine.{run, run_refines}
use nebula_toolkit.RingBuffer.Vectors.{IsVector, write_vector_wraps, read_vector-read}
use nebula_toolkit.RingBuffer.Writing.{write-Holds}
use nebula_toolkit.RingBuffer.{
  RingBuffer, resize, Vector, success, create, read, write, write_vector, read_vector,
  get_linear_write_space, commit_write_size,
}

-- 5, 6, 7 and 8, round the end of six bytes
abbrev wrapped : RingBuffer
wrapped = record { read_index = 4; write_index = 2; len = 4; buffer = 7 ∷ 8 ∷ 0 ∷ 0 ∷ 5 ∷ 6 ∷ [] }

wrapped-IsValid : IsValid wrapped
wrapped-IsValid = omega arith

contents-wrapped : contents wrapped ≡ 5 ∷ 6 ∷ 7 ∷ 8 ∷ []
contents-wrapped = refl

create_empty : contents (create 4) ≡ []
unfolding create
create_empty = refl

-- `ring_buffer_test.cpp`: a buffer of one byte, filled twice, then read
run_small :
    run (create 1) (put (9 ∷ []) ∷ put (9 ∷ []) ∷ get 2 ∷ get 1 ∷ get 1 ∷ [])
    ≡ some (
        (1, [])
        ∷ (2 ^ 64 - 1, [])
        ∷ (2 ^ 64 - 1, 0 ∷ 0 ∷ [])
        ∷ (1, 9 ∷ [])
        ∷ (2 ^ 64 - 1, 0 ∷ [])
        ∷ [])
unfolding run create write read memcpy
run_small = refl

abbrev script : List Op
script = look 3 ∷ put (1 ∷ 2 ∷ []) ∷ put (3 ∷ []) ∷ get 5 ∷ reset ∷ get 1 ∷ []

run_refines_example : run wrapped script ≡ some (ByteQueue.run 6 (5 ∷ 6 ∷ 7 ∷ 8 ∷ []) script)
run_refines_example = run_refines script wrapped-IsValid

write-Holds_example :
    (r' : RingBuffer) × (write wrapped (1 ∷ 2 ∷ 3 ∷ []) 2 ≡ some (2, r'))
    × Holds wrapped r' (5 ∷ 6 ∷ 7 ∷ 8 ∷ 1 ∷ 2 ∷ [])
write-Holds_example =
    write-Holds (1 ∷ 2 ∷ 3 ∷ []) 2 wrapped-IsValid (omega arith) (omega arith) (omega arith)

linear_write_space_bounds_example :
    let (at, room) = get_linear_write_space wrapped in
    (at ≡ 2) × (at + room ≤ 6) × (4 + room ≤ 6) × (1 ≤ room)
linear_write_space_bounds_example = linear_write_space_bounds wrapped-IsValid

commit_write-Holds_example :
    (b : Bytes) × (r' : RingBuffer) × (memcpy wrapped.buffer 2 (3 ∷ 4 ∷ []) 0 2 ≡ some b)
    × (commit_write_size (record wrapped { buffer = b }) 2 ≡ some (success, r'))
    × Holds wrapped r' (5 ∷ 6 ∷ 7 ∷ 8 ∷ 3 ∷ 4 ∷ [])
unfolding get_linear_write_space
commit_write-Holds_example = commit_write-Holds (3 ∷ 4 ∷ []) wrapped-IsValid (omega arith)

-- the last two bytes of the block are free, and it grows by two
abbrev in_front : RingBuffer
in_front = record { read_index = 1; write_index = 3; len = 2; buffer = 0 ∷ 5 ∷ 6 ∷ 0 ∷ 0 ∷ [] }

in_front-IsValid : IsValid in_front
in_front-IsValid = omega arith

resize-keeps_example :
    ((resize in_front 7).0 ≡ 7)
    × IsValid (resize in_front 7).1
    × (contents (resize in_front 7).1 ≡ 5 ∷ 6 ∷ [])
resize-keeps_example =
    resize-keeps in_front 7 in_front-IsValid (omega arith) (omega arith) (omega arith)

-- two elements of two bytes
abbrev pairs : Vector
pairs = record { elem_size = 2; count = 2; bytes = 1 ∷ 0 ∷ 2 ∷ 0 ∷ [] }

pairs-IsVector : IsVector pairs
pairs-IsVector = omega arith

-- one byte held, the next goes to the last index
abbrev near_end : RingBuffer
near_end = record wrapped { write_index = 5; len = 1 }

write_vector_wraps_example : write_vector near_end pairs ≡ none
write_vector_wraps_example =
    write_vector_wraps pairs (omega arith) pairs-IsVector (omega arith) (omega arith) (omega arith)

read_vector-read_example :
    read_vector wrapped pairs 4
    ≡ (do (code, d, r') ← read wrapped pairs.bytes 4; some (code, record pairs { bytes = d }, r'))
read_vector-read_example =
    read_vector-read wrapped pairs 4 wrapped-IsValid pairs-IsVector refl (omega arith) (inr refl)
