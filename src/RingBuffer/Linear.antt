-- ===== src/RingBuffer/Linear.antt =====
-- The zero-copy interface: `GetLinearWriteSpace`, `CommitWriteSize`, `GetLinearReadSpace` and
-- `CommitReadSize`.
use nebula_toolkit.Prelude.{
  ℕ, ◌+◌, ◌-◌, ◌≤◌, ◌<◌, ◌≡◌, ◌++◌, some, arith, Bytes, length, take, drop, take_all,
  mod-below_double, min, memcpy, list_ext, length-take, length-drop, get_or-take, get_or-drop,
}
use nebula_toolkit.RingBuffer.Contents.{IsValid, contents, length-contents, get_or-contents, Holds}
use nebula_toolkit.RingBuffer.Transfer.{ring-CopiesIn}
use nebula_toolkit.RingBuffer.Writing.{advanced, advanced-Holds, write_in}
use nebula_toolkit.RingBuffer.Reading.{consumed, consumed-Holds}
use nebula_toolkit.RingBuffer.{
  RingBuffer, capacity, get_linear_write_space, get_linear_read_space, commit_write_size,
  commit_read_size, success, error_invalid_size,
}

-- The offered space starts at the write position, lies inside the buffer, is no longer than what is
-- free, and has at least a byte if one is free.
pub linear_write_space_bounds :
    {r : RingBuffer}
    → IsValid r
    → let (at, room) = get_linear_write_space r in
      (at ≡ r.write_index)
      × (at + room ≤ capacity r)
      × (r.len + room ≤ capacity r)
      × (min 1 (capacity r - r.len) ≤ room)
unfolding get_linear_write_space
linear_write_space_bounds v = ground (arith, write_in v)

commit_runs :
    {r : RingBuffer} (b : Bytes) (n : ℕ)
    → IsValid r
    → length b ≡ capacity r
    → n ≤ capacity r - r.len
    → commit_write_size (record r { buffer = b }) n ≡ some (success, advanced r b n)
unfolding commit_write_size
commit_runs {r} b n v e p = ground (arith, write_in v)

-- What a producer puts at the start of the offered space and commits is then behind the bytes held
-- before, and the invariant and the capacity are kept.
pub commit_write-Holds :
    {r : RingBuffer} (bs : Bytes)
    → IsValid r
    → length bs ≤ (get_linear_write_space r).1
    → let (at, room) = get_linear_write_space r in
      (b : Bytes) × (r' : RingBuffer) × (memcpy r.buffer at bs 0 (length bs) ≡ some b)
      × (commit_write_size (record r { buffer = b }) (length bs) ≡ some (success, r'))
      × Holds r r' (contents r ++ bs)
unfolding get_linear_write_space
commit_write-Holds {r} bs v p =
    let n = length bs in
    let c = ring-CopiesIn r.buffer r.write_index bs n (write_in v) (omega arith) (omega arith) in
    let whole : min n (capacity r - r.write_index) ≡ n = omega arith in
    (
      c.both,
      advanced r c.both n,
      ground (arith, c.first_eq, c.both_eq, whole),
      commit_runs c.both n v c.length_eq (omega arith),
      rw (take_all bs) at (advanced-Holds bs n v c (omega arith) (omega arith)),
    )

-- `CommitReadSize` of bytes that are there drops just these, in front, and keeps the invariant and
-- the capacity.
pub commit_read-Holds :
    {r : RingBuffer} (n : ℕ)
    → IsValid r
    → n ≤ r.len
    → (commit_read_size r n ≡ some (success, consumed r n))
      × Holds r (consumed r n) (drop n (contents r))
commit_read-Holds n v p = (unfold commit_read_size in ground arith, consumed-Holds n v p)

-- More bytes than are there are refused, and nothing changes.
pub commit_read_refused :
    (r : RingBuffer) (n : ℕ) → r.len < n → commit_read_size r n ≡ some (error_invalid_size, r)
unfolding commit_read_size
commit_read_refused r n h = ground arith

-- `k` bytes from the read position on, where these do not wrap
linear_bytes :
    (r : RingBuffer) (k : ℕ)
    → IsValid r
    → r.read_index + k ≤ capacity r
    → k ≤ r.len
    → take k (drop r.read_index r.buffer) ≡ take k (contents r)
linear_bytes r k v p q =
    list_ext 0 (take k (drop r.read_index r.buffer)) (take k (contents r))
      (omega (
        arith,
        length-take k (drop r.read_index r.buffer),
        length-drop r.read_index r.buffer,
        length-take k (contents r),
        length-contents r,
      ))
      λ i h. ground (
        arith,
        length-take k (drop r.read_index r.buffer),
        get_or-take k (drop r.read_index r.buffer) i 0,
        get_or-drop r.read_index r.buffer i 0,
        get_or-take k (contents r) i 0,
        get_or-contents r i,
        mod-below_double (r.read_index + i) (capacity r),
      )

-- The offered space holds the oldest bytes in order, up to the end of the buffer if they wrap round
-- it, and at least one byte if any is held.
pub linear_read_space_lem :
    {r : RingBuffer}
    → IsValid r
    → let (at, room) = get_linear_read_space r in
      (take room (drop at r.buffer) ≡ take room (contents r))
      × (room ≡ min r.len (capacity r - at))
      × (min 1 r.len ≤ room)
unfolding get_linear_read_space
linear_read_space_lem {r} v =
    (linear_bytes r _ v (ground arith) (ground arith), ground arith, ground arith)
