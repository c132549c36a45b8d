-- ===== src/RingBuffer.antt =====
-- containers::RingBuffer: include/containers/ring_buffer.hpp and src/containers/ring_buffer.cpp.
-- A method returns its result beside the new buffer; `none` is undefined behaviour (an access
-- outside of a block, a remainder by zero). Each method holds the mutex from its first line to its
-- last, so it is one step. The float of `Usage` and the printing of `PrintBuffer` are left out.
pub mod Transfer
pub mod Contents
pub mod Writing
pub mod Reading
pub mod Linear
pub mod Resizing
pub mod Refine
pub mod Vectors
mod Tests
use nebula_toolkit.Prelude.{
  ℕ, ◌*◌, ◌/◌, ◌%◌, ◌^◌, ◌-◌, Bool, true, not, Option, some, min, Bytes, length, take, replicate,
  ◌++◌, ltb, ◌==◌, if◌then◌else◌, ◌>>=◌, add_size, sub_size, mod_size, memcpy,
}

-- `enum class Result`
pub data Result : Type 0 where
  success error_full error_empty error_invalid_size : Result

-- `(size_t)Result::k...`
abbrev pub to_size : Result → ℕ
to_size success = 0
to_size error_full = 2 ^ 64 - 1
to_size error_empty = 2 ^ 64 - 2
to_size error_invalid_size = 2 ^ 64 - 3

pub record RingBuffer : Type 0 where
  pub read_index : ℕ
  pub write_index : ℕ
  pub len : ℕ
  pub buffer : Bytes

-- `RingBuffer(buffer_size)`: the vector's bytes are zero
unfoldable pub create : ℕ → RingBuffer
create buffer_size = record {
  read_index = 0;
  write_index = 0;
  len = 0;
  buffer = replicate buffer_size 0;
}

abbrev pub capacity : RingBuffer → ℕ
capacity r = length r.buffer

abbrev pub is_empty : RingBuffer → Bool
is_empty r = r.len == 0

abbrev pub is_full : RingBuffer → Bool
is_full r = r.len == capacity r

abbrev pub available_to_write : RingBuffer → ℕ
available_to_write r = sub_size (capacity r) r.len

abbrev pub available_to_read : RingBuffer → ℕ
available_to_read r = r.len

-- the second `memcpy` of a transfer of `n` bytes, if the first one moved fewer
abbrev pub wrap_copy : Bytes → ℕ → Bytes → ℕ → ℕ → ℕ → Option Bytes
wrap_copy dst at src from first_chunk n =
    if ltb first_chunk n then memcpy dst at src from (n - first_chunk) else some dst

-- `Write(const std::byte *, size_t)`; the list is the block that the pointer points to
unfoldable pub write : RingBuffer → Bytes → ℕ → Option (ℕ × RingBuffer)
write r write_ptr n =
    if n == 0
    then some (to_size error_empty, r)
    else if ltb (available_to_write r) n
    then some (to_size error_full, r)
    else do
      let first_chunk = min n (sub_size (capacity r) r.write_index)
      b ← memcpy r.buffer r.write_index write_ptr 0 first_chunk
      b' ← wrap_copy b 0 write_ptr first_chunk first_chunk n
      w ← mod_size (add_size r.write_index n) (capacity r)
      some (n, record r { buffer = b'; write_index = w; len = add_size r.len n })

-- `Read(std::byte *, size_t)`; the destination's block is returned as it is afterwards
unfoldable pub read : RingBuffer → Bytes → ℕ → Option (ℕ × Bytes × RingBuffer)
read r read_ptr n =
    if n == 0
    then some (to_size error_empty, read_ptr, r)
    else if ltb (available_to_read r) n
    then some (to_size error_full, read_ptr, r)
    else do
      let first_chunk = min n (sub_size (capacity r) r.read_index)
      d ← memcpy read_ptr 0 r.buffer r.read_index first_chunk
      d' ← wrap_copy d first_chunk r.buffer 0 first_chunk n
      i ← mod_size (add_size r.read_index n) (capacity r)
      some (n, d', record r { read_index = i; len = sub_size r.len n })

-- A `std::vector<T>`: `sizeof(T)`, the number of elements, and their object representation. Its
-- bytes fit in memory, so that `size() * sizeof(T)` does not wrap.
pub record Vector : Type 0 where
  pub elem_size : ℕ
  pub count : ℕ
  pub bytes : Bytes

-- `Write(const std::vector<T> &)`: `write_data.data() + first_chunk` counts elements, not bytes
unfoldable pub write_vector : RingBuffer → Vector → Option (ℕ × RingBuffer)
write_vector r v =
    let n = v.count * v.elem_size in
    if v.count == 0
    then some (to_size error_empty, r)
    else if ltb (available_to_write r) n
    then some (to_size error_full, r)
    else do
      let first_chunk = min n (sub_size (capacity r) r.write_index)
      b ← memcpy r.buffer r.write_index v.bytes 0 first_chunk
      b' ← wrap_copy b 0 v.bytes (first_chunk * v.elem_size) first_chunk n
      w ← mod_size (add_size r.write_index n) (capacity r)
      some (n, record r { buffer = b'; write_index = w; len = add_size r.len n })

-- `Read(std::vector<T> &, size_t)`: the second copy starts at element `first_chunk / sizeof(T)`
unfoldable pub read_vector : RingBuffer → Vector → ℕ → Option (ℕ × Vector × RingBuffer)
read_vector r v n =
    if n == 0
    then some (to_size error_empty, v, r)
    else if not (n % v.elem_size == 0)
    then some (to_size error_invalid_size, v, r)
    else if ltb (v.count * v.elem_size) n
    then some (to_size error_invalid_size, v, r)
    else if ltb (available_to_read r) n
    then some (to_size error_full, v, r)
    else do
      let first_chunk = min n (sub_size (capacity r) r.read_index)
      d ← memcpy v.bytes 0 r.buffer r.read_index first_chunk
      d' ← wrap_copy d (first_chunk / v.elem_size * v.elem_size) r.buffer 0 first_chunk n
      i ← mod_size (add_size r.read_index n) (capacity r)
      some (n, record v { bytes = d' }, record r { read_index = i; len = sub_size r.len n })

-- `read_data.resize(n)` for a vector of bytes
abbrev pub resize_bytes : Bytes → ℕ → Bytes
resize_bytes d n = take n (d ++ replicate (n - length d) 0)

-- `Peek`: the vector afterwards; the buffer itself is left alone
unfoldable pub peek : RingBuffer → Bytes → ℕ → Option (ℕ × Bytes)
peek r read_data n =
    if n == 0
    then some (0, read_data)
    else if ltb (available_to_read r) n
    then some (2 ^ 64 - 1, read_data)
    else do
      let first_chunk = min n (sub_size (capacity r) r.read_index)
      d ← memcpy (resize_bytes read_data n) 0 r.buffer r.read_index first_chunk
      d' ← wrap_copy d first_chunk r.buffer 0 first_chunk n
      some (n, d')

unfoldable pub resize : RingBuffer → ℕ → ℕ × RingBuffer
resize r buffer_size =
    let r' = record r { buffer = resize_bytes r.buffer buffer_size } in (capacity r', r')

unfoldable pub clear : RingBuffer → Bool × RingBuffer
clear r = (true, record r { read_index = 0; write_index = 0; len = 0 })

-- a pointer into the buffer is its offset
unfoldable pub get_linear_write_space : RingBuffer → ℕ × ℕ
get_linear_write_space r =
    (r.write_index, min (available_to_write r) (sub_size (capacity r) r.write_index))

unfoldable pub get_linear_read_space : RingBuffer → ℕ × ℕ
get_linear_read_space r =
    (r.read_index, min (available_to_read r) (sub_size (capacity r) r.read_index))

unfoldable pub commit_write_size : RingBuffer → ℕ → Option (Result × RingBuffer)
commit_write_size r n = if ltb (available_to_write r) n then some (error_invalid_size, r) else do
  w ← mod_size (add_size r.write_index n) (capacity r)
  some (success, record r { write_index = w; len = add_size r.len n })

unfoldable pub commit_read_size : RingBuffer → ℕ → Option (Result × RingBuffer)
commit_read_size r n = if ltb (available_to_read r) n then some (error_invalid_size, r) else do
  i ← mod_size (add_size r.read_index n) (capacity r)
  some (success, record r { read_index = i; len = sub_size r.len n })
