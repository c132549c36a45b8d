-- ===== src/ByteStream.antt =====
-- ByteStream: include/containers/byte_stream.hpp and src/containers/byte_stream.cpp, a RingBuffer. A value
-- of a type `T`, or a string, is its bytes; each operator returns the stream, and drops the code of `Write`
-- or `Read`.
pub mod RoundTrip
mod Tests
use nebula_toolkit.Prelude.{ℕ, ◌*◌, Option, none, some, List, [], ◌∷◌, Bytes, length, ◌>>=◌}
use nebula_toolkit.RingBuffer
use nebula_toolkit.RingBuffer.{RingBuffer, Vector, write_vector, read_vector}

unfoldable pub put_bytes : RingBuffer → Bytes → Option RingBuffer
put_bytes r d = do (_, r') ← RingBuffer.write r d (length d); some r'

-- the variable afterwards, and the stream
unfoldable pub get_bytes : RingBuffer → Bytes → Option (Bytes × RingBuffer)
get_bytes r d = do (_, d', r') ← RingBuffer.read r d (length d); some (d', r')

unfoldable pub put_vector : RingBuffer → Vector → Option RingBuffer
put_vector r d = do (_, r') ← write_vector r d; some r'

unfoldable pub get_vector : RingBuffer → Vector → Option (Vector × RingBuffer)
get_vector r d = do (_, d', r') ← read_vector r d (d.count * d.elem_size); some (d', r')

-- `stream << a << b ...` and `stream >> x >> y ...`
unfoldable pub put_all : RingBuffer → List Bytes → Option RingBuffer
put_all r [] = some r
put_all r (d ∷ ds) = do r' ← put_bytes r d; put_all r' ds

unfoldable pub get_all : RingBuffer → List Bytes → Option (List Bytes × RingBuffer)
get_all r [] = some ([], r)
get_all r (d ∷ ds) = do (d', r') ← get_bytes r d; (ds', r'') ← get_all r' ds; some (d' ∷ ds', r'')
