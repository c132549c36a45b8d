-- ===== src/Logger/Pipeline.antt =====
-- A log line's way through the ring buffer to the log file.
use mathlib.Core.List.{append-nil}
use nebula_toolkit.Logger.{Sinks, consume}
use nebula_toolkit.Prelude.{
  ℕ, zero, suc, ◌*◌, ◌%◌, ◌≤◌, ◌<◌, ◌≡◌, ◌∙◌, refl, sym, ap, true, false, none, some, [], ◌∷◌, ◌++◌,
  Bytes, length, take, drop, min, arith, ltb, ◌==◌, Bool-cases, inl, inr, length-append,
  length-take, length-drop, lt→ltb,
}
use nebula_toolkit.RingBuffer.Contents.{IsValid, contents, length-contents, Holds}
use nebula_toolkit.RingBuffer.Reading.{read-Holds}
use nebula_toolkit.RingBuffer.Vectors.{IsVector, read_vector-read}
use nebula_toolkit.RingBuffer.{RingBuffer, Vector, read_vector}

abbrev pub block : Bytes → Vector
block b = record { elem_size = 1; count = length b; bytes = b }

block-IsVector : (b : Bytes) → IsVector (block b)
block-IsVector b = record { elem_pos = omega arith; bytes_eq = omega arith }

take-append : (n : ℕ) (a b : Bytes) → length a ≡ n → take n (a ++ b) ≡ a
take-append n [] b e = ground (arith, e)
take-append zero (x ∷ a) b e = absurd (omega arith)
take-append (suc n) (x ∷ a) b e = ap (λ u. x ∷ u) (take-append n a b (omega arith))

consume_reads :
    (batch : ℕ) (s : Sinks) (n : ℕ) (d : Bytes) (r' : RingBuffer)
    → min s.ring.len batch ≡ n
    → 0 < n
    → read_vector s.ring (block s.read_buffer) n
      ≡ some (n, record (block s.read_buffer) { bytes = d }, r')
    → n ≤ length d
    → consume batch s
      ≡ some (record s { ring = r'; read_buffer = d; written = s.written ++ take n d })
unfolding consume
consume_reads batch s n d r' e pos runs fits =
    let busy : (s.ring.len == 0) ≡ false = ground arith in
    let some_bytes : (n == 0) ≡ false = ground arith in
    let inside : ltb (length d) n ≡ false = ground arith in rw (busy, e, some_bytes, runs, inside)

-- What a read of `n` bytes into the consumer's block leaves: the block `d` and the ring `r'`.
pub record ReadBlock (n : ℕ) (s : Sinks) (d : Bytes) (r' : RingBuffer) : Type 0 where
  pub runs :
      read_vector s.ring (block s.read_buffer) n
      ≡ some (n, record (block s.read_buffer) { bytes = d }, r')
  pub ring : Holds s.ring r' (drop n (contents s.ring))
  pub in_front : take n d ≡ take n (contents s.ring)
  pub same_block : length d ≡ length s.read_buffer

-- A read of bytes that are there into a block that is large enough puts them in front of the block.
pub read_block :
    (n : ℕ) (s : Sinks)
    → IsValid s.ring
    → 0 < n
    → n ≤ s.ring.len
    → n ≤ length s.read_buffer
    → (d : Bytes) × (r' : RingBuffer) × ReadBlock n s d r'
read_block n s v pos held room =
    let (r', e, h) = read-Holds s.read_buffer n v pos held room in
    let front = take n (contents s.ring) in
    let short : length front ≡ n =
      omega (arith, length-take n (contents s.ring), length-contents s.ring) in
    let runs =
      read_vector-read s.ring (block s.read_buffer) n v (block-IsVector s.read_buffer) (omega arith)
        (omega arith) (inr (omega arith)) in
    (
      front ++ drop n s.read_buffer,
      r',
      record {
        runs = rw (runs, e);
        ring = h;
        in_front = take-append n front (drop n s.read_buffer) short;
        same_block =
            omega (
              arith,
              length-append front (drop n s.read_buffer),
              length-drop n s.read_buffer,
              short,
            );
      },
    )

-- What a round of the consumer leaves: `n` bytes moved from the front of the ring to the file's end.
pub record Moved (n : ℕ) (s s' : Sinks) : Type 0 where
  pub ring : Holds s.ring s'.ring (drop n (contents s.ring))
  pub written : s'.written ≡ s.written ++ take n (contents s.ring)
  pub printed : s'.printed ≡ s.printed
  pub same_block : length s'.read_buffer ≡ length s.read_buffer

-- A round that finds nothing to move moves nothing.
pub unmoved : (s : Sinks) → IsValid s.ring → Moved 0 s s
unmoved s v = record {
  ring = record { valid = v; same_capacity = refl; holds = refl };
  written = sym (append-nil s.written);
  printed = refl;
  same_block = refl;
}

-- A round of the consumer whose batch is no larger than its block runs without undefined behaviour,
-- and moves the oldest bytes, as many as are there up to the batch size, from the front of the ring
-- buffer to the end of the log file; nothing is lost, doubled or reordered.
pub consume-Moved :
    (batch : ℕ) (s : Sinks)
    → IsValid s.ring
    → batch ≤ length s.read_buffer
    → (s' : Sinks) × (consume batch s ≡ some s') × Moved (min s.ring.len batch) s s'
unfolding consume
consume-Moved batch s v room = elim (Bool-cases (min s.ring.len batch == 0)) [
  | inl nothing ↦
      let n : min s.ring.len batch ≡ 0 = ground arith in
      (s, ground (arith, nothing), rw n (unmoved s v))
  | inr some_bytes ↦
      let n = min s.ring.len batch in
      let pos : 0 < n = ground arith in
      let (d, r', b) = read_block n s v pos (omega arith) (omega arith) in
      (
        record s { ring = r'; read_buffer = d; written = s.written ++ take n (contents s.ring) },
        consume_reads batch s n d r' refl pos b.runs (omega (arith, b.same_block))
            ∙ ap (λ w. some (record s { ring = r'; read_buffer = d; written = s.written ++ w }))
                b.in_front,
        record { ring = b.ring; written = refl; printed = refl; same_block = b.same_block },
      )
]

-- Where the batch size has grown beyond the block of the consumer and more bytes than the block has
-- are queued, the round reads past the end of the block.
pub consume_overruns :
    (batch : ℕ) (s : Sinks)
    → IsValid s.ring
    → length s.read_buffer < s.ring.len
    → length s.read_buffer < batch
    → consume batch s ≡ none
unfolding consume read_vector
consume_overruns batch s v queued grown =
    let n = min s.ring.len batch in
    let busy : (s.ring.len == 0) ≡ false = ground arith in
    let some_bytes : (n == 0) ≡ false = ground arith in
    let more : ltb (length s.read_buffer) n ≡ true =
      lt→ltb (length s.read_buffer) n (omega arith) in
    let more' : ltb (length s.read_buffer * 1) n ≡ true =
      lt→ltb (length s.read_buffer * 1) n (omega arith) in
    let whole : n % 1 ≡ 0 = omega arith in rw (busy, some_bytes, whole, more', more)
