-- ===== src/Logger/Flow.antt =====
-- Lines and rounds of the consumer in any order: the logger as a bounded queue between two outputs.
use mathlib.Core.List.{append-nil}
use nebula_toolkit.Logger.Pipeline.{consume-Moved}
use nebula_toolkit.Logger.{Sinks, Levels, LogLevel, consume, emit, should_log, is_msg}
use nebula_toolkit.Prelude.{
  ℕ, ◌+◌, ◌≤◌, ◌≡◌, ◌∙◌, refl, false, Option, some, List, [], ◌∷◌, ◌++◌, Bytes, length, take, drop,
  min, arith, ltb, if◌then◌else◌, ◌>>=◌, Bool-cases, inl, inr, take_all,
}
use nebula_toolkit.RingBuffer.Contents.{IsValid, contents, length-contents, Holds}
use nebula_toolkit.RingBuffer.Writing.{write-Holds, write_refused}
use nebula_toolkit.RingBuffer.{RingBuffer, capacity, write, to_size, error_empty, error_full}

pub data Event : Type 0 where
  line : LogLevel → Bytes → Event
  round : Event

-- The code on a sequence of events, under one configuration.
unfoldable pub run : Levels → ℕ → List Event → Sinks → Option Sinks
run levels batch [] s = some s
run levels batch (line level bs ∷ es) s = do s' ← emit levels level bs s; run levels batch es s'
run levels batch (round ∷ es) s = do s' ← consume batch s; run levels batch es s'

-- What a caller may count on: the bytes queued, written and printed.
pub record Flow : Type 0 where
  pub queued : Bytes
  pub written : Bytes
  pub printed : Bytes

abbrev pub flow : Sinks → Flow
flow s = record { queued = contents s.ring; written = s.written; printed = s.printed }

-- A line that does not fit is lost whole for the file.
abbrev enqueue : ℕ → Bytes → Bytes → Bytes
enqueue cap bs q = if ltb cap (length q + length bs) then q else q ++ bs

abbrev pub move : ℕ → Levels → ℕ → Event → Flow → Flow
move cap levels batch (line level bs) f =
    if should_log levels level
    then (record {
      queued = if is_msg level then f.queued else enqueue cap bs f.queued;
      written = f.written;
      printed = f.printed ++ bs;
    })
    else f
move cap levels batch round f = record {
  queued = drop (min (length f.queued) batch) f.queued;
  written = f.written ++ take (min (length f.queued) batch) f.queued;
  printed = f.printed;
}

unfoldable pub moves : ℕ → Levels → ℕ → List Event → Flow → Flow
moves cap levels batch [] f = f
moves cap levels batch (e ∷ es) f = moves cap levels batch es (move cap levels batch e f)

-- `m` runs, keeps the ring valid, its capacity and the size of the block, and leaves the flow `f`.
pub record Flows (s : Sinks) (m : Option Sinks) (f : Flow) : Type 0 where
  pub after : Sinks
  pub runs : m ≡ some after
  pub valid : IsValid after.ring
  pub same_capacity : capacity after.ring ≡ capacity s.ring
  pub same_block : length after.read_buffer ≡ length s.read_buffer
  pub flows : flow after ≡ f

unchanged : {r : RingBuffer} → IsValid r → Holds r r (contents r)
unchanged v = record { valid = v; same_capacity = refl; holds = refl }

-- a write of a whole line, where it fits and where it does not
write-enqueue :
    (r : RingBuffer) (bs : Bytes)
    → IsValid r
    → (code : ℕ) × (r' : RingBuffer) × (write r bs (length bs) ≡ some (code, r'))
      × Holds r r' (enqueue (capacity r) bs (contents r))
write-enqueue r [] v =
    let fits : ltb (capacity r) (r.len + 0) ≡ false = ground arith in
    (
      to_size error_empty,
      r,
      (write_refused [] 0 v).0 refl,
      rw (length-contents r, fits, append-nil (contents r)) (unchanged v),
    )
write-enqueue r (b ∷ bs) v =
    rw (length-contents r) (elim (Bool-cases (ltb (capacity r) (r.len + length (b ∷ bs)))) [
      | inl full ↦ (
        to_size error_full,
        r,
        (write_refused (b ∷ bs) (length (b ∷ bs)) v).1 (ground arith),
        rw full (unchanged v),
      )
      | inr fits ↦
          let (r', e, h) =
            write-Holds (b ∷ bs) (length (b ∷ bs)) v (omega arith) (ground arith) (omega arith) in
          (length (b ∷ bs), r', e, rw fits (rw (take_all (b ∷ bs)) at h))
    ])

pub emit-Flows :
    (levels : Levels) (batch : ℕ) (level : LogLevel) (bs : Bytes) (s : Sinks)
    → IsValid s.ring
    → Flows s
        (emit levels level bs s)
        (move (capacity s.ring) levels batch (line level bs) (flow s))
unfolding emit
emit-Flows levels batch level bs s v = elim (Bool-cases (should_log levels level)) [
  | inr off ↦ rw off (record {
    after = s;
    runs = refl;
    valid = v;
    same_capacity = refl;
    same_block = refl;
    flows = refl;
  })
  | inl on ↦ elim (Bool-cases (is_msg level)) [
    | inl plain ↦
        rw (on, plain)
          (record {
            after = record s { printed = s.printed ++ bs };
            runs = refl;
            valid = v;
            same_capacity = refl;
            same_block = refl;
            flows = refl;
          })
    | inr kept ↦
        let (code, r', e, h) = write-enqueue s.ring bs v in
        rw (on, kept, e)
          (record {
            after = record s { ring = r'; printed = s.printed ++ bs };
            runs = refl;
            valid = h.valid;
            same_capacity = h.same_capacity;
            same_block = refl;
            flows = rw h.holds;
          })
  ]
]

pub round-Flows :
    (levels : Levels) (batch : ℕ) (s : Sinks)
    → IsValid s.ring
    → batch ≤ length s.read_buffer
    → Flows s (consume batch s) (move (capacity s.ring) levels batch round (flow s))
round-Flows levels batch s v room =
    let (s', e, m) = consume-Moved batch s v room in
    rw (length-contents s.ring) (record {
      after = s';
      runs = e;
      valid = m.ring.valid;
      same_capacity = m.ring.same_capacity;
      same_block = m.same_block;
      flows = rw (m.ring.holds, m.written, m.printed);
    })

Flows-then :
    {s : Sinks} {m : Option Sinks} {f g : Flow} (k : Sinks → Option Sinks) (h : Flows s m f)
    → Flows h.after (k h.after) g
    → Flows s (do s' ← m; k s') g
Flows-then k h t = record {
  after = t.after;
  runs = rw (h.runs, t.runs);
  valid = t.valid;
  same_capacity = t.same_capacity ∙ h.same_capacity;
  same_block = t.same_block ∙ h.same_block;
  flows = t.flows;
}

-- Whatever lines are logged and whatever rounds the consumer makes between them, with a batch size
-- no larger than its block, nothing runs into undefined behaviour, and the bytes queued, written and
-- printed are those of the abstract flow: each line of an enabled level is printed, each but a
-- message is queued whole or, where it does not fit, lost whole for the file, and the file gets the
-- queued bytes in order.
pub run-flow :
    (levels : Levels) (batch : ℕ) (es : List Event) (s : Sinks)
    → IsValid s.ring
    → batch ≤ length s.read_buffer
    → Flows s (run levels batch es s) (moves (capacity s.ring) levels batch es (flow s))
unfolding run moves
run-flow levels batch [] s v room = record {
  after = s;
  runs = refl;
  valid = v;
  same_capacity = refl;
  same_block = refl;
  flows = refl;
}
run-flow levels batch (line level bs ∷ es) s v room =
    let h = emit-Flows levels batch level bs s v in
    let t = run-flow levels batch es h.after h.valid (omega (arith, h.same_block)) in
    Flows-then (run levels batch es) h (rw (h.same_capacity, h.flows) at t)
run-flow levels batch (round ∷ es) s v room =
    let h = round-Flows levels batch s v room in
    let t = run-flow levels batch es h.after h.valid (omega (arith, h.same_block)) in
    Flows-then (run levels batch es) h (rw (h.same_capacity, h.flows) at t)
