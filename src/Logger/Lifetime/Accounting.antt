-- ===== src/Logger/Lifetime/Accounting.antt =====
-- Where the bytes of the lines are while the logger lives.
use mathlib.Core.List.{append-nil, append_assoc}
use mathlib.Core.Path.{subst}
use nebula_toolkit.Logger.Flow.{
  Event, line, round, Flow, flow, move, moves, Flows, emit-Flows, round-Flows,
}
use nebula_toolkit.Logger.Lifetime.{
  CustPhase, returned, closed, AsyncLogger, new_logger, test_running, end_round, begin_shutdown,
  logs, tests, rounds, shuts_down, closes, LogSteps, at_first, and_then,
}
use nebula_toolkit.Logger.{Sinks, Levels, LogLevel, consume, emit, should_log}
use nebula_toolkit.Prelude.{
  ℕ, ◌≡◌, ◌≤◌, ◌<◌, ◌∙◌, ◌^◌, refl, sym, ap, arith, Option, some, List, [], ◌∷◌, ◌++◌, Bytes, min,
  take, length, leb, not, ◌&&◌, length-replicate, Bool-cases, inl, inr,
}
use nebula_toolkit.RingBuffer
use nebula_toolkit.RingBuffer.Contents.{IsValid}
use nebula_toolkit.RingBuffer.{capacity, available_to_read, is_empty}

abbrev pub nothing : Flow
nothing = record { queued = []; written = []; printed = [] }

-- at the end of the thread all that was written has been flushed
abbrev pub AtEnd : CustPhase → Bytes → Bytes → Type 0
AtEnd returned flushed written = flushed ≡ written
AtEnd closed flushed written = flushed ≡ written
AtEnd p flushed written = Unit {0}

-- What was flushed is the first part of what was written, and at the end all of it.
pub record OnDisk (l : AsyncLogger) : Type 0 where
  pub pending : Bytes
  pub in_front : l.flushed ++ pending ≡ l.sinks.written
  pub at_end : AtEnd l.cust_phase l.flushed l.sinks.written

-- the logger in order, with the flow `f`
pub record Lives (size batch : ℕ) (f : Flow) (l : AsyncLogger) : Type 0 where
  pub valid : IsValid l.sinks.ring
  pub same_size : capacity l.sinks.ring ≡ size
  pub same_block : length l.sinks.read_buffer ≡ batch
  pub flows : flow l.sinks ≡ f
  pub disk : OnDisk l

create-IsValid : (size : ℕ) → 0 < size → size ≤ 2 ^ 61 → IsValid (RingBuffer.create size)
unfolding RingBuffer.create
create-IsValid size pos small =
    let n : length (RingBuffer.create size).buffer ≡ size = length-replicate size 0 in omega arith

moves-append :
    (cap : ℕ) (levels : Levels) (batch : ℕ) (es : List Event) (e : Event) (f : Flow)
    → moves cap levels batch (es ++ e ∷ []) f
      ≡ move cap levels batch e (moves cap levels batch es f)
unfolding moves
moves-append cap levels batch [] e f = refl
moves-append cap levels batch (d ∷ es) e f =
    moves-append cap levels batch es e (move cap levels batch d f)

some_same : {A : Type 0} {a b : A} → some a ≡ some b → a ≡ b
some_same e = cc

line-written :
    (cap : ℕ) (levels : Levels) (batch : ℕ) (level : LogLevel) (bs : Bytes) (f : Flow)
    → (move cap levels batch (line level bs) f).written ≡ f.written
line-written cap levels batch level bs f = elim (Bool-cases (should_log levels level)) [
  | inl on ↦ rw on refl
  | inr off ↦ rw off refl
]

-- What a line or a round that went through leaves of the sinks `s`.
pub record Went (s : Sinks) (f : Flow) (s' : Sinks) : Type 0 where
  pub valid : IsValid s'.ring
  pub same_capacity : capacity s'.ring ≡ capacity s.ring
  pub same_block : length s'.read_buffer ≡ length s.read_buffer
  pub flows : flow s' ≡ f

pub Flows-Went :
    {s s' : Sinks} {m : Option Sinks} {f : Flow} → Flows s m f → m ≡ some s' → Went s f s'
Flows-Went {s} {s'} {m} {f} h e =
    subst (λ x. Went s f x) (some_same (sym h.runs ∙ e))
      (record {
        valid = h.valid;
        same_capacity = h.same_capacity;
        same_block = h.same_block;
        flows = h.flows;
      })

Went-Lives :
    {size batch : ℕ} {f g : Flow} {l l' : AsyncLogger}
    → Lives size batch f l
    → Went l.sinks g l'.sinks
    → OnDisk l'
    → Lives size batch g l'
Went-Lives h w disk = record {
  valid = w.valid;
  same_size = w.same_capacity ∙ h.same_size;
  same_block = w.same_block ∙ h.same_block;
  flows = w.flows;
  disk = disk;
}

module _ (levels : Levels) (size batch max_flush_size : ℕ) where
  moved-Went :
      (e : Event) {f : Flow} {l : AsyncLogger} {s : Sinks}
      → Lives size batch f l
      → Went l.sinks (move (capacity l.sinks.ring) levels batch e (flow l.sinks)) s
      → Went l.sinks (move size levels batch e f) s
  moved-Went e {f} {l} {s} h w =
      subst (λ q. Went l.sinks (move size levels batch e q) s) h.flows
        (subst (λ c. Went l.sinks (move c levels batch e (flow l.sinks)) s) h.same_size w)

  line-Went :
      (level : LogLevel) (bs : Bytes) {f : Flow} {l : AsyncLogger} {s : Sinks}
      → Lives size batch f l
      → emit levels level bs l.sinks ≡ some s
      → Went l.sinks (move size levels batch (line level bs) f) s
  line-Went level bs {f} {l} {s} h e =
      moved-Went (line level bs) h (Flows-Went (emit-Flows levels batch level bs l.sinks h.valid) e)

  round-Went :
      {f : Flow} {l : AsyncLogger} {s : Sinks}
      → Lives size batch f l
      → consume batch l.sinks ≡ some s
      → Went l.sinks (move size levels batch round f) s
  round-Went {f} {l} {s} h e =
      moved-Went round h
        (Flows-Went (round-Flows levels batch l.sinks h.valid (omega (arith, h.same_block))) e)

  line-Lives :
      (level : LogLevel) (bs : Bytes) {f : Flow} {l : AsyncLogger} {s : Sinks}
      → Lives size batch f l
      → emit levels level bs l.sinks ≡ some s
      → Lives size batch (move size levels batch (line level bs) f) (record l { sinks = s })
  line-Lives level bs {f} {l} {s} h e =
      let w = line-Went level bs h e in
      let same : l.sinks.written ≡ s.written =
        ap (λ q. q.written) h.flows
        ∙ sym (line-written size levels batch level bs f)
        ∙ sym (ap (λ q. q.written) w.flows) in
      Went-Lives h w (record {
        pending = h.disk.pending;
        in_front = h.disk.in_front ∙ same;
        at_end = subst (λ q. AtEnd l.cust_phase l.flushed q) same h.disk.at_end;
      })

  test-OnDisk : (l : AsyncLogger) → OnDisk l → OnDisk (test_running l)
  unfolding test_running
  test-OnDisk l d = elim (Bool-cases l.cust_running) [
    | inl on ↦ rw on (record { pending = d.pending; in_front = d.in_front; at_end = tt })
    | inr off ↦
        rw off (record { pending = []; in_front = append-nil l.sinks.written; at_end = refl })
  ]

  round-OnDisk :
      (l : AsyncLogger) (s : Sinks) (more : Bytes)
      → s.written ≡ l.sinks.written ++ more
      → OnDisk l
      → OnDisk (end_round batch max_flush_size l s)
  unfolding end_round
  round-OnDisk l s more e d =
      elim (Bool-cases (
        not (is_empty l.sinks.ring)
        && leb max_flush_size (min (available_to_read l.sinks.ring) batch))) [
          | inl full ↦
              rw full (record { pending = []; in_front = append-nil s.written; at_end = tt })
          | inr small ↦ rw small (record {
            pending = d.pending ++ more;
            in_front =
                sym (append_assoc l.flushed d.pending more)
                ∙ ap (λ q. q ++ more) d.in_front
                ∙ sym e;
            at_end = tt;
          })
        ]

  round-Lives :
      {f : Flow} {l : AsyncLogger} {s : Sinks}
      → Lives size batch f l
      → consume batch l.sinks ≡ some s
      → Lives size batch (move size levels batch round f) (end_round batch max_flush_size l s)
  unfolding end_round
  round-Lives {f} {l} {s} h e =
      let w = round-Went h e in
      let written : s.written ≡ l.sinks.written ++ take (min (length f.queued) batch) f.queued =
        ap (λ q. q.written) w.flows
        ∙ ap (λ q. q ++ take (min (length f.queued) batch) f.queued)
            (sym (ap (λ q. q.written) h.flows)) in
      Went-Lives h w (round-OnDisk l s (take (min (length f.queued) batch) f.queued) written h.disk)

  -- the same sinks in a logger with another state of the thread
  same-Lives :
      {f : Flow} {l : AsyncLogger} (l' : AsyncLogger)
      → Lives size batch f l
      → l'.sinks ≡ l.sinks
      → OnDisk l'
      → Lives size batch f l'
  same-Lives {f} {l} l' h e disk = record {
    valid = subst (λ s. IsValid s.ring) (sym e) h.valid;
    same_size = ap (λ s. capacity s.ring) e ∙ h.same_size;
    same_block = ap (λ s. length s.read_buffer) e ∙ h.same_block;
    flows = ap flow e ∙ h.flows;
    disk = disk;
  }

  -- the lines and the rounds of a run, in order
  abbrev pub events : {l l' : AsyncLogger} → LogSteps levels batch max_flush_size l l' → List Event
  events at_first = []
  events (and_then r (logs level bs e)) = events r ++ line level bs ∷ []
  events (and_then r (rounds at e)) = events r ++ round ∷ []
  events (and_then r _) = events r

  snoc-Lives :
      (es : List Event) (e : Event) {l : AsyncLogger}
      → Lives size batch (move size levels batch e (moves size levels batch es nothing)) l
      → Lives size batch (moves size levels batch (es ++ e ∷ []) nothing) l
  snoc-Lives es e {l} h =
      subst (λ f. Lives size batch f l) (sym (moves-append size levels batch es e nothing)) h

  pub steps-Lives :
      {l : AsyncLogger}
      → 0 < size
      → size ≤ 2 ^ 61
      → (r : LogSteps levels batch max_flush_size (new_logger size batch) l)
      → Lives size batch (moves size levels batch (events r) nothing) l
  unfolding test_running begin_shutdown RingBuffer.create moves
  steps-Lives pos small at_first = record {
    valid = create-IsValid size pos small;
    same_size = length-replicate size 0;
    same_block = length-replicate batch 0;
    flows = refl;
    disk = record { pending = []; in_front = refl; at_end = tt };
  }
  steps-Lives pos small (and_then r (logs level bs e)) =
      snoc-Lives (events r) (line level bs) (line-Lives level bs (steps-Lives pos small r) e)
  steps-Lives pos small (and_then r (rounds at e)) =
      snoc-Lives (events r) round (round-Lives (steps-Lives pos small r) e)
  steps-Lives pos small (and_then {l' = l} r (tests at)) =
      let h = steps-Lives pos small r in same-Lives (test_running l) h refl (test-OnDisk l h.disk)
  steps-Lives pos small (and_then {l' = l} r shuts_down) =
      let h = steps-Lives pos small r in
      same-Lives (begin_shutdown l) h refl
        (record { pending = h.disk.pending; in_front = h.disk.in_front; at_end = h.disk.at_end })
  steps-Lives pos small (and_then {l' = l} r (closes off at)) =
      let h = steps-Lives pos small r in
      same-Lives (record l { cust_phase = closed }) h refl
        (record {
          pending = h.disk.pending;
          in_front = h.disk.in_front;
          at_end = subst (λ p. AtEnd p l.flushed l.sinks.written) at h.disk.at_end;
        })

  -- From the constructor to the end of the destructor, with a ring buffer that is not empty and is within
  -- the addresses, whatever lines are logged between the thread's rounds: the bytes queued, written and printed
  -- are those of the abstract flow of these lines and rounds, what the file stream has flushed is the first part of
  -- what was written to it, and once the thread has returned it is all of it.
  pub LogSteps-flow :
      {l : AsyncLogger}
      → 0 < size
      → size ≤ 2 ^ 61
      → (r : LogSteps levels batch max_flush_size (new_logger size batch) l)
      → (flow l.sinks ≡ moves size levels batch (events r) nothing) × OnDisk l
  LogSteps-flow pos small r = let h = steps-Lives pos small r in (h.flows, h.disk)
