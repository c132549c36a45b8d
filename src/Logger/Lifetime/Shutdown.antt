-- ===== src/Logger/Lifetime/Shutdown.antt =====
-- What `~Logger` leaves in the ring buffer: the loop of `CustThreadProc` ends at its next test.
use mathlib.Core.List.{append_assoc}
use mathlib.Core.Path.{subst}
use nebula_toolkit.Logger.Flow.{round-Flows}
use nebula_toolkit.Logger.Lifetime.Accounting.{AtEnd, Flows-Went, steps-Lives, LogSteps-flow}
use nebula_toolkit.Logger.Lifetime.{
  CustPhase, testing, rounding, closed, AsyncLogger, new_logger, test_running, end_round,
  begin_shutdown, LogStep, logs, tests, rounds, shuts_down, closes, LogSteps, at_first, and_then,
}
use nebula_toolkit.Logger.Rounds.{append-take-drop}
use nebula_toolkit.Logger.{Sinks, Levels, consume}
use nebula_toolkit.Prelude.{
  ℕ, ◌+◌, ◌≡◌, ◌≤◌, ◌<◌, ◌∙◌, ◌^◌, refl, ap, arith, false, some, ◌++◌, Bytes, min, take, drop,
  length, length-drop,
}
use nebula_toolkit.RingBuffer.Contents.{IsValid, contents}

-- how much the thread can have written since it was told to stop: nothing before the end of a round
abbrev spent : CustPhase → ℕ → ℕ
spent rounding batch = 0
spent p batch = batch

module _ (levels : Levels) (batch max_flush_size : ℕ) where
  -- a step that logs no line
  abbrev pub IsNoLine : {l l' : AsyncLogger} → LogStep levels batch max_flush_size l l' → Type 0
  IsNoLine (logs level bs e) = ⊥
  IsNoLine _ = Unit {0}

  abbrev pub HasNoLine : {l l' : AsyncLogger} → LogSteps levels batch max_flush_size l l' → Type 0
  HasNoLine at_first = Unit {0}
  HasNoLine (and_then r a) = HasNoLine r × IsNoLine a

  -- What is left, after `cust_thread_running_` is false, of `held` bytes that were queued then.
  record Left (held : ℕ) (bytes : Bytes) (l : AsyncLogger) : Type 0 where
    off : l.cust_running ≡ false
    valid : IsValid l.sinks.ring
    room : batch ≤ length l.sinks.read_buffer
    kept : l.sinks.written ++ contents l.sinks.ring ≡ bytes
    few : held ≤ length (contents l.sinks.ring) + spent l.cust_phase batch

  round-Left :
      {held : ℕ} {bytes : Bytes} {l : AsyncLogger} {s : Sinks}
      → l.cust_phase ≡ rounding
      → consume batch l.sinks ≡ some s
      → Left held bytes l
      → Left held bytes (end_round batch max_flush_size l s)
  unfolding end_round
  round-Left {held} {bytes} {l} {s} at e h =
      let w = Flows-Went (round-Flows levels batch l.sinks h.valid h.room) e in
      let q = contents l.sinks.ring in
      let n = min (length q) batch in
      let rest : contents s.ring ≡ drop n q = ap (λ f. f.queued) w.flows in
      let more : s.written ≡ l.sinks.written ++ take n q = ap (λ f. f.written) w.flows in
      record {
        off = h.off;
        valid = w.valid;
        room = omega (arith, h.room, w.same_block);
        kept =
            rw (rest, more)
              (append_assoc l.sinks.written (take n q) (drop n q)
                ∙ ap (λ x. l.sinks.written ++ x) (append-take-drop n q)
                ∙ h.kept);
        few = omega (arith, h.few, ap (λ p. spent p batch) at, ap length rest, length-drop n q);
      }

  test-Left :
      {held : ℕ} {bytes : Bytes} {l : AsyncLogger}
      → l.cust_phase ≡ testing
      → Left held bytes l
      → Left held bytes (test_running l)
  unfolding test_running
  test-Left at h = record {
    off = h.off;
    valid = h.valid;
    room = h.room;
    kept = h.kept;
    few = rw h.off (omega (arith, h.few, ap (λ p. spent p batch) at));
  }

  steps-Left :
      {held : ℕ} {bytes : Bytes} {l l' : AsyncLogger}
      (r : LogSteps levels batch max_flush_size l l')
      → HasNoLine r
      → Left held bytes l
      → Left held bytes l'
  unfolding begin_shutdown
  steps-Left at_first quiet h = h
  steps-Left (and_then r (logs level bs e)) (quiet, logged) h = absurd logged
  steps-Left (and_then r (tests at)) (quiet, silent) h = test-Left at (steps-Left r quiet h)
  steps-Left (and_then r (rounds at e)) (quiet, silent) h = round-Left at e (steps-Left r quiet h)
  steps-Left (and_then r shuts_down) (quiet, silent) h =
      let g = steps-Left r quiet h in
      record { off = refl; valid = g.valid; room = g.room; kept = g.kept; few = g.few }
  steps-Left (and_then r (closes off at)) (quiet, silent) h =
      let g = steps-Left r quiet h in
      record {
        off = g.off;
        valid = g.valid;
        room = g.room;
        kept = g.kept;
        few = omega (arith, g.few, ap (λ p. spent p batch) at);
      }

  after :
      {a b c : AsyncLogger}
      → LogSteps levels batch max_flush_size a b
      → LogSteps levels batch max_flush_size b c
      → LogSteps levels batch max_flush_size a c
  after r at_first = r
  after r (and_then t a) = and_then (after r t) a

  -- The destructor, called after any run from the constructor on, with no line logged after it has begun:
  -- when it has closed the file, the bytes that had been flushed or waited for it, and those that were
  -- queued, are those on the disk and, behind them, those still in the ring buffer, which are all that
  -- were queued but for one batch at most. These are lost.
  pub shutdown_loses :
      (size : ℕ) {l l' : AsyncLogger}
      → 0 < size
      → size ≤ 2 ^ 61
      → LogSteps levels batch max_flush_size (new_logger size batch) l
      → l.cust_running ≡ false
      → (r : LogSteps levels batch max_flush_size l l') → HasNoLine r
      → l'.cust_phase ≡ closed
      → (l'.flushed ++ contents l'.sinks.ring ≡ l.sinks.written ++ contents l.sinks.ring)
        × (length (contents l.sinks.ring) ≤ length (contents l'.sinks.ring) + batch)
  shutdown_loses size {l} {l'} pos small before off r quiet at =
      let h = steps-Lives levels size batch max_flush_size pos small before in
      let g =
        steps-Left {held = length (contents l.sinks.ring)}
          {bytes = l.sinks.written ++ contents l.sinks.ring} r quiet
          (record {
            off = off;
            valid = h.valid;
            room = omega (arith, h.same_block);
            kept = refl;
            few = omega arith;
          }) in
      let (_, disk) = LogSteps-flow levels size batch max_flush_size pos small (after before r) in
      let all : l'.flushed ≡ l'.sinks.written =
        subst (λ p. AtEnd p l'.flushed l'.sinks.written) at disk.at_end in
      (
        ap (λ q. q ++ contents l'.sinks.ring) all ∙ g.kept,
        omega (arith, g.few, ap (λ p. spent p batch) at),
      )
