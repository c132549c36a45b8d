-- ===== src/Logger/Lifetime/Tests.antt =====
-- A line of three bytes, a round that takes two of them, and the destructor.
use nebula_toolkit.Logger.Flow.{line, round, flow, moves}
use nebula_toolkit.Logger.Lifetime.Accounting.{OnDisk, LogSteps-flow, nothing}
use nebula_toolkit.Logger.Lifetime.Shutdown.{HasNoLine, shutdown_loses}
use nebula_toolkit.Logger.Lifetime.{
  testing, closed, AsyncLogger, new_logger, test_running, end_round, begin_shutdown, LogSteps, logs,
  tests, rounds, shuts_down, closes, at_first, and_then,
}
use nebula_toolkit.Logger.{Levels, info, emit, consume, should_log}
use nebula_toolkit.Prelude.{◌≡◌, ◌≤◌, ◌+◌, refl, arith, true, false, [], ◌∷◌, ◌++◌, length, memcpy}
use nebula_toolkit.RingBuffer
use nebula_toolkit.RingBuffer.{read_vector}
use nebula_toolkit.RingBuffer.Contents.{contents}

abbrev levels : Levels
levels = record { msg = true; info = true; warn = true; debug = false; error = true }

-- the destructor has begun, with one byte still queued and two written and not flushed
abbrev shutting_down : AsyncLogger
shutting_down = record {
  sinks = record {
    ring = record { read_index = 2; write_index = 3; len = 1; buffer = 7 ∷ 8 ∷ 9 ∷ 0 ∷ 0 ∷ 0 ∷ [] };
    read_buffer = 7 ∷ 8 ∷ [];
    printed = 7 ∷ 8 ∷ 9 ∷ [];
    written = 7 ∷ 8 ∷ [];
  };
  flushed = [];
  cust_running = false;
  cust_phase = testing;
}

abbrev shut_down : AsyncLogger
shut_down = record shutting_down { flushed = 7 ∷ 8 ∷ []; cust_phase = closed }

before_shutdown : LogSteps levels 2 4 (new_logger 6 2) shutting_down
unfolding RingBuffer.create emit should_log RingBuffer.write memcpy test_running consume read_vector
    end_round begin_shutdown
before_shutdown =
    and_then
      (and_then (and_then (and_then at_first (logs info (7 ∷ 8 ∷ 9 ∷ []) refl)) (tests refl))
        (rounds refl refl))
      shuts_down

shutdown_run : LogSteps levels 2 4 shutting_down shut_down
unfolding test_running
shutdown_run = and_then (and_then at_first (tests refl)) (closes refl refl)

shutdown_run-HasNoLine : HasNoLine levels 2 4 shutdown_run
unfolding shutdown_run
shutdown_run-HasNoLine = ((tt, tt), tt)

LogSteps-flow_example :
    (flow shutting_down.sinks ≡ moves 6 levels 2 (line info (7 ∷ 8 ∷ 9 ∷ []) ∷ round ∷ []) nothing)
    × OnDisk shutting_down
unfolding before_shutdown
LogSteps-flow_example = LogSteps-flow levels 6 2 4 (omega arith) (omega arith) before_shutdown

-- the byte 9 is lost
shutdown_loses_example :
    (shut_down.flushed ++ contents shut_down.sinks.ring
      ≡ shutting_down.sinks.written ++ contents shutting_down.sinks.ring)
    × (length (contents shutting_down.sinks.ring) ≤ length (contents shut_down.sinks.ring) + 2)
shutdown_loses_example =
    shutdown_loses levels 2 4 6 (omega arith) (omega arith) before_shutdown refl shutdown_run
      shutdown_run-HasNoLine refl
