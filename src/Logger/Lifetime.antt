-- ===== src/Logger/Lifetime.antt =====
-- The writing thread of the logger from the constructor to the end of the destructor: the loop of
-- `CustThreadProc` with its test and its flushes, the calls of `LogCout` and `LogPrint` between its rounds, and
-- `~Logger`. A line and a round are whole, since each is under `ring_buffer_mutex_`. Bytes that the file
-- stream has not flushed are not on the disk yet.
pub mod Accounting
pub mod Shutdown
mod Tests
use nebula_toolkit.Logger.{Sinks, Levels, LogLevel, consume, emit}
use nebula_toolkit.Prelude.{
  ℕ, ◌≡◌, Bool, true, false, not, ◌&&◌, Option, some, [], Bytes, replicate, min, leb, if◌then◌else◌,
}
use nebula_toolkit.RingBuffer
use nebula_toolkit.RingBuffer.{available_to_read, is_empty}

-- Where the thread is: about to read `cust_thread_running_`; in the loop's body; returned, after the last
-- flush; joined, with the file closed.
pub data CustPhase : Type 0 where
  testing rounding returned closed : CustPhase

-- `flushed` are the bytes that the file stream has passed on.
pub record AsyncLogger : Type 0 where
  pub sinks : Sinks
  pub flushed : Bytes
  pub cust_running : Bool
  pub cust_phase : CustPhase

-- the constructor, with the size of the ring buffer and that of the thread's block
abbrev pub new_logger : ℕ → ℕ → AsyncLogger
new_logger ring_buffer_size batch_size = record {
  sinks = record {
    ring = RingBuffer.create ring_buffer_size;
    read_buffer = replicate batch_size 0;
    printed = [];
    written = [];
  };
  flushed = [];
  cust_running = true;
  cust_phase = testing;
}

-- the test of the loop; after the loop, `flush`
unfoldable pub test_running : AsyncLogger → AsyncLogger
test_running l = record l {
  flushed = if l.cust_running then l.flushed else l.sinks.written;
  cust_phase = if l.cust_running then rounding else returned;
}

-- the rest of a round, which took the sinks to `s`: it flushes after a block of `max_flush_size` or more
unfoldable pub end_round : ℕ → ℕ → AsyncLogger → Sinks → AsyncLogger
end_round batch_size max_flush_size l s = record l {
  sinks = s;
  flushed =
      if not (is_empty l.sinks.ring)
        && leb max_flush_size (min (available_to_read l.sinks.ring) batch_size)
      then s.written
      else l.flushed;
  cust_phase = testing;
}

-- `~Logger` up to the joins
unfoldable pub begin_shutdown : AsyncLogger → AsyncLogger
begin_shutdown l = record l { cust_running = false }

module _ (levels : Levels) (batch_size max_flush_size : ℕ) where
  -- what happens to the logger, under one configuration
  pub data LogStep (l : AsyncLogger) : AsyncLogger → Type 0 where
    logs :
        (level : LogLevel) (bs : Bytes) {s : Sinks}
        → emit levels level bs l.sinks ≡ some s
        → LogStep l (record l { sinks = s })
    tests : l.cust_phase ≡ testing → LogStep l (test_running l)
    rounds :
        {s : Sinks}
        → l.cust_phase ≡ rounding
        → consume batch_size l.sinks ≡ some s
        → LogStep l (end_round batch_size max_flush_size l s)
    shuts_down : LogStep l (begin_shutdown l)
    closes :
        l.cust_running ≡ false
        → l.cust_phase ≡ returned
        → LogStep l (record l { cust_phase = closed })

  pub data LogSteps (l : AsyncLogger) : AsyncLogger → Type 0 where
    at_first : LogSteps l l
    and_then : {l' l'' : AsyncLogger} → LogSteps l l' → LogStep l' l'' → LogSteps l l''
