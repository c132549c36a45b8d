-- ===== src/TimerScheduler/Tests.antt =====
-- A run of the scheduler with a task that is cancelled, and the theorems about it.
use nebula_toolkit.Prelude.{◌++◌, false, true, ◌≡◌, refl, [], ◌∷◌, arith}
use nebula_toolkit.TimerScheduler.Cancelling.{count_posted, Punctual, cancel-never_posted}
use nebula_toolkit.TimerScheduler.Thread
use nebula_toolkit.ThreadPool
use nebula_toolkit.ThreadPool.{ThreadPool, busy}
use nebula_toolkit.TimerScheduler.Thread.Pool.{
  TimedPool, new_timed_pool, hand_over, Ticks, acts, hands_over, works, no_tick, then_tick, in_hand,
  callbacks, Ticks-fifo,
}
use nebula_toolkit.TimerScheduler.Thread.Ending.{Ends, stopped-Ends}
use nebula_toolkit.TimerScheduler.Thread.Stopping.{Oversleeps, HasNoNotify, stop-Oversleeps}
use nebula_toolkit.TimerScheduler.Thread.{
  notify_all, push_timer, notify_one, notifies_one, notifies_all, Scheduler, new_scheduler, absent,
  checking, entering, posting, sleeping, start, stop, check_running, take_turn, Act, Acts, starts,
  turns, posts, stops,
}
use nebula_toolkit.TimerScheduler.{
  TimerTask, TimerScheduler, precedes, create, schedule_once, push, cancel, round, ticks, schedules,
  pushes, rounds, Steps, none_yet, later,
}

abbrev early : TimerTask
early = record { exec_time = 105; callback = 7; task_id = 0 }

abbrev late : TimerTask
late = record { exec_time = 120; callback = 8; task_id = 1 }

-- two tasks are scheduled at 100, and both are in the queue
abbrev queued : TimerScheduler
queued = record {
  timer_tasks = early ∷ late ∷ [];
  canceled_ids = [];
  next_id = 2;
  now = 100;
  entering = [];
  posted = [];
  dropped = [];
}

queued-Steps : Steps (create 100) queued
unfolding schedule_once push
queued-Steps =
    later
      (later (later (later none_yet (schedules 5 7 (omega arith))) (schedules 20 8 (omega arith)))
        (pushes [] (early ∷ []) late refl))
      (pushes [] [] early refl)

-- the first is posted at 105; the second, cancelled, is dropped
abbrev finished : TimerScheduler
finished = record {
  timer_tasks = [];
  canceled_ids = [];
  next_id = 2;
  now = 105;
  entering = [];
  posted = (105, early) ∷ [];
  dropped = late ∷ [];
}

cancelled-Steps : Steps (cancel queued 1).1 finished
unfolding cancel round
cancelled-Steps =
    later
      (later (later none_yet (ticks 5))
        (rounds [] (late ∷ []) early refl (unfold precedes in (refl, tt))))
      (rounds [] [] late refl tt)

cancel-never_posted_example : count_posted 1 finished.posted ≡ 0
cancel-never_posted_example = cancel-never_posted 1 queued-Steps refl cancelled-Steps

-- `Start`, and a task scheduled at 100 for 105, which the thread has taken off the queue at 105
abbrev about_to_post : Scheduler
about_to_post = record {
  timers = record {
    timer_tasks = [];
    canceled_ids = [];
    next_id = 1;
    now = 105;
    entering = [];
    posted = (105, early) ∷ [];
    dropped = [];
  };
  running = true;
  phase = posting early;
  pushes_due = 0;
  stop_due = false;
  handed = [];
}

about_to_post-Acts : Acts (new_scheduler 100) about_to_post
unfolding start push_timer notify_one check_running take_turn round schedule_once push
about_to_post-Acts =
    Thread.later
      (Thread.later
        (Thread.later
          (Thread.later
            (Thread.later
              (Thread.later (Thread.later Thread.none_yet (starts refl refl))
                (Thread.schedules 5 7 (omega arith)))
              (Thread.pushes [] [] early refl))
            (notifies_one 0 refl))
          (Thread.ticks 5))
        (Thread.checks refl))
      (turns [] [] early refl refl tt)

-- `Cancel` comes too late here: the task is not in the queue any more, and is handed to the pool.
cancelled_and_posted :
    Acts
      (record about_to_post { timers = (cancel about_to_post.timers 0).1 })
      (record about_to_post {
        timers = (cancel about_to_post.timers 0).1;
        phase = checking;
        handed = early ∷ [];
      })
cancelled_and_posted = Thread.later Thread.none_yet (posts early refl)

-- `Stop` after the thread has read `running_`, with both tasks in the queue
abbrev stopping : Scheduler
stopping = record {
  timers = queued;
  running = false;
  phase = entering;
  pushes_due = 0;
  stop_due = false;
  handed = [];
}

stopping-Acts : Acts (new_scheduler 100) stopping
unfolding start stop notify_all push_timer notify_one check_running schedule_once push
stopping-Acts =
    Thread.later
      (Thread.later
        (Thread.later
          (Thread.later
            (Thread.later
              (Thread.later
                (Thread.later
                  (Thread.later
                    (Thread.later (Thread.later Thread.none_yet (starts refl refl))
                      (Thread.schedules 5 7 (omega arith)))
                    (Thread.schedules 20 8 (omega arith)))
                  (Thread.pushes [] (early ∷ []) late refl))
                (Thread.pushes [] [] early refl))
              (notifies_one 1 refl))
            (notifies_one 0 refl))
          (Thread.checks refl))
        (stops refl))
      (notifies_all refl)

-- at 104, when `Stop` has waited for four milliseconds
abbrev waited : Scheduler
waited = record stopping { timers = record queued { now = 104 }; phase = sleeping 105 }

waited-Acts : Acts (take_turn stopping early (late ∷ [])) waited
unfolding take_turn round
waited-Acts = Thread.later Thread.none_yet (Thread.ticks 4)

waited-HasNoNotify : HasNoNotify waited-Acts
unfolding waited-Acts
waited-HasNoNotify = (tt, tt)

stop-Oversleeps_example : Oversleeps 105 waited
stop-Oversleeps_example =
    stop-Oversleeps stopping early (late ∷ []) refl refl refl (omega arith) waited-Acts
      waited-HasNoNotify (omega arith)

-- `Stop` while the thread is about to post
stopped_in_post : Acts (new_scheduler 100) (stop about_to_post)
stopped_in_post = Thread.later about_to_post-Acts (stops refl)

posting_not_absent : ¬ posting early ≡ absent
posting_not_absent e = cc

stopped-Ends_example : Ends (stop about_to_post)
unfolding stop
stopped-Ends_example = stopped-Ends 100 stopped_in_post refl posting_not_absent

-- the same with the pool of one worker, up to the callback
abbrev begun_pool : ThreadPool
begun_pool = record {
  workers = busy 7 ∷ [];
  task_queue = [];
  running = true;
  ones_due = 1;
  all_due = false;
  posted = 7 ∷ [];
  begun = 7 ∷ [];
  ended = [];
}

abbrev in_callback : TimedPool
in_callback = record {
  scheduler = record about_to_post { phase = checking; handed = early ∷ [] };
  pool = begun_pool;
}

in_callback-Ticks : Ticks (new_timed_pool 100 1) in_callback
unfolding start push_timer notify_one check_running take_turn round schedule_once push hand_over
    ThreadPool.create ThreadPool.post_task ThreadPool.fetch
in_callback-Ticks =
    then_tick
      (then_tick
        (then_tick
          (then_tick
            (then_tick
              (then_tick
                (then_tick
                  (then_tick (then_tick no_tick (acts (starts refl refl) tt))
                    (acts (Thread.schedules 5 7 (omega arith)) tt))
                  (acts (Thread.pushes [] [] early refl) tt))
                (acts (notifies_one 0 refl) tt))
              (acts (Thread.ticks 5) tt))
            (acts (Thread.checks refl) tt))
          (acts (turns [] [] early refl refl tt) tt))
        (hands_over early refl refl))
      (works (ThreadPool.begins [] [] 7 [] refl refl) tt)

Ticks-fifo_example :
    (begun_pool.begun ++ begun_pool.task_queue ++ in_hand in_callback.scheduler.phase
      ≡ callbacks (early ∷ []))
    × Punctual in_callback.scheduler.timers.posted
Ticks-fifo_example = Ticks-fifo 100 1 in_callback-Ticks
