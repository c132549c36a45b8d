-- ===== src/TimerScheduler/Thread.antt =====
-- The thread of the scheduler: `Start`, `Stop` and the loop of `RunScheduler` with its waits, on the
-- queue of `TimerScheduler`. A step is what a thread does under `mutex_`, or between two locks, or a call of
-- `notify_one` or `notify_all` behind the lock. No wait ends without a cause.
pub mod Refine
pub mod Stopping
pub mod Pool
pub mod Ending
use nebula_toolkit.Prelude.{
  ℕ, ◌+◌, ◌^◌, ◌≤◌, ◌<◌, ◌≡◌, Bool, true, false, List, [], ◌∷◌, ◌++◌, if◌then◌else◌, leb,
}
use nebula_toolkit.TimerScheduler.{
  TimerTask, TimerScheduler, contains, erase, create, schedule_once, push, cancel, IsTop, round,
}

-- Where the thread is: there is none, or it was joined; it is about to read `running_`; it has read `true` and waits
-- for the lock; it waits for a task, or until a time; it is about to post a task it has taken off the queue; its
-- function has returned.
pub data Phase : Type 0 where
  absent checking entering waiting : Phase
  sleeping : ℕ → Phase
  posting : TimerTask → Phase
  ended : Phase

-- `pushes_due` calls of `ScheduleOnce` are about to call `notify_one`, and with `stop_due` one of `Stop` is about
-- to call `notify_all`; `handed` are the tasks that `PostTask` got, the last one first.
pub record Scheduler : Type 0 where
  pub timers : TimerScheduler
  pub running : Bool
  pub phase : Phase
  pub pushes_due : ℕ
  pub stop_due : Bool
  pub handed : List TimerTask

abbrev pub new_scheduler : ℕ → Scheduler
new_scheduler now = record {
  timers = create now;
  running = false;
  phase = absent;
  pushes_due = 0;
  stop_due = false;
  handed = [];
}

-- what a notification does to the thread
abbrev pub notified : Phase → Phase
notified waiting = checking
notified (sleeping until) = checking
notified p = p

-- `Start`, where it starts a thread, and `Stop`: the store under the lock, and `notify_all`
unfoldable pub start : Scheduler → Scheduler
start s = record s { running = true; phase = checking }

unfoldable pub stop : Scheduler → Scheduler
stop s = record s { running = false; stop_due = true }

unfoldable pub notify_all : Scheduler → Scheduler
notify_all s = record s { phase = notified s.phase; stop_due = false }

-- `ScheduleOnce` from its lock on: the push, and `notify_one`
unfoldable pub push_timer : Scheduler → List TimerTask → TimerTask → List TimerTask → Scheduler
push_timer s es t fs = record s { timers = push s.timers es t fs; pushes_due = s.pushes_due + 1 }

unfoldable pub notify_one : Scheduler → ℕ → Scheduler
notify_one s due = record s { phase = notified s.phase; pushes_due = due }

-- the test of the loop
unfoldable pub check_running : Scheduler → Scheduler
check_running s = record s { phase = if s.running then entering else ended }

-- the wait for a task: it goes on where `running_` has become false
unfoldable pub wait_for_task : Scheduler → Scheduler
wait_for_task s = record s { phase = if s.running then waiting else checking }

-- the rest of the loop's body, where `t` is on top and `rest` are the other tasks
unfoldable pub take_turn : Scheduler → TimerTask → List TimerTask → Scheduler
take_turn s t rest = record s {
  timers = round s.timers t rest;
  phase =
      if contains t.task_id s.timers.canceled_ids
      then checking
      else if leb t.exec_time s.timers.now
      then posting t
      else sleeping t.exec_time;
}

-- A thread is started where none is left; a thread that can be joined would end the program.
pub data Act (s : Scheduler) : Scheduler → Type 0 where
  ticks : (n : ℕ) → Act s (record s { timers = record s.timers { now = n + s.timers.now } })
  schedules :
      (delay cb : ℕ)
      → s.timers.next_id + 1 < 2 ^ 64
      → Act s (record s { timers = schedule_once s.timers delay cb })
  pushes :
      (es fs : List TimerTask) (t : TimerTask)
      → s.timers.entering ≡ es ++ t ∷ fs
      → Act s (push_timer s es t fs)
  notifies_one : (n : ℕ) → s.pushes_due ≡ n + 1 → Act s (notify_one s n)
  cancels : (id : ℕ) → Act s (record s { timers = (cancel s.timers id).1 })
  starts : s.running ≡ false → s.phase ≡ absent → Act s (start s)
  stops : s.running ≡ true → Act s (stop s)
  notifies_all : s.stop_due ≡ true → Act s (notify_all s)
  joins :
      s.running ≡ false → s.stop_due ≡ false → s.phase ≡ ended → Act s (record s { phase = absent })
  checks : s.phase ≡ checking → Act s (check_running s)
  rests : s.phase ≡ entering → s.timers.timer_tasks ≡ [] → Act s (wait_for_task s)
  turns :
      (us vs : List TimerTask) (t : TimerTask)
      → s.phase ≡ entering
      → s.timers.timer_tasks ≡ us ++ t ∷ vs
      → IsTop t (us ++ vs)
      → Act s (take_turn s t (us ++ vs))
  wakes :
      (until : ℕ)
      → s.phase ≡ sleeping until
      → until ≤ s.timers.now
      → Act s (record s { phase = checking })
  posts :
      (t : TimerTask)
      → s.phase ≡ posting t
      → Act s (record s { phase = checking; handed = t ∷ s.handed })

pub data Acts (s : Scheduler) : Scheduler → Type 0 where
  none_yet : Acts s s
  later : {s' s'' : Scheduler} → Acts s s' → Act s' s'' → Acts s s''
