-- ===== src/TimerScheduler.antt =====
-- TimerScheduler: include/threading/timer_scheduler.hpp. The steps are the critical sections of
-- `ScheduleOnce`, `Cancel` and the loop of `RunScheduler`, and the passing of time, in any order. The
-- priority queue is the collection of its tasks, and `top` is any task of it that no other precedes, as
-- the order of equal elements is not specified. Time is in milliseconds; a delay so large that it does not fit
-- the clock's type is left out. The thread itself, which posts
-- a task after it has left the lock, is in Thread.
pub mod Cancelling
pub mod Thread
mod Tests
use nebula_toolkit.Prelude.{
  ℕ, zero, suc, ◌+◌, ◌^◌, ◌≤◌, ◌<◌, ◌≡◌, Bool, true, false, not, ◌&&◌, ◌||◌, List, [], ◌∷◌, ◌++◌,
  if◌then◌else◌, ◌==◌, leb, ltb,
}

pub record TimerTask : Type 0 where
  pub exec_time : ℕ
  pub callback : ℕ
  pub task_id : ℕ

-- `operator<`: the reverse of the order of the times
unfoldable pub precedes : TimerTask → TimerTask → Bool
precedes a b = ltb b.exec_time a.exec_time

-- a `std::unordered_set` as a list
abbrev pub contains : ℕ → List ℕ → Bool
contains id [] = false
contains id (i ∷ ids) = i == id || contains id ids

abbrev pub erase : ℕ → List ℕ → List ℕ
erase id [] = []
erase id (i ∷ ids) = let rest = erase id ids in if i == id then rest else i ∷ rest

-- The members, the clock, the tasks of the calls of `ScheduleOnce` that have their id and their time
-- but have not pushed yet, and the tasks taken off the queue to be posted to the pool, each with the
-- time of that, and those dropped.
pub record TimerScheduler : Type 0 where
  pub timer_tasks : List TimerTask
  pub canceled_ids : List ℕ
  pub next_id : ℕ
  pub now : ℕ
  pub entering : List TimerTask
  pub posted : List (ℕ × TimerTask)
  pub dropped : List TimerTask

abbrev pub create : ℕ → TimerScheduler
create now = record {
  timer_tasks = [];
  canceled_ids = [];
  next_id = 0;
  now = now;
  entering = [];
  posted = [];
  dropped = [];
}

-- `ScheduleOnce` up to the lock, and `timer_tasks_.push`
unfoldable pub schedule_once : TimerScheduler → ℕ → ℕ → TimerScheduler
schedule_once s delay_ms cb_task = record s {
  next_id = s.next_id + 1;
  entering =
      record { exec_time = s.now + delay_ms; callback = cb_task; task_id = s.next_id } ∷ s.entering;
}

unfoldable pub push : TimerScheduler → List TimerTask → TimerTask → List TimerTask → TimerScheduler
push s es t fs = record s { timer_tasks = t ∷ s.timer_tasks; entering = es ++ fs }

unfoldable pub cancel : TimerScheduler → ℕ → Bool × TimerScheduler
cancel s task_id = (
  true,
  record s {
    canceled_ids =
        if contains task_id s.canceled_ids then s.canceled_ids else task_id ∷ s.canceled_ids;
  },
)

-- no task of the list goes before `t`
abbrev pub IsTop : TimerTask → List TimerTask → Type 0
IsTop t [] = Unit {0}
IsTop t (u ∷ us) = (precedes t u ≡ false) × IsTop t us

-- The loop of `RunScheduler` when `top` is `t` and `rest` are the others: it drops a cancelled task, posts
-- one whose time has come, and else waits and looks again.
unfoldable pub round : TimerScheduler → TimerTask → List TimerTask → TimerScheduler
round s t rest =
    if contains t.task_id s.canceled_ids
    then (record s {
      timer_tasks = rest;
      canceled_ids = erase t.task_id s.canceled_ids;
      dropped = t ∷ s.dropped;
    })
    else if leb t.exec_time s.now
    then (record s { timer_tasks = rest; posted = (s.now, t) ∷ s.posted })
    else s

-- Ids are handed out below 2 ^ 64 only, so that `next_id_` does not wrap.
pub data Step (s : TimerScheduler) : TimerScheduler → Type 0 where
  ticks : (n : ℕ) → Step s (record s { now = n + s.now })
  schedules : (delay cb : ℕ) → s.next_id + 1 < 2 ^ 64 → Step s (schedule_once s delay cb)
  pushes :
      (es fs : List TimerTask) (t : TimerTask) → s.entering ≡ es ++ t ∷ fs → Step s (push s es t fs)
  cancels : (id : ℕ) → Step s (cancel s id).1
  rounds :
      (us vs : List TimerTask) (t : TimerTask)
      → s.timer_tasks ≡ us ++ t ∷ vs
      → IsTop t (us ++ vs)
      → Step s (round s t (us ++ vs))

pub data Steps (s : TimerScheduler) : TimerScheduler → Type 0 where
  none_yet : Steps s s
  later : {s' s'' : TimerScheduler} → Steps s s' → Step s' s'' → Steps s s''
