-- ===== src/TimerScheduler/Thread/Pool.antt =====
-- The scheduler with the pool that it posts to, `thread_pool_`, to which nobody else posts.
use mathlib.Core.List.{append-nil}
use nebula_toolkit.Prelude.{ℕ, ◌≡◌, ◌∙◌, refl, sym, ap, inl, true, List, [], ◌∷◌, ◌++◌}
use nebula_toolkit.ThreadPool
use nebula_toolkit.ThreadPool.Order.{Reach-fifo}
use nebula_toolkit.ThreadPool.{ThreadPool, post_task, Reach}
use nebula_toolkit.TimerScheduler.Cancelling.{Punctual, Steps-Punctual}
use nebula_toolkit.TimerScheduler.Thread.Refine.{taken, tasks_of, Acts-Steps}
use nebula_toolkit.TimerScheduler.Thread.{
  Phase, Scheduler, new_scheduler, absent, checking, entering, waiting, sleeping, posting, ended,
  Act, Acts, none_yet, later, posts, ticks, schedules, pushes, cancels, starts, stops, notifies_one,
  notifies_all, joins, checks, rests, turns, wakes, start, stop, notify_all, push_timer, notify_one,
  check_running, wait_for_task, take_turn,
}
use nebula_toolkit.TimerScheduler.{TimerTask}

pub record TimedPool : Type 0 where
  pub scheduler : Scheduler
  pub pool : ThreadPool

abbrev pub new_timed_pool : ℕ → ℕ → TimedPool
new_timed_pool now thread_count = record {
  scheduler = new_scheduler now;
  pool = ThreadPool.create thread_count;
}

-- `PostTask` in the thread of the scheduler: the task leaves its hands for the queue of the pool
unfoldable pub hand_over : TimedPool → TimerTask → TimedPool
hand_over s t = record {
  scheduler = record s.scheduler { phase = checking; handed = t ∷ s.scheduler.handed };
  pool = post_task s.pool t.callback;
}

-- an act that posts nothing
abbrev pub IsNoPost : {s s' : Scheduler} → Act s s' → Type 0
IsNoPost (posts t at) = ⊥
IsNoPost _ = Unit {0}

-- a step of the pool that posts nothing
abbrev pub IsWork : {p p' : ThreadPool} → ThreadPool.Step p p' → Type 0
IsWork (ThreadPool.posts t on) = ⊥
IsWork (ThreadPool.posts_all ts on) = ⊥
IsWork _ = Unit {0}

-- The pool is destroyed after the thread has been joined, so that it runs while the thread posts.
pub data Tick (s : TimedPool) : TimedPool → Type 0 where
  acts : {x : Scheduler} (a : Act s.scheduler x) → IsNoPost a → Tick s (record s { scheduler = x })
  hands_over :
      (t : TimerTask)
      → s.scheduler.phase ≡ posting t
      → s.pool.running ≡ true
      → Tick s (hand_over s t)
  works :
      {p : ThreadPool} (a : ThreadPool.Step s.pool p) → IsWork a → Tick s (record s { pool = p })

pub data Ticks (s : TimedPool) : TimedPool → Type 0 where
  no_tick : Ticks s s
  then_tick : {s' s'' : TimedPool} → Ticks s s' → Tick s' s'' → Ticks s s''

-- the callbacks of tasks that are listed with the last one first
abbrev pub callbacks : List TimerTask → List ℕ
callbacks [] = []
callbacks (t ∷ ts) = callbacks ts ++ t.callback ∷ []

-- the callback of the task that the thread is about to hand over
abbrev pub in_hand : Phase → List ℕ
in_hand (posting t) = t.callback ∷ []
in_hand p = []

-- What the two parts have reached on their own, and what was posted from one to the other.
record Joined (now n : ℕ) (s : TimedPool) : Type 0 where
  acted : Acts (new_scheduler now) s.scheduler
  reached : Reach n s.pool
  posted : s.pool.posted ≡ callbacks s.scheduler.handed

handed_kept : {s s' : Scheduler} (a : Act s s') → IsNoPost a → s'.handed ≡ s.handed
unfolding start stop notify_all push_timer notify_one check_running wait_for_task take_turn
handed_kept (posts t at) q = absurd q
handed_kept (ticks n) q = refl
handed_kept (schedules delay cb p) q = refl
handed_kept (pushes es fs t e) q = refl
handed_kept (cancels id) q = refl
handed_kept (starts idle at) q = refl
handed_kept (stops on) q = refl
handed_kept (notifies_one n due) q = refl
handed_kept (notifies_all due) q = refl
handed_kept (joins off told at) q = refl
handed_kept (checks at) q = refl
handed_kept (rests at e) q = refl
handed_kept (turns us vs t at e top) q = refl
handed_kept (wakes until at due) q = refl

posted_kept : {p p' : ThreadPool} (a : ThreadPool.Step p p') → IsWork a → p'.posted ≡ p.posted
unfolding ThreadPool.stop ThreadPool.notify_all
posted_kept (ThreadPool.posts t on) q = absurd q
posted_kept (ThreadPool.posts_all ts on) q = absurd q
posted_kept (ThreadPool.notifies_one n ws vs due e) q = refl
posted_kept (ThreadPool.notifies_none n due e) q = refl
posted_kept (ThreadPool.stops on) q = refl
posted_kept (ThreadPool.notifies_all due) q = refl
posted_kept (ThreadPool.wakes ws vs e) q = refl
posted_kept (ThreadPool.sleeps ws vs e f) q = refl
posted_kept (ThreadPool.begins ws vs t queue e f) q = refl
posted_kept (ThreadPool.finishes ws vs t e) q = refl
posted_kept (ThreadPool.leaves ws vs e f) q = refl

Act-Joined :
    {now n : ℕ} {s : TimedPool} {x : Scheduler} (a : Act s.scheduler x)
    → IsNoPost a
    → Joined now n s
    → Joined now n (record s { scheduler = x })
Act-Joined a q j = record {
  acted = later j.acted a;
  reached = j.reached;
  posted = j.posted ∙ ap callbacks (sym (handed_kept a q));
}

Step-Joined :
    {now n : ℕ} {s : TimedPool} {p : ThreadPool} (a : ThreadPool.Step s.pool p)
    → IsWork a
    → Joined now n s
    → Joined now n (record s { pool = p })
Step-Joined a q j = record {
  acted = j.acted;
  reached = ThreadPool.later j.reached a;
  posted = posted_kept a q ∙ j.posted;
}

Tick-Joined : {now n : ℕ} {s s' : TimedPool} → Tick s s' → Joined now n s → Joined now n s'
unfolding hand_over post_task
Tick-Joined (acts a q) j = Act-Joined a q j
Tick-Joined (works a q) j = Step-Joined a q j
Tick-Joined (hands_over t at on) j = record {
  acted = later j.acted (posts t at);
  reached = ThreadPool.later j.reached (ThreadPool.posts t.callback (inl on));
  posted = ap (λ q. q ++ t.callback ∷ []) j.posted;
}

Ticks-Joined : {now n : ℕ} {s : TimedPool} → Ticks (new_timed_pool now n) s → Joined now n s
unfolding ThreadPool.create
Ticks-Joined no_tick = record { acted = none_yet; reached = ThreadPool.start; posted = refl }
Ticks-Joined (then_tick r a) = Tick-Joined a (Ticks-Joined r)

callbacks-taken :
    (p : Phase) (handed : List TimerTask)
    → callbacks (taken p handed) ≡ callbacks handed ++ in_hand p
callbacks-taken (posting t) handed = refl
callbacks-taken absent handed = sym (append-nil (callbacks handed))
callbacks-taken checking handed = sym (append-nil (callbacks handed))
callbacks-taken entering handed = sym (append-nil (callbacks handed))
callbacks-taken waiting handed = sym (append-nil (callbacks handed))
callbacks-taken (sleeping until) handed = sym (append-nil (callbacks handed))
callbacks-taken ended handed = sym (append-nil (callbacks handed))

-- Whatever the callers, the thread of the scheduler and the workers of its pool do from the start on: the
-- callbacks that the workers have begun, those in the pool's queue, and the one in the thread's hands are,
-- in this order, those of the tasks that were taken off the timer queue, in the order in which they were
-- taken off, and none was taken off before its time.
pub Ticks-fifo :
    (now n : ℕ) {s : TimedPool}
    → Ticks (new_timed_pool now n) s
    → (s.pool.begun ++ s.pool.task_queue ++ in_hand s.scheduler.phase
        ≡ callbacks (tasks_of s.scheduler.timers.posted))
      × Punctual s.scheduler.timers.posted
Ticks-fifo now n {s} r =
    let j = Ticks-Joined r in
    let (steps, same) = Acts-Steps j.acted in
    (
      ap (λ q. q ++ in_hand s.scheduler.phase) (Reach-fifo j.reached ∙ j.posted)
          ∙ sym (callbacks-taken s.scheduler.phase s.scheduler.handed)
          ∙ ap callbacks same,
      Steps-Punctual steps,
    )
