-- ===== src/ThreadPool/Tests.antt =====
-- A run of a pool of one thread, and the theorems about it at its states.
use nebula_toolkit.Prelude.{
  ◌≡◌, ◌<◌, ◌⊎◌, inl, inr, true, refl, false, [], ◌∷◌, ◌++◌, arith, length,
}
use nebula_toolkit.ThreadPool.Order.{count, Reach-fifo}
use nebula_toolkit.ThreadPool.Shutdown.{measure, stopped-shrinks, Reach-drained}
use nebula_toolkit.ThreadPool.Shutdown.Progress.{Proceeds, Reach-Proceeds}
use nebula_toolkit.ThreadPool.Shutdown.Workers.{returns}
use nebula_toolkit.ThreadPool.{
  ThreadPool, ready, waiting, posts, sleeps, notifies_all, notify_all, push_tasks, busy, returned,
  fetch, create, post_task, post_tasks, stop, Step, posts_all, stops, begins, finishes, leaves,
  Reach, start, later,
}

-- 7 and 8 are posted, 7 is begun, and the pool is stopped
abbrev stopped : ThreadPool
stopped = record {
  workers = busy 7 ∷ [];
  task_queue = 8 ∷ [];
  running = false;
  ones_due = 0;
  all_due = true;
  posted = 7 ∷ 8 ∷ [];
  begun = 7 ∷ [];
  ended = [];
}

stopped-Reach : Reach 1 stopped
unfolding create push_tasks post_tasks stop fetch
stopped-Reach =
    later
      (later (later start (posts_all (7 ∷ 8 ∷ []) (inl refl))) (begins [] [] 7 (8 ∷ []) refl refl))
      (stops refl)

Reach-fifo_example : stopped.begun ++ stopped.task_queue ≡ stopped.posted
Reach-fifo_example = Reach-fifo stopped-Reach

-- 7 ends
abbrev after_seven : ThreadPool
after_seven = record stopped { workers = ready ∷ []; ended = 7 ∷ [] }

seven_ends : Step stopped after_seven
seven_ends = finishes [] [] 7 refl

stopped-shrinks_example : (measure after_seven < measure stopped) × (after_seven.running ≡ false)
unfolding seven_ends
stopped-shrinks_example = stopped-shrinks refl seven_ends tt

-- A worker sleeps, 5 is posted, and nobody is notified yet.
abbrev asleep : ThreadPool
asleep = record {
  workers = waiting ∷ [];
  task_queue = 5 ∷ [];
  running = true;
  ones_due = 1;
  all_due = false;
  posted = 5 ∷ [];
  begun = [];
  ended = [];
}

asleep-Reach : Reach 1 asleep
unfolding create post_task fetch
asleep-Reach = later (later start (sleeps [] [] refl refl)) (posts 5 (inl refl))

Reach-Proceeds_example : (returns asleep.workers ≡ length asleep.workers) ⊎ Proceeds asleep
Reach-Proceeds_example = Reach-Proceeds asleep-Reach (omega arith) (inr (5, [], refl))

-- 8 is begun and ends, and the thread returns
abbrev joined : ThreadPool
joined = record {
  workers = returned ∷ [];
  task_queue = [];
  running = false;
  ones_due = 0;
  all_due = false;
  posted = 7 ∷ 8 ∷ [];
  begun = 7 ∷ 8 ∷ [];
  ended = 7 ∷ 8 ∷ [];
}

joined-Reach : Reach 1 joined
unfolding fetch notify_all
joined-Reach =
    later
      (later
        (later (later (later stopped-Reach seven_ends) (notifies_all refl))
          (begins [] [] 8 [] refl refl))
        (finishes [] [] 8 refl))
      (leaves [] [] refl refl)

Reach-drained_example : count 8 joined.ended ≡ count 8 joined.posted
Reach-drained_example = Reach-drained 8 joined-Reach (omega arith) refl
