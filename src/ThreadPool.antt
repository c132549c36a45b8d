-- ===== src/ThreadPool.antt =====
-- ThreadPool: include/threading/thread_pool.hpp. A task is a number that names a callback. The steps are
-- the critical sections under `queue_mutex_`, the calls of `notify_one` and `notify_all` behind them, and the
-- ends of callbacks, in any order that the lock and the scheduler allow. A wait may also end by itself.
pub mod Order
pub mod Shutdown
mod Tests
use nebula_toolkit.Prelude.{
  ℕ, zero, suc, ◌+◌, ◌≡◌, ◌⊎◌, Bool, true, false, not, ◌&&◌, ◌||◌, List, [], ◌∷◌, ◌++◌,
  if◌then◌else◌,
}

abbrev pub Task : Type 0
Task = ℕ

-- a thread of `WorkerLoop`: about to take the lock, or to take it again after a notification; asleep in
-- `cv_.wait`; in a callback; or returned
pub data Worker : Type 0 where
  ready waiting : Worker
  busy : Task → Worker
  returned : Worker

-- The members; how many calls of `PostTask` are about to call `notify_one`, and whether the destructor is about to
-- call `notify_all`; and what has been posted, begun and ended so far, in order.
pub record ThreadPool : Type 0 where
  pub workers : List Worker
  pub task_queue : List Task
  pub running : Bool
  pub ones_due : ℕ
  pub all_due : Bool
  pub posted : List Task
  pub begun : List Task
  pub ended : List Task

abbrev pub new_workers : ℕ → List Worker
new_workers zero = []
new_workers (suc n) = ready ∷ new_workers n

unfoldable pub create : ℕ → ThreadPool
create thread_count = record {
  workers = new_workers thread_count;
  task_queue = [];
  running = true;
  ones_due = 0;
  all_due = false;
  posted = [];
  begun = [];
  ended = [];
}

abbrev pub push_task : ThreadPool → Task → ThreadPool
push_task p cb_task = record p {
  task_queue = p.task_queue ++ cb_task ∷ [];
  posted = p.posted ++ cb_task ∷ [];
}

-- `PostTask` up to the end of the critical section
unfoldable pub post_task : ThreadPool → Task → ThreadPool
post_task p cb_task = record (push_task p cb_task) { ones_due = p.ones_due + 1 }

unfoldable pub push_tasks : ThreadPool → List Task → ThreadPool
push_tasks p [] = p
push_tasks p (cb_task ∷ cb_tasks) = push_tasks (push_task p cb_task) cb_tasks

abbrev pub wake_all : List Worker → List Worker
wake_all [] = []
wake_all (waiting ∷ ws) = ready ∷ wake_all ws
wake_all (w ∷ ws) = w ∷ wake_all ws

-- `notify_all` of the destructor
unfoldable pub notify_all : ThreadPool → ThreadPool
notify_all p = record p { workers = wake_all p.workers; all_due = false }

-- `PostTask(std::vector<CallBack> &&)`: all in one critical section, `notify_all` included
unfoldable pub post_tasks : ThreadPool → List Task → ThreadPool
unfolding push_tasks
post_tasks p cb_tasks =
    let full = push_tasks p cb_tasks in record full { workers = wake_all full.workers }

-- the critical section of the destructor
unfoldable pub stop : ThreadPool → ThreadPool
stop p = record p { running = false; all_due = true }

abbrev pub empty : List Task → Bool
empty [] = true
empty (t ∷ ts) = false

-- What the critical section of `WorkerLoop` does: it goes on waiting, returns from the loop, or takes a
-- task off the queue; `undefined` is `front` of an empty queue.
pub data Fetch : Type 0 where
  wait leave undefined : Fetch
  got : Task → List Task → Fetch

abbrev pub front : List Task → Fetch
front [] = undefined
front (t ∷ q) = got t q

abbrev pub fetch_from : Bool → List Task → Fetch
fetch_from running queue =
    if not (not running || not (empty queue))
    then wait
    else if not running && empty queue
    then leave
    else front queue

unfoldable pub fetch : ThreadPool → Fetch
fetch p = fetch_from p.running p.task_queue

-- a worker's state after a step of it, `ws` and `vs` being the workers before and after it
abbrev pub begin : ThreadPool → List Worker → List Worker → Task → List Task → ThreadPool
begin p ws vs t q = record p {
  workers = ws ++ busy t ∷ vs;
  task_queue = q;
  begun = p.begun ++ t ∷ [];
}

abbrev pub finish : ThreadPool → List Worker → List Worker → Task → ThreadPool
finish p ws vs t = record p { workers = ws ++ ready ∷ vs; ended = p.ended ++ t ∷ [] }

-- how many workers wait
abbrev pub waits : List Worker → ℕ
waits [] = 0
waits (waiting ∷ ws) = suc (waits ws)
waits (w ∷ ws) = waits ws

-- Anybody may post before the destructor has begun, and then only a callback that a worker carries out.
abbrev pub MayPost : ThreadPool → Type 0
MayPost p =
    (p.running ≡ true)
    ⊎ ((ws : List Worker) × (vs : List Worker) × (t : Task) × (p.workers ≡ ws ++ busy t ∷ vs))

-- A `notify_one` wakes one of those that wait, if there is one; it may come at any time after its post. The
-- pool is destroyed once.
pub data Step (p : ThreadPool) : ThreadPool → Type 0 where
  posts : (t : Task) → MayPost p → Step p (post_task p t)
  posts_all : (ts : List Task) → MayPost p → Step p (post_tasks p ts)
  notifies_one :
      (n : ℕ) (ws vs : List Worker)
      → p.ones_due ≡ n + 1
      → p.workers ≡ ws ++ waiting ∷ vs
      → Step p (record p { workers = ws ++ ready ∷ vs; ones_due = n })
  notifies_none :
      (n : ℕ) → p.ones_due ≡ n + 1 → waits p.workers ≡ 0 → Step p (record p { ones_due = n })
  stops : p.running ≡ true → Step p (stop p)
  notifies_all : p.all_due ≡ true → Step p (notify_all p)
  wakes :
      (ws vs : List Worker)
      → p.workers ≡ ws ++ waiting ∷ vs
      → Step p (record p { workers = ws ++ ready ∷ vs })
  sleeps :
      (ws vs : List Worker)
      → p.workers ≡ ws ++ ready ∷ vs
      → fetch p ≡ wait
      → Step p (record p { workers = ws ++ waiting ∷ vs })
  begins :
      (ws vs : List Worker) (t : Task) (q : List Task)
      → p.workers ≡ ws ++ ready ∷ vs
      → fetch p ≡ got t q
      → Step p (begin p ws vs t q)
  finishes :
      (ws vs : List Worker) (t : Task) → p.workers ≡ ws ++ busy t ∷ vs → Step p (finish p ws vs t)
  leaves :
      (ws vs : List Worker)
      → p.workers ≡ ws ++ ready ∷ vs
      → fetch p ≡ leave
      → Step p (record p { workers = ws ++ returned ∷ vs })

pub data Reach (n : ℕ) : ThreadPool → Type 0 where
  start : Reach n (create n)
  later : {p p' : ThreadPool} → Reach n p → Step p p' → Reach n p'
