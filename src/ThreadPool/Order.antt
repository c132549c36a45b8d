-- ===== src/ThreadPool/Order.antt =====
-- The order and the bookkeeping of the tasks of a pool.
use mathlib.Core.List.{append_assoc}
use nebula_toolkit.Prelude.{
  ℕ, zero, suc, ◌+◌, ◌≡◌, ◌∙◌, refl, sym, ap, Bool, true, false, List, [], ◌∷◌, ◌++◌, arith,
  if◌then◌else◌, ◌==◌,
}
use nebula_toolkit.ThreadPool.{
  ThreadPool, Task, Worker, waiting, busy, returned, fetch_from, got, leave, fetch, create,
  push_task, push_tasks, post_task, post_tasks, wake_all, notify_all, stop, Step, posts, posts_all,
  notifies_one, notifies_none, stops, notifies_all, wakes, sleeps, begins, finishes, leaves, Reach,
  start, later, new_workers, ready, wait,
}

fetch_from-got :
    (running : Bool) (ts : List Task) (t : Task) (q : List Task)
    → fetch_from running ts ≡ got t q
    → ts ≡ t ∷ q
fetch_from-got true [] t q e = absurd (cc)
fetch_from-got false [] t q e = absurd (cc)
fetch_from-got true (u ∷ ts) t q e = cc
fetch_from-got false (u ∷ ts) t q e = cc

fetch_from-leave :
    (running : Bool) (ts : List Task)
    → fetch_from running ts ≡ leave
    → (running ≡ false) × (ts ≡ [])
fetch_from-leave true [] e = absurd (cc)
fetch_from-leave false [] e = (refl, refl)
fetch_from-leave true (u ∷ ts) e = absurd (cc)
fetch_from-leave false (u ∷ ts) e = absurd (cc)

fetch_from-wait :
    (running : Bool) (ts : List Task) → fetch_from running ts ≡ wait → (running ≡ true) × (ts ≡ [])
fetch_from-wait true [] e = (refl, refl)
fetch_from-wait false [] e = absurd (cc)
fetch_from-wait true (u ∷ ts) e = absurd (cc)
fetch_from-wait false (u ∷ ts) e = absurd (cc)

pub fetch-wait : (p : ThreadPool) → fetch p ≡ wait → (p.running ≡ true) × (p.task_queue ≡ [])
unfolding fetch
fetch-wait p e = fetch_from-wait p.running p.task_queue e

pub fetch-got :
    (p : ThreadPool) (t : Task) (q : List Task) → fetch p ≡ got t q → p.task_queue ≡ t ∷ q
unfolding fetch
fetch-got p t q e = fetch_from-got p.running p.task_queue t q e

pub fetch-leave : (p : ThreadPool) → fetch p ≡ leave → (p.running ≡ false) × (p.task_queue ≡ [])
unfolding fetch
fetch-leave p e = fetch_from-leave p.running p.task_queue e

-- Every task is begun in the order of the posts.
abbrev InOrder : ThreadPool → Type 0
InOrder p = p.begun ++ p.task_queue ≡ p.posted

push_task-InOrder : (p : ThreadPool) (t : Task) → InOrder p → InOrder (push_task p t)
push_task-InOrder p t h = sym (append_assoc p.begun p.task_queue (t ∷ [])) ∙ ap (λ u. u ++ t ∷ []) h

push_tasks-InOrder : (ts : List Task) (p : ThreadPool) → InOrder p → InOrder (push_tasks p ts)
unfolding push_tasks
push_tasks-InOrder [] p h = h
push_tasks-InOrder (t ∷ ts) p h = push_tasks-InOrder ts (push_task p t) (push_task-InOrder p t h)

Step-InOrder : {p p' : ThreadPool} → Step p p' → InOrder p → InOrder p'
unfolding stop post_task post_tasks notify_all
Step-InOrder {p} (posts t r) h = push_task-InOrder p t h
Step-InOrder {p} (posts_all ts r) h = push_tasks-InOrder ts p h
Step-InOrder (notifies_one n ws vs d e) h = h
Step-InOrder (notifies_none n d e) h = h
Step-InOrder (stops r) h = h
Step-InOrder (notifies_all d) h = h
Step-InOrder (wakes ws vs e) h = h
Step-InOrder (sleeps ws vs e f) h = h
Step-InOrder {p} (begins ws vs t q e f) h =
    append_assoc p.begun (t ∷ []) q ∙ ap (λ u. p.begun ++ u) (sym (fetch-got p t q f)) ∙ h
Step-InOrder (finishes ws vs t e) h = h
Step-InOrder (leaves ws vs e f) h = h

-- In every state that a pool can reach, the tasks begun, then those in the queue, are the tasks posted
-- in the order of the posts: tasks begin first in, first out, and none is lost or begun twice.
pub Reach-fifo : {n : ℕ} {p : ThreadPool} → Reach n p → p.begun ++ p.task_queue ≡ p.posted
unfolding create
Reach-fifo start = refl
Reach-fifo (later r s) = Step-InOrder s (Reach-fifo r)

-- how often the task is in the list, and in how many workers' hands it is
abbrev pub count : Task → List Task → ℕ
count t [] = 0
count t (u ∷ us) = (if u == t then 1 else 0) + count t us

abbrev pub held : List Worker → List Task
held [] = []
held (ready ∷ ws) = held ws
held (waiting ∷ ws) = held ws
held (busy t ∷ ws) = t ∷ held ws
held (returned ∷ ws) = held ws

pub count-append : (t : Task) (us vs : List Task) → count t (us ++ vs) ≡ count t us + count t vs
count-append t [] vs = omega arith
count-append t (u ∷ us) vs = omega (arith, count-append t us vs)

held-append : (ws vs : List Worker) → held (ws ++ vs) ≡ held ws ++ held vs
held-append [] vs = refl
held-append (ready ∷ ws) vs = held-append ws vs
held-append (waiting ∷ ws) vs = held-append ws vs
held-append (busy t ∷ ws) vs = ap (λ u. t ∷ u) (held-append ws vs)
held-append (returned ∷ ws) vs = held-append ws vs

count-held :
    (t : Task) (ws vs : List Worker)
    → count t (held (ws ++ vs)) ≡ count t (held ws) + count t (held vs)
count-held t ws vs = rw (held-append ws vs) (count-append t (held ws) (held vs))

-- Every task begun has ended, or is in the hands of one worker.
abbrev Balanced : Task → ThreadPool → Type 0
Balanced t p = count t p.ended + count t (held p.workers) ≡ count t p.begun

pub push_tasks-kept :
    (ts : List Task) (p : ThreadPool)
    → ((push_tasks p ts).workers ≡ p.workers)
      × ((push_tasks p ts).ended ≡ p.ended)
      × ((push_tasks p ts).begun ≡ p.begun)
      × ((push_tasks p ts).running ≡ p.running)
      × ((push_tasks p ts).ones_due ≡ p.ones_due)
      × ((push_tasks p ts).all_due ≡ p.all_due)
unfolding push_tasks
push_tasks-kept [] p = (refl, refl, refl, refl, refl, refl)
push_tasks-kept (t ∷ ts) p = push_tasks-kept ts (push_task p t)

held-wake_all : (ws : List Worker) → held (wake_all ws) ≡ held ws
held-wake_all [] = refl
held-wake_all (ready ∷ ws) = held-wake_all ws
held-wake_all (waiting ∷ ws) = held-wake_all ws
held-wake_all (busy t ∷ ws) = ap (λ u. t ∷ u) (held-wake_all ws)
held-wake_all (returned ∷ ws) = held-wake_all ws

post_tasks-Balanced :
    (t : Task) (ts : List Task) (p : ThreadPool) → Balanced t p → Balanced t (post_tasks p ts)
unfolding post_tasks
post_tasks-Balanced t ts p h =
    let (same, ended, begun, on, ones, all) = push_tasks-kept ts p in
    rw (held-wake_all, same, ended, begun) h

Step-Balanced : (t : Task) {p p' : ThreadPool} → Step p p' → Balanced t p → Balanced t p'
unfolding stop post_task notify_all
Step-Balanced t {p} (posts u r) h = h
Step-Balanced t {p} (posts_all ts r) h = post_tasks-Balanced t ts p h
Step-Balanced t {p} (notifies_one n ws vs d e) h =
    let e' = ap (λ x. count t (held x)) e in
    omega (arith, h, e', count-held t ws (waiting ∷ vs), count-held t ws (ready ∷ vs))
Step-Balanced t (notifies_none n d e) h = h
Step-Balanced t (stops r) h = h
Step-Balanced t {p} (notifies_all d) h = rw (held-wake_all p.workers) h
Step-Balanced t {p} (wakes ws vs e) h =
    let e' = ap (λ x. count t (held x)) e in
    omega (arith, h, e', count-held t ws (waiting ∷ vs), count-held t ws (ready ∷ vs))
Step-Balanced t {p} (sleeps ws vs e f) h =
    let e' = ap (λ x. count t (held x)) e in
    omega (arith, h, e', count-held t ws (ready ∷ vs), count-held t ws (waiting ∷ vs))
Step-Balanced t {p} (begins ws vs u q e f) h =
    let e' = ap (λ x. count t (held x)) e in
    omega (
      arith,
      h,
      e',
      count-held t ws (ready ∷ vs),
      count-held t ws (busy u ∷ vs),
      count-append t p.begun (u ∷ []),
    )
Step-Balanced t {p} (finishes ws vs u e) h =
    let e' = ap (λ x. count t (held x)) e in
    omega (
      arith,
      h,
      e',
      count-held t ws (ready ∷ vs),
      count-held t ws (busy u ∷ vs),
      count-append t p.ended (u ∷ []),
    )
Step-Balanced t {p} (leaves ws vs e f) h =
    let e' = ap (λ x. count t (held x)) e in
    omega (arith, h, e', count-held t ws (ready ∷ vs), count-held t ws (returned ∷ vs))

held-new_workers : (n : ℕ) → held (new_workers n) ≡ []
held-new_workers zero = refl
held-new_workers (suc n) = held-new_workers n

-- In every state that a pool can reach, every task begun has ended or is in the hands of one worker,
-- once for each time that it was begun.
pub Reach-balanced :
    {n : ℕ} {p : ThreadPool} (t : Task)
    → Reach n p
    → count t p.ended + count t (held p.workers) ≡ count t p.begun
unfolding create
Reach-balanced {n} t start = rw (held-new_workers n) (omega arith)
Reach-balanced t (later r s) = Step-Balanced t s (Reach-balanced t r)
