-- ===== src/ThreadPool/Shutdown.antt =====
-- The end of a pool: its workers return once the queue is empty, and not before.
pub mod Workers
pub mod Progress
use mathlib.Core.List.{append-nil}
use nebula_toolkit.Prelude.{
  ℕ, zero, suc, ◌+◌, ◌*◌, ◌<◌, ◌≤◌, ◌≡◌, ◌⊎◌, inl, inr, ◌∙◌, refl, sym, ap, Bool, true, false, List,
  [], ◌∷◌, ◌++◌, arith, length, length-append,
}
use nebula_toolkit.ThreadPool.Order.{
  count, held, fetch-got, fetch-leave, fetch-wait, push_tasks-kept, Reach-fifo, Reach-balanced,
}
use nebula_toolkit.ThreadPool.Shutdown.Workers.{
  returns, returns-append, returns-wake_all, returns-new_workers, length-wake_all, returns_below,
  weight, weight-append, weight-wake_all,
}
use nebula_toolkit.ThreadPool.{
  ThreadPool, Task, Worker, ready, waiting, busy, returned, got, leave, fetch, create, push_tasks,
  post_task, post_tasks, wake_all, notify_all, stop, MayPost, Step, posts, posts_all, notifies_one,
  notifies_none, stops, notifies_all, wakes, sleeps, begins, finishes, leaves, Reach, start, later,
}

abbrev due : Bool → ℕ
due true = 1
due false = 0

-- how far a stopped pool is from its end: two for each task queued, the weights of the workers, and one for each
-- notification that is due
abbrev pub measure : ThreadPool → ℕ
measure p = 2 * length p.task_queue + weight p.workers + p.ones_due + due p.all_due

-- a step that posts nothing
abbrev pub IsNoPost : {p p' : ThreadPool} → Step p p' → Type 0
IsNoPost (posts t may) = ⊥
IsNoPost (posts_all ts may) = ⊥
IsNoPost _ = Unit {0}

-- Every step of a stopped pool that posts nothing lowers the measure and leaves the pool stopped.
pub stopped-shrinks :
    {p p' : ThreadPool}
    → p.running ≡ false
    → (a : Step p p') → IsNoPost a
    → (measure p' < measure p) × (p'.running ≡ false)
unfolding notify_all
stopped-shrinks s (posts t r) quiet = absurd quiet
stopped-shrinks s (posts_all ts r) quiet = absurd quiet
stopped-shrinks {p} s (notifies_one n ws vs d e) quiet =
    let e' = ap weight e in
    (omega (arith, e', d, weight-append ws (waiting ∷ vs), weight-append ws (ready ∷ vs)), s)
stopped-shrinks {p} s (notifies_none n d e) quiet = (omega (arith, d), s)
stopped-shrinks s (stops r) quiet = absurd (let no : false ≡ true = sym s ∙ r in cc)
stopped-shrinks {p} s (notifies_all d) quiet =
    let one = ap due d in (omega (arith, one, weight-wake_all p.workers), s)
stopped-shrinks {p} s (wakes ws vs e) quiet =
    let e' = ap weight e in
    (omega (arith, e', weight-append ws (waiting ∷ vs), weight-append ws (ready ∷ vs)), s)
stopped-shrinks {p} s (sleeps ws vs e f) quiet =
    absurd (let on = fetch-wait p f in let no : false ≡ true = sym s ∙ on.0 in cc)
stopped-shrinks {p} s (begins ws vs t q e f) quiet =
    let e' = ap weight e in
    let l = ap (λ x. length x) (fetch-got p t q f) in
    (omega (arith, e', l, weight-append ws (ready ∷ vs), weight-append ws (busy t ∷ vs)), s)
stopped-shrinks {p} s (finishes ws vs t e) quiet =
    let e' = ap weight e in
    (omega (arith, e', weight-append ws (ready ∷ vs), weight-append ws (busy t ∷ vs)), s)
stopped-shrinks {p} s (leaves ws vs e f) quiet =
    let e' = ap weight e in
    (omega (arith, e', weight-append ws (ready ∷ vs), weight-append ws (returned ∷ vs)), s)

-- A worker returns only when the pool is stopped and the queue empty; as long as one has not returned, the
-- callback in its hands may post again.
abbrev pub Orderly : ThreadPool → Type 0
Orderly p =
    (returns p.workers ≡ 0)
    ⊎ ((p.running ≡ false) × ((returns p.workers < length p.workers) ⊎ (p.task_queue ≡ [])))

-- a step that leaves as many workers returned and as many in all, and neither starts the pool again nor
-- fills an empty queue
same-Orderly :
    (p p' : ThreadPool)
    → returns p'.workers ≡ returns p.workers
    → length p'.workers ≡ length p.workers
    → (p.running ≡ false → p'.running ≡ false)
    → (p.task_queue ≡ [] → p'.task_queue ≡ [])
    → Orderly p
    → Orderly p'
same-Orderly p p' r l off none_new (inl h) = inl (r ∙ h)
same-Orderly p p' r l off none_new (inr (s, inl h)) = inr (off s, inl (omega arith))
same-Orderly p p' r l off none_new (inr (s, inr q)) = inr (off s, inr (none_new q))

-- a step of one worker from `w` to `w'`, neither of which has returned
moved-Orderly :
    (p p' : ThreadPool) (ws vs : List Worker) (w w' : Worker)
    → returns (w ∷ vs) ≡ returns (w' ∷ vs)
    → p.workers ≡ ws ++ w ∷ vs
    → p'.workers ≡ ws ++ w' ∷ vs
    → (p.running ≡ false → p'.running ≡ false)
    → (p.task_queue ≡ [] → p'.task_queue ≡ [])
    → Orderly p
    → Orderly p'
moved-Orderly p p' ws vs w w' same e e' off none_new h =
    let a = ap returns e in
    let b = ap returns e' in
    let c = ap length e in
    let d = ap length e' in
    same-Orderly p p' (omega (arith, returns-append ws (w ∷ vs), returns-append ws (w' ∷ vs)))
      (omega (arith, length-append ws (w ∷ vs), length-append ws (w' ∷ vs))) off none_new h

posting-Orderly :
    (p p' : ThreadPool)
    → MayPost p
    → returns p'.workers ≡ returns p.workers
    → length p'.workers ≡ length p.workers
    → p'.running ≡ p.running
    → Orderly p
    → Orderly p'
posting-Orderly p p' may r l same (inl h) = inl (r ∙ h)
posting-Orderly p p' (inl on) r l same (inr (s, h)) =
    absurd (let no : true ≡ false = sym on ∙ s in cc)
posting-Orderly p p' (inr (ws, vs, t, e)) r l same (inr (s, h)) =
    let a = ap returns e in
    let c = ap length e in
    inr (
      same ∙ s,
      inl (
          omega (
            arith,
            returns-append ws (busy t ∷ vs),
            length-append ws (busy t ∷ vs),
            returns_below ws,
            returns_below vs,
          )),
    )

Step-Orderly : {p p' : ThreadPool} → Step p p' → Orderly p → Orderly p'
unfolding stop post_task post_tasks notify_all
Step-Orderly {p} {p'} (posts t may) h = posting-Orderly p p' may refl refl refl h
Step-Orderly {p} {p'} (posts_all ts may) h =
    let (same, ended, begun, on, ones, all) = push_tasks-kept ts p in
    posting-Orderly p p' may (returns-wake_all (push_tasks p ts).workers ∙ ap returns same)
      (length-wake_all (push_tasks p ts).workers ∙ ap length same) on h
Step-Orderly {p} {p'} (notifies_one n ws vs d e) h =
    moved-Orderly p p' ws vs waiting ready refl e refl (λ s. s) (λ q. q) h
Step-Orderly (notifies_none n d e) h = h
Step-Orderly {p} {p'} (stops r) h = same-Orderly p p' refl refl (λ s. refl) (λ q. q) h
Step-Orderly {p} {p'} (notifies_all d) h =
    same-Orderly p p' (returns-wake_all p.workers) (length-wake_all p.workers) (λ s. s) (λ q. q) h
Step-Orderly {p} {p'} (wakes ws vs e) h =
    moved-Orderly p p' ws vs waiting ready refl e refl (λ s. s) (λ q. q) h
Step-Orderly {p} {p'} (sleeps ws vs e f) h =
    moved-Orderly p p' ws vs ready waiting refl e refl (λ s. s) (λ q. q) h
Step-Orderly {p} {p'} (begins ws vs t q e f) h =
    moved-Orderly p p' ws vs ready (busy t) refl e refl (λ s. s)
      (λ none_queued. absurd (let no : [] ≡ t ∷ q = sym none_queued ∙ fetch-got p t q f in cc)) h
Step-Orderly {p} {p'} (finishes ws vs t e) h =
    moved-Orderly p p' ws vs (busy t) ready refl e refl (λ s. s) (λ q. q) h
Step-Orderly {p} {p'} (leaves ws vs e f) h = let (s, q) = fetch-leave p f in inr (s, inr q)

pub Reach-Orderly : {n : ℕ} {p : ThreadPool} → Reach n p → Orderly p
unfolding create
Reach-Orderly {n} start = inl (returns-new_workers n)
Reach-Orderly (later r s) = Step-Orderly s (Reach-Orderly r)

held-returns : (t : Task) (ws : List Worker) → count t (held ws) + returns ws ≤ length ws
held-returns t [] = omega arith
held-returns t (ready ∷ ws) = omega (arith, held-returns t ws)
held-returns t (waiting ∷ ws) = omega (arith, held-returns t ws)
held-returns t (busy u ∷ ws) = ground (arith, held-returns t ws)
held-returns t (returned ∷ ws) = omega (arith, held-returns t ws)

-- In a pool of at least one thread, when the destructor has joined them all, every task that was posted
-- has been carried out to its end, once for each time that it was posted.
pub Reach-drained :
    {n : ℕ} {p : ThreadPool} (t : Task)
    → Reach n p
    → 0 < length p.workers
    → returns p.workers ≡ length p.workers
    → count t p.ended ≡ count t p.posted
Reach-drained {n} {p} t r some_workers all = elim (Reach-Orderly r) [
  | inl none_back ↦ absurd (omega arith)
  | inr (s, inl not_all) ↦ absurd (omega arith)
  | inr (s, inr none_queued) ↦
      let posted : p.begun ≡ p.posted =
        sym (append-nil p.begun) ∙ ap (λ u. p.begun ++ u) (sym none_queued) ∙ Reach-fifo r in
      let posts = ap (count t) posted in
      omega (arith, posts, Reach-balanced t r, held-returns t p.workers)
]
