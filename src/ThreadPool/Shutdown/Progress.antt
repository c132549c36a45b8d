-- ===== src/ThreadPool/Shutdown/Progress.antt =====
-- That no worker of a pool waits for a notification that has been, or does not come.
use nebula_toolkit.Prelude.{
  ℕ, ◌+◌, ◌-◌, ◌<◌, ◌≤◌, ◌≡◌, ◌⊎◌, inl, inr, ◌∙◌, refl, sym, ap, true, false, min, List, [], ◌∷◌,
  ◌++◌, arith, length, length-append, Bool-cases,
}
use nebula_toolkit.ThreadPool.Order.{fetch-leave, fetch-wait}
use nebula_toolkit.ThreadPool.Shutdown.Workers.{
  returns, waits-append, waits_below, waits-wake_all, AwakeOne, none_awake, one_ready, one_works,
  one_awake, one_waits,
}
use nebula_toolkit.ThreadPool.Shutdown.{Reach-Orderly}
use nebula_toolkit.ThreadPool.{
  ThreadPool, Task, Worker, ready, waiting, busy, returned, fetch, create, push_tasks, post_task,
  post_tasks, waits, notify_all, stop, Step, posts, posts_all, notifies_one, notifies_none, stops,
  notifies_all, wakes, sleeps, begins, finishes, leaves, Reach, start, later,
}

-- While a worker waits, the pool runs, or the destructor is about to notify all.
Alert : ThreadPool → Type 0
Alert p = (p.running ≡ true) ⊎ ((p.all_due ≡ true) ⊎ (waits p.workers ≡ 0))

-- While a task is queued, a notification is due, or a worker does not wait, if there is one.
Fed : ThreadPool → Type 0
Fed p =
    (p.task_queue ≡ [])
    ⊎ ((0 < p.ones_due) ⊎ (waits p.workers + min 1 (length p.workers) ≤ length p.workers))

-- a step of one worker to a state in which it does not wait
moved_on :
    (us ws vs : List Worker) (w : Worker)
    → us ≡ ws ++ w ∷ vs
    → waits (w ∷ []) ≡ 0
    → waits us + min 1 (length us) ≤ length us
moved_on us ws vs w e up =
    let a = ap waits e in
    let l = ap length e in
    let b = waits-append ws (w ∷ vs) in
    let c = waits-append (w ∷ []) vs in
    omega (arith, length-append ws (w ∷ vs), waits_below ws, waits_below vs)

moved_waits :
    (us us' ws vs : List Worker) (w w' : Worker)
    → us ≡ ws ++ w ∷ vs
    → us' ≡ ws ++ w' ∷ vs
    → waits (w' ∷ vs) ≤ waits (w ∷ vs)
    → waits us ≡ 0
    → waits us' ≡ 0
moved_waits us us' ws vs w w' e e' less none_waits =
    let a = ap waits e in
    let b = ap waits e' in omega (arith, waits-append ws (w ∷ vs), waits-append ws (w' ∷ vs))

moved-Alert :
    (p p' : ThreadPool) (ws vs : List Worker) (w w' : Worker)
    → p.workers ≡ ws ++ w ∷ vs
    → p'.workers ≡ ws ++ w' ∷ vs
    → waits (w' ∷ vs) ≤ waits (w ∷ vs)
    → p'.running ≡ p.running
    → p'.all_due ≡ p.all_due
    → Alert p
    → Alert p'
unfolding Alert
moved-Alert p p' ws vs w w' e e' less r d (inl on) = inl (r ∙ on)
moved-Alert p p' ws vs w w' e e' less r d (inr (inl all)) = inr (inl (d ∙ all))
moved-Alert p p' ws vs w w' e e' less r d (inr (inr none_waits)) =
    inr (inr (moved_waits p.workers p'.workers ws vs w w' e e' less none_waits))

Step-Alert : {p p' : ThreadPool} → Step p p' → Alert p → Alert p'
unfolding Alert stop post_task post_tasks notify_all
Step-Alert (posts t may) h = h
Step-Alert {p} {p'} (posts_all ts may) h = inr (inr (waits-wake_all (push_tasks p ts).workers))
Step-Alert {p} {p'} (notifies_one n ws vs d e) h =
    moved-Alert p p' ws vs waiting ready e refl (omega arith) refl refl h
Step-Alert (notifies_none n d e) h = h
Step-Alert (stops r) h = inr (inl refl)
Step-Alert {p} {p'} (notifies_all d) h = inr (inr (waits-wake_all p.workers))
Step-Alert {p} {p'} (wakes ws vs e) h =
    moved-Alert p p' ws vs waiting ready e refl (omega arith) refl refl h
Step-Alert {p} {p'} (sleeps ws vs e f) h = inl (fetch-wait p f).0
Step-Alert {p} {p'} (begins ws vs t q e f) h =
    moved-Alert p p' ws vs ready (busy t) e refl (omega arith) refl refl h
Step-Alert {p} {p'} (finishes ws vs t e) h =
    moved-Alert p p' ws vs (busy t) ready e refl (omega arith) refl refl h
Step-Alert {p} {p'} (leaves ws vs e f) h =
    moved-Alert p p' ws vs ready returned e refl (omega arith) refl refl h

Step-Fed : {p p' : ThreadPool} → Step p p' → Fed p → Fed p'
unfolding Fed stop post_task post_tasks notify_all
Step-Fed (posts t may) h = inr (inl (omega arith))
Step-Fed {p} (posts_all ts may) h =
    let none_waits = waits-wake_all (push_tasks p ts).workers in inr (inr (omega arith))
Step-Fed {p} (notifies_one n ws vs d e) h = inr (inr (moved_on _ ws vs ready refl refl))
Step-Fed (notifies_none n d e) h = inr (inr (omega arith))
Step-Fed (stops r) h = h
Step-Fed {p} (notifies_all d) h =
    let none_waits = waits-wake_all p.workers in inr (inr (omega arith))
Step-Fed {p} (wakes ws vs e) h = inr (inr (moved_on _ ws vs ready refl refl))
Step-Fed {p} (sleeps ws vs e f) h = inl (fetch-wait p f).1
Step-Fed {p} (begins ws vs t q e f) h = inr (inr (moved_on _ ws vs (busy t) refl refl))
Step-Fed {p} (finishes ws vs t e) h = inr (inr (moved_on _ ws vs ready refl refl))
Step-Fed {p} (leaves ws vs e f) h = inl (fetch-leave p f).1

Reach-Alert : {n : ℕ} {p : ThreadPool} → Reach n p → Alert p
unfolding Alert create
Reach-Alert start = inl refl
Reach-Alert (later r s) = Step-Alert s (Reach-Alert r)

Reach-Fed : {n : ℕ} {p : ThreadPool} → Reach n p → Fed p
unfolding Fed create
Reach-Fed start = inl refl
Reach-Fed (later r s) = Step-Fed s (Reach-Fed r)

-- a notification that is due, or a step of a worker that is awake
abbrev pub IsOwn : {p p' : ThreadPool} → Step p p' → Type 0
IsOwn (posts t may) = ⊥
IsOwn (posts_all ts may) = ⊥
IsOwn (stops r) = ⊥
IsOwn (wakes ws vs e) = ⊥
IsOwn (sleeps ws vs e f) = ⊥
IsOwn _ = Unit {0}

pub record Proceeds (p : ThreadPool) : Type 0 where
  pub next : ThreadPool
  pub step : Step p next
  pub own : IsOwn step

ready-Proceeds :
    (p : ThreadPool) (us vs : List Worker) (ts : List Task)
    → p.workers ≡ us ++ ready ∷ vs
    → p.task_queue ≡ ts
    → (p.running ≡ false) ⊎ ((t : Task) × (q : List Task) × (ts ≡ t ∷ q))
    → Proceeds p
unfolding fetch
ready-Proceeds p us vs [] e queued (inl off) = record {
  next = _;
  step = leaves us vs e (rw (off, queued) refl);
  own = tt;
}
ready-Proceeds p us vs [] e queued (inr (t, q, no_task)) = absurd (cc)
ready-Proceeds p us vs (t ∷ q) e queued h = elim (Bool-cases p.running) [
  | inl on ↦ record { next = _; step = begins us vs t q e (rw (on, queued) refl); own = tt }
  | inr off ↦ record { next = _; step = begins us vs t q e (rw (off, queued) refl); own = tt }
]

notifying-Proceeds : (p : ThreadPool) (n : ℕ) → p.ones_due ≡ n + 1 → Proceeds p
notifying-Proceeds p n d = elim (one_waits p.workers) [
  | inl none_waits ↦ record { next = _; step = notifies_none n d none_waits; own = tt }
  | inr (us, vs, e) ↦ record { next = _; step = notifies_one n us vs d e; own = tt }
]

-- Where a worker is awake that has not returned, and there is something to do, it does it.
AwakeOne-Proceeds :
    (p : ThreadPool) (a : AwakeOne p.workers)
    → (p.running ≡ false) ⊎ ((t : Task) × (q : List Task) × (p.task_queue ≡ t ∷ q))
    → (waits p.workers + returns p.workers ≡ length p.workers) ⊎ Proceeds p
AwakeOne-Proceeds p (none_awake e) todo = inl e
AwakeOne-Proceeds p (one_ready us vs e) todo = inr (ready-Proceeds p us vs p.task_queue e refl todo)
AwakeOne-Proceeds p (one_works us vs t e) todo =
    inr (record { next = _; step = finishes us vs t e; own = tt })

still_running :
    {n : ℕ} {p : ThreadPool} {t : Task} {q : List Task}
    → Reach n p
    → p.running ≡ true
    → p.task_queue ≡ t ∷ q
    → 0 < length p.workers
    → Proceeds p
unfolding Fed
still_running {n} {p} {t} {q} r on queued some_workers = elim (Reach-Fed r) [
  | inl none_queued ↦ absurd (let no : [] ≡ t ∷ q = sym none_queued ∙ queued in cc)
  | inr (inl due) ↦ notifying-Proceeds p (p.ones_due - 1) (omega arith)
  | inr (inr not_all_wait) ↦ elim (Reach-Orderly r) [
    | inr (off, rest) ↦ absurd (let no : true ≡ false = sym on ∙ off in cc)
    | inl none_back ↦ elim (AwakeOne-Proceeds p (one_awake p.workers) (inr (t, q, queued))) [
      | inl all_wait ↦ absurd (omega arith)
      | inr goes_on ↦ goes_on
    ]
  ]
]

stopped :
    {n : ℕ} {p : ThreadPool}
    → Reach n p
    → p.running ≡ false
    → (returns p.workers ≡ length p.workers) ⊎ Proceeds p
unfolding Alert
stopped {n} {p} r off = elim (Reach-Alert r) [
  | inl on ↦ absurd (let no : true ≡ false = sym on ∙ off in cc)
  | inr (inl all) ↦ inr (record { next = _; step = notifies_all all; own = tt })
  | inr (inr none_waits) ↦ elim (AwakeOne-Proceeds p (one_awake p.workers) (inl off)) [
    | inl all_back ↦ inl (omega arith)
    | inr goes_on ↦ inr goes_on
  ]
]

-- In every state that a pool with threads can reach, if it is stopped or a task is queued, then all its
-- workers have returned, or a notification that is due, a worker or the end of a callback can make a step,
-- with no post, no call of the destructor and no wait that ends by itself: no worker waits for a
-- notification that is lost.
pub Reach-Proceeds :
    {n : ℕ} {p : ThreadPool}
    → Reach n p
    → 0 < length p.workers
    → (p.running ≡ false) ⊎ ((t : Task) × (q : List Task) × (p.task_queue ≡ t ∷ q))
    → (returns p.workers ≡ length p.workers) ⊎ Proceeds p
Reach-Proceeds {n} {p} r some_workers (inl off) = stopped r off
Reach-Proceeds {n} {p} r some_workers (inr (t, q, queued)) = elim (Bool-cases p.running) [
  | inl on ↦ inr (still_running r on queued some_workers)
  | inr off ↦ stopped r off
]
