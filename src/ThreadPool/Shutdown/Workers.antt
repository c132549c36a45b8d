-- ===== src/ThreadPool/Shutdown/Workers.antt =====
-- Counting the workers of a pool.
use nebula_toolkit.Prelude.{
  ℕ, zero, suc, ◌+◌, ◌≤◌, ◌≡◌, ◌⊎◌, inl, inr, refl, ap, List, [], ◌∷◌, ◌++◌, arith, length,
}
use nebula_toolkit.ThreadPool.{
  Task, Worker, ready, waiting, busy, returned, wake_all, waits, new_workers,
}

-- how many workers have returned from the loop
abbrev pub returns : List Worker → ℕ
returns [] = 0
returns (returned ∷ ws) = suc (returns ws)
returns (w ∷ ws) = returns ws

pub returns-append : (ws vs : List Worker) → returns (ws ++ vs) ≡ returns ws + returns vs
returns-append [] vs = omega arith
returns-append (ready ∷ ws) vs = returns-append ws vs
returns-append (waiting ∷ ws) vs = returns-append ws vs
returns-append (busy t ∷ ws) vs = returns-append ws vs
returns-append (returned ∷ ws) vs = omega (arith, returns-append ws vs)

pub returns_below : (ws : List Worker) → returns ws ≤ length ws
returns_below [] = omega arith
returns_below (ready ∷ ws) = omega (arith, returns_below ws)
returns_below (waiting ∷ ws) = omega (arith, returns_below ws)
returns_below (busy t ∷ ws) = omega (arith, returns_below ws)
returns_below (returned ∷ ws) = omega (arith, returns_below ws)

pub returns-wake_all : (ws : List Worker) → returns (wake_all ws) ≡ returns ws
returns-wake_all [] = refl
returns-wake_all (ready ∷ ws) = returns-wake_all ws
returns-wake_all (waiting ∷ ws) = returns-wake_all ws
returns-wake_all (busy t ∷ ws) = returns-wake_all ws
returns-wake_all (returned ∷ ws) = ap suc (returns-wake_all ws)

pub length-wake_all : (ws : List Worker) → length (wake_all ws) ≡ length ws
length-wake_all [] = refl
length-wake_all (ready ∷ ws) = ap suc (length-wake_all ws)
length-wake_all (waiting ∷ ws) = ap suc (length-wake_all ws)
length-wake_all (busy t ∷ ws) = ap suc (length-wake_all ws)
length-wake_all (returned ∷ ws) = ap suc (length-wake_all ws)

pub returns-new_workers : (n : ℕ) → returns (new_workers n) ≡ 0
returns-new_workers zero = refl
returns-new_workers (suc n) = returns-new_workers n

-- how much each worker has left to do, apart from the tasks in the queue
abbrev pub weight : List Worker → ℕ
weight [] = 0
weight (ready ∷ ws) = 1 + weight ws
weight (waiting ∷ ws) = 2 + weight ws
weight (busy t ∷ ws) = 2 + weight ws
weight (returned ∷ ws) = weight ws

pub weight-append : (ws vs : List Worker) → weight (ws ++ vs) ≡ weight ws + weight vs
weight-append [] vs = omega arith
weight-append (ready ∷ ws) vs = omega (arith, weight-append ws vs)
weight-append (waiting ∷ ws) vs = omega (arith, weight-append ws vs)
weight-append (busy t ∷ ws) vs = omega (arith, weight-append ws vs)
weight-append (returned ∷ ws) vs = weight-append ws vs

pub weight-wake_all : (ws : List Worker) → weight (wake_all ws) ≤ weight ws
weight-wake_all [] = omega arith
weight-wake_all (ready ∷ ws) = omega (arith, weight-wake_all ws)
weight-wake_all (waiting ∷ ws) = omega (arith, weight-wake_all ws)
weight-wake_all (busy t ∷ ws) = omega (arith, weight-wake_all ws)
weight-wake_all (returned ∷ ws) = weight-wake_all ws

pub waits-append : (ws vs : List Worker) → waits (ws ++ vs) ≡ waits ws + waits vs
waits-append [] vs = omega arith
waits-append (ready ∷ ws) vs = waits-append ws vs
waits-append (waiting ∷ ws) vs = omega (arith, waits-append ws vs)
waits-append (busy t ∷ ws) vs = waits-append ws vs
waits-append (returned ∷ ws) vs = waits-append ws vs

pub waits_below : (ws : List Worker) → waits ws ≤ length ws
waits_below [] = omega arith
waits_below (ready ∷ ws) = omega (arith, waits_below ws)
waits_below (waiting ∷ ws) = omega (arith, waits_below ws)
waits_below (busy t ∷ ws) = omega (arith, waits_below ws)
waits_below (returned ∷ ws) = omega (arith, waits_below ws)

pub waits-wake_all : (ws : List Worker) → waits (wake_all ws) ≡ 0
waits-wake_all [] = refl
waits-wake_all (ready ∷ ws) = waits-wake_all ws
waits-wake_all (waiting ∷ ws) = waits-wake_all ws
waits-wake_all (busy t ∷ ws) = waits-wake_all ws
waits-wake_all (returned ∷ ws) = waits-wake_all ws

pub waits-new_workers : (n : ℕ) → waits (new_workers n) ≡ 0
waits-new_workers zero = refl
waits-new_workers (suc n) = waits-new_workers n

-- a worker that can go on by itself, if there is one
pub data AwakeOne (ws : List Worker) : Type 0 where
  none_awake : waits ws + returns ws ≡ length ws → AwakeOne ws
  one_ready : (us vs : List Worker) → ws ≡ us ++ ready ∷ vs → AwakeOne ws
  one_works : (us vs : List Worker) (t : Task) → ws ≡ us ++ busy t ∷ vs → AwakeOne ws

one_awake_behind :
    (w : Worker) (ws : List Worker)
    → waits (w ∷ []) + returns (w ∷ []) ≡ 1
    → AwakeOne ws
    → AwakeOne (w ∷ ws)
one_awake_behind ready ws still a = absurd (omega arith)
one_awake_behind (busy t) ws still a = absurd (omega arith)
one_awake_behind waiting ws still (none_awake e) = none_awake (omega arith)
one_awake_behind returned ws still (none_awake e) = none_awake (omega arith)
one_awake_behind waiting ws still (one_ready us vs e) =
    one_ready (waiting ∷ us) vs (ap (λ u. waiting ∷ u) e)
one_awake_behind returned ws still (one_ready us vs e) =
    one_ready (returned ∷ us) vs (ap (λ u. returned ∷ u) e)
one_awake_behind waiting ws still (one_works us vs t e) =
    one_works (waiting ∷ us) vs t (ap (λ u. waiting ∷ u) e)
one_awake_behind returned ws still (one_works us vs t e) =
    one_works (returned ∷ us) vs t (ap (λ u. returned ∷ u) e)

pub one_awake : (ws : List Worker) → AwakeOne ws
one_awake [] = none_awake (omega arith)
one_awake (ready ∷ ws) = one_ready [] ws refl
one_awake (busy t ∷ ws) = one_works [] ws t refl
one_awake (waiting ∷ ws) = one_awake_behind waiting ws (omega arith) (one_awake ws)
one_awake (returned ∷ ws) = one_awake_behind returned ws (omega arith) (one_awake ws)

-- a worker that waits, if there is one
pub one_waits :
    (ws : List Worker)
    → (waits ws ≡ 0) ⊎ ((us : List Worker) × (vs : List Worker) × (ws ≡ us ++ waiting ∷ vs))
one_waits [] = inl refl
one_waits (waiting ∷ ws) = inr ([], ws, refl)
one_waits (ready ∷ ws) = elim (one_waits ws) [
  | inl e ↦ inl e
  | inr (us, vs, e) ↦ inr (ready ∷ us, vs, ap (λ u. ready ∷ u) e)
]
one_waits (busy t ∷ ws) = elim (one_waits ws) [
  | inl e ↦ inl e
  | inr (us, vs, e) ↦ inr (busy t ∷ us, vs, ap (λ u. busy t ∷ u) e)
]
one_waits (returned ∷ ws) = elim (one_waits ws) [
  | inl e ↦ inl e
  | inr (us, vs, e) ↦ inr (returned ∷ us, vs, ap (λ u. returned ∷ u) e)
]
