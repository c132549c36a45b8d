-- ===== src/TimerScheduler/Cancelling.antt =====
-- What becomes of a task that is scheduled: it is posted at its time, or dropped once it is cancelled.
use nebula_toolkit.Prelude.{
  ℕ, ◌+◌, ◌≤◌, ◌≡◌, ◌⊎◌, inl, inr, ◌∙◌, refl, sym, ap, true, false, List, [], ◌∷◌, ◌++◌, arith,
  Bool-cases, if◌then◌else◌, ◌==◌, ltb, leb,
}
use nebula_toolkit.TimerScheduler.{
  TimerTask, TimerScheduler, contains, erase, create, schedule_once, push, cancel, round, Step,
  ticks, schedules, pushes, cancels, rounds, Steps, none_yet, later,
}

-- how many tasks of the list have the id
abbrev pub count : ℕ → List TimerTask → ℕ
count id [] = 0
count id (t ∷ ts) = (if t.task_id == id then 1 else 0) + count id ts

abbrev pub count_posted : ℕ → List (ℕ × TimerTask) → ℕ
count_posted id [] = 0
count_posted id ((at, t) ∷ ts) = (if t.task_id == id then 1 else 0) + count_posted id ts

count-append : (id : ℕ) (ts us : List TimerTask) → count id (ts ++ us) ≡ count id ts + count id us
count-append id [] us = omega arith
count-append id (t ∷ ts) us = omega (arith, count-append id ts us)

count-taken :
    (id : ℕ) (ts us vs : List TimerTask) (t : TimerTask)
    → ts ≡ us ++ t ∷ vs
    → count id ts ≡ (if t.task_id == id then 1 else 0) + count id (us ++ vs)
count-taken id ts us vs t e =
    let e' = ap (count id) e in
    omega (arith, e', count-append id us (t ∷ vs), count-append id us vs)

-- every id that was handed out stands for one task, in one place
abbrev Accounted : ℕ → TimerScheduler → Type 0
Accounted id s =
    count id s.entering + count id s.timer_tasks + count_posted id s.posted + count id s.dropped
    ≡ (if ltb id s.next_id then 1 else 0)

round-Accounted :
    (id : ℕ) (s : TimerScheduler) (us vs : List TimerTask) (t : TimerTask)
    → s.timer_tasks ≡ us ++ t ∷ vs
    → Accounted id s
    → Accounted id (round s t (us ++ vs))
unfolding round
round-Accounted id s us vs t e h =
    let c = count-taken id s.timer_tasks us vs t e in
    elim (Bool-cases (contains t.task_id s.canceled_ids)) [
      | inl off ↦ rw off (omega (arith, c, h))
      | inr on ↦ elim (Bool-cases (leb t.exec_time s.now)) [
        | inl due ↦ rw (on, due) (omega (arith, c, h))
        | inr early ↦ rw (on, early) h
      ]
    ]

Step-Accounted : (id : ℕ) {s s' : TimerScheduler} → Step s s' → Accounted id s → Accounted id s'
unfolding schedule_once push cancel
Step-Accounted id (ticks n) h = h
Step-Accounted id {s} (schedules delay cb p) h = ground (arith, h)
Step-Accounted id {s} (pushes es fs t e) h = omega (arith, h, count-taken id s.entering es fs t e)
Step-Accounted id (cancels i) h = h
Step-Accounted id {s} (rounds us vs t e top) h = round-Accounted id s us vs t e h

-- From the start on, an id that was handed out stands for exactly one task, which is on its way into
-- the queue, in it, posted or dropped; no task is lost or posted twice.
pub Steps-accounted :
    (id : ℕ) {now : ℕ} {s : TimerScheduler}
    → Steps (create now) s
    → count id s.entering + count id s.timer_tasks + count_posted id s.posted + count id s.dropped
      ≡ (if ltb id s.next_id then 1 else 0)
Steps-accounted id none_yet = ground arith
Steps-accounted id (later r s) = Step-Accounted id s (Steps-accounted id r)

-- each was posted at its time or later
abbrev pub Punctual : List (ℕ × TimerTask) → Type 0
Punctual [] = Unit {0}
Punctual ((at, t) ∷ ts) = (t.exec_time ≤ at) × Punctual ts

Step-Punctual : {s s' : TimerScheduler} → Step s s' → Punctual s.posted → Punctual s'.posted
unfolding schedule_once push cancel round
Step-Punctual (ticks n) h = h
Step-Punctual (schedules delay cb p) h = h
Step-Punctual (pushes es fs t e) h = h
Step-Punctual (cancels i) h = h
Step-Punctual {s} (rounds us vs t e top) h = elim (Bool-cases (contains t.task_id s.canceled_ids)) [
  | inl off ↦ rw off h
  | inr on ↦ elim (Bool-cases (leb t.exec_time s.now)) [
    | inl due ↦ rw (on, due) (let p : t.exec_time ≤ s.now = ground arith in (p, h))
    | inr early ↦ rw (on, early) h
  ]
]

-- No task is taken off the queue to be posted before its time.
pub Steps-Punctual : {now : ℕ} {s : TimerScheduler} → Steps (create now) s → Punctual s.posted
Steps-Punctual none_yet = tt
Steps-Punctual (later r s) = Step-Punctual s (Steps-Punctual r)

contains-erase :
    (id i : ℕ) (ids : List ℕ)
    → (i == id) ≡ false
    → contains id ids ≡ true
    → contains id (erase i ids) ≡ true
contains-erase id i [] other h = h
contains-erase id i (j ∷ ids) other h = elim (Bool-cases (j == i)) [
  | inl same ↦
      let differs : (j == id) ≡ false = ground (arith, other, same) in
      rw same (contains-erase id i ids other (rw differs at h))
  | inr differs ↦ elim (Bool-cases (j == id)) [
    | inl here ↦ rw (differs, here) refl
    | inr on ↦ rw (differs, on) (contains-erase id i ids other (rw on at h))
  ]
]

contains-cancel :
    (id i : ℕ) (ids : List ℕ)
    → contains id ids ≡ true
    → contains id (if contains i ids then ids else i ∷ ids) ≡ true
contains-cancel id i ids h = elim (Bool-cases (contains i ids)) [
  | inl already ↦ rw already h
  | inr fresh ↦ rw (fresh, h) (ground arith)
]

contains-cancel_same :
    (id : ℕ) (ids : List ℕ) → contains id (if contains id ids then ids else id ∷ ids) ≡ true
contains-cancel_same id ids = elim (Bool-cases (contains id ids)) [
  | inl already ↦ rw (already, already) refl
  | inr fresh ↦ rw fresh (ground arith)
]

-- the id is cancelled, or its task dropped, and its task is not posted
abbrev Spared : ℕ → TimerScheduler → Type 0
Spared id s =
    (count_posted id s.posted ≡ 0)
    × ((contains id s.canceled_ids ≡ true) ⊎ (1 ≤ count id s.dropped))

-- a task that waits, and whose id is not cancelled, is not spared
waits_not_spared :
    (id : ℕ) (s : TimerScheduler) (us vs : List TimerTask) (t : TimerTask)
    → s.timer_tasks ≡ us ++ t ∷ vs
    → Accounted id s
    → (contains id s.canceled_ids ≡ true) ⊎ (1 ≤ count id s.dropped)
    → contains t.task_id s.canceled_ids ≡ false
    → (t.task_id == id) ≡ true
    → ⊥
waits_not_spared id s us vs t e a (inl q) on mine =
    let same : t.task_id ≡ id = ground (arith, mine) in
    let no : true ≡ false = sym q ∙ (rw same at on) in cc
waits_not_spared id s us vs t e a (inr q) on mine =
    let c = rw mine at (count-taken id s.timer_tasks us vs t e) in ground (arith, a, c, q)

round-Spared :
    (id : ℕ) (s : TimerScheduler) (us vs : List TimerTask) (t : TimerTask)
    → s.timer_tasks ≡ us ++ t ∷ vs
    → Accounted id s
    → Spared id s
    → Spared id (round s t (us ++ vs))
unfolding round
round-Spared id s us vs t e a (p, h) =
    let c = count-taken id s.timer_tasks us vs t e in
    elim (Bool-cases (contains t.task_id s.canceled_ids)) [
      | inl off ↦ elim (Bool-cases (t.task_id == id)) [
        | inl mine ↦ rw off (p, inr (rw mine (omega arith)))
        | inr other ↦ rw off (
          p,
          (elim h [
            | inl q ↦ inl (contains-erase id t.task_id s.canceled_ids other q)
            | inr q ↦ inr (rw other (omega (arith, q)))
          ]),
        )
      ]
      | inr on ↦ elim (Bool-cases (leb t.exec_time s.now)) [
        | inl due ↦ elim (Bool-cases (t.task_id == id)) [
          | inl mine ↦ absurd (waits_not_spared id s us vs t e a h on mine)
          | inr other ↦ rw (on, due) (rw other (omega (arith, p)), h)
        ]
        | inr early ↦ rw (on, early) (p, h)
      ]
    ]

Step-Spared :
    (id : ℕ) {s s' : TimerScheduler} → Step s s' → Accounted id s → Spared id s → Spared id s'
unfolding schedule_once push cancel
Step-Spared id (ticks n) a h = h
Step-Spared id (schedules delay cb p) a h = h
Step-Spared id (pushes es fs t e) a h = h
Step-Spared id {s} (cancels i) a (p, inl h) = (p, inl (contains-cancel id i s.canceled_ids h))
Step-Spared id (cancels i) a (p, inr h) = (p, inr h)
Step-Spared id {s} (rounds us vs t e top) a h = round-Spared id s us vs t e a h

Steps-Spared :
    (id : ℕ) {s s' : TimerScheduler}
    → Steps s s'
    → Accounted id s
    → Spared id s
    → Accounted id s' × Spared id s'
Steps-Spared id none_yet a h = (a, h)
Steps-Spared id (later r s) a h =
    let (a', h') = Steps-Spared id r a h in (Step-Accounted id s a', Step-Spared id s a' h')

-- A task that is cancelled before it is taken off the queue to be posted is never taken off for that.
pub cancel-never_posted :
    (id : ℕ) {now : ℕ} {s s' : TimerScheduler}
    → Steps (create now) s
    → count_posted id s.posted ≡ 0
    → Steps (cancel s id).1 s'
    → count_posted id s'.posted ≡ 0
cancel-never_posted id {now} {s} r unposted later_on =
    let a = Step-Accounted id (cancels id) (Steps-accounted id r) in
    let spared : Spared id (cancel s id).1 =
      unfold cancel in (unposted, inl (contains-cancel_same id s.canceled_ids)) in
    (Steps-Spared id later_on a spared).1.0
