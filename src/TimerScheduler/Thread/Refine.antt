-- ===== src/TimerScheduler/Thread/Refine.antt =====
-- What the thread does is what the rounds of the queue allow, and what it hands to the pool is what they post.
use nebula_toolkit.Prelude.{
  ℕ, ◌≡◌, refl, sym, ap, ◌∙◌, List, [], ◌∷◌, ◌++◌, leb, inl, inr, Bool-cases,
}
use nebula_toolkit.TimerScheduler.{
  TimerTask, TimerScheduler, contains, create, round, Step, Steps, schedule_once, push, cancel,
}
use nebula_toolkit.TimerScheduler
use nebula_toolkit.TimerScheduler.Thread.{
  Phase, Scheduler, new_scheduler, notified, start, stop, notify_all, push_timer, notify_one,
  notifies_one, notifies_all, check_running, wait_for_task, take_turn, Act, Acts, absent, checking,
  entering, waiting, sleeping, posting, ended, ticks, schedules, pushes, cancels, starts, stops,
  joins, checks, rests, turns, wakes, posts, none_yet, later,
}

-- the task that was taken off the queue and is not handed over yet, if there is one, and those handed over
abbrev pub taken : Phase → List TimerTask → List TimerTask
taken (posting t) handed = t ∷ handed
taken p handed = handed

abbrev pub tasks_of : List (ℕ × TimerTask) → List TimerTask
tasks_of [] = []
tasks_of ((at, t) ∷ posted) = t ∷ tasks_of posted

abbrev IsHanded : Scheduler → Type 0
IsHanded s = taken s.phase s.handed ≡ tasks_of s.timers.posted

taken-notified : (p : Phase) (ts : List TimerTask) → taken (notified p) ts ≡ taken p ts
taken-notified absent ts = refl
taken-notified checking ts = refl
taken-notified entering ts = refl
taken-notified waiting ts = refl
taken-notified (sleeping u) ts = refl
taken-notified (posting t) ts = refl
taken-notified ended ts = refl

take_turn-IsHanded :
    (s : Scheduler) (t : TimerTask) (rest : List TimerTask)
    → s.phase ≡ entering
    → IsHanded s
    → IsHanded (take_turn s t rest)
unfolding take_turn round
take_turn-IsHanded s t rest at h =
    let before : s.handed ≡ tasks_of s.timers.posted = rw (ap (λ p. taken p s.handed) at) at h in
    elim (Bool-cases (contains t.task_id s.timers.canceled_ids)) [
      | inl off ↦ rw off before
      | inr on ↦ elim (Bool-cases (leb t.exec_time s.timers.now)) [
        | inl due ↦ rw (on, due) (ap (λ ts. t ∷ ts) before)
        | inr early ↦ rw (on, early) before
      ]
    ]

-- from one phase to another, where neither has a task
moved :
    (s : Scheduler) {p : Phase} (q : Phase) (handed : List TimerTask)
    → s.phase ≡ p
    → taken q handed ≡ taken p s.handed
    → IsHanded s
    → taken q handed ≡ tasks_of s.timers.posted
moved s q handed at same h = same ∙ sym (ap (λ p. taken p s.handed) at) ∙ h

Act-IsHanded : {s s' : Scheduler} → Act s s' → IsHanded s → IsHanded s'
unfolding schedule_once push cancel start stop notify_all push_timer notify_one check_running
    wait_for_task
Act-IsHanded (ticks n) h = h
Act-IsHanded (schedules delay cb p) h = h
Act-IsHanded {s} (pushes es fs t e) h = h
Act-IsHanded {s} (notifies_one n due) h = taken-notified s.phase s.handed ∙ h
Act-IsHanded (cancels id) h = h
Act-IsHanded {s} (starts idle at) h = moved s checking s.handed at refl h
Act-IsHanded {s} (stops on) h = h
Act-IsHanded {s} (notifies_all due) h = taken-notified s.phase s.handed ∙ h
Act-IsHanded {s} (joins off told at) h = moved s absent s.handed at refl h
Act-IsHanded {s} (checks at) h = elim (Bool-cases s.running) [
  | inl on ↦ rw on (moved s entering s.handed at refl h)
  | inr off ↦ rw off (moved s ended s.handed at refl h)
]
Act-IsHanded {s} (rests at e) h = elim (Bool-cases s.running) [
  | inl on ↦ rw on (moved s waiting s.handed at refl h)
  | inr off ↦ rw off (moved s checking s.handed at refl h)
]
Act-IsHanded {s} (turns us vs t at e top) h = take_turn-IsHanded s t (us ++ vs) at h
Act-IsHanded {s} (wakes until at due) h = moved s checking s.handed at refl h
Act-IsHanded {s} (posts t at) h = moved s checking (t ∷ s.handed) at refl h

Acts-IsHanded : {now : ℕ} {s : Scheduler} → Acts (new_scheduler now) s → IsHanded s
Acts-IsHanded none_yet = refl
Acts-IsHanded (later r a) = Act-IsHanded a (Acts-IsHanded r)

-- an act is a step of the queue, or leaves the queue as it is
Act-Steps :
    {s s' : Scheduler} {q : TimerScheduler} → Act s s' → Steps q s.timers → Steps q s'.timers
unfolding start stop notify_all push_timer notify_one check_running wait_for_task take_turn
Act-Steps (ticks n) r = TimerScheduler.later r (TimerScheduler.ticks n)
Act-Steps (schedules delay cb p) r = TimerScheduler.later r (TimerScheduler.schedules delay cb p)
Act-Steps (pushes es fs t e) r = TimerScheduler.later r (TimerScheduler.pushes es fs t e)
Act-Steps (cancels id) r = TimerScheduler.later r (TimerScheduler.cancels id)
Act-Steps (starts idle at) r = r
Act-Steps (stops on) r = r
Act-Steps (notifies_one n due) r = r
Act-Steps (notifies_all due) r = r
Act-Steps (joins off told at) r = r
Act-Steps (checks at) r = r
Act-Steps (rests at e) r = r
Act-Steps (turns us vs t at e top) r = TimerScheduler.later r (TimerScheduler.rounds us vs t e top)
Act-Steps (wakes until at due) r = r
Act-Steps (posts t at) r = r

Acts-timers : {now : ℕ} {s : Scheduler} → Acts (new_scheduler now) s → Steps (create now) s.timers
Acts-timers none_yet = TimerScheduler.none_yet
Acts-timers (later r a) = Act-Steps a (Acts-timers r)

-- Whatever the callers and the thread do from a new scheduler on, the queue goes through its own steps,
-- and the tasks that they post are those handed to the pool, in order, but for the last one while the
-- thread is about to hand it over.
pub Acts-Steps :
    {now : ℕ} {s : Scheduler}
    → Acts (new_scheduler now) s
    → Steps (create now) s.timers × (taken s.phase s.handed ≡ tasks_of s.timers.posted)
Acts-Steps r = (Acts-timers r, Acts-IsHanded r)
