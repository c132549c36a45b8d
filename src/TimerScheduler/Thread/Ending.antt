-- ===== src/TimerScheduler/Thread/Ending.antt =====
-- A thread that is told to stop comes to its end.
use mathlib.Core.Path.{subst}
use nebula_toolkit.Prelude.{
  ℕ, ◌+◌, ◌≡◌, ◌≤◌, ◌∙◌, refl, sym, ap, arith, Bool, true, false, List, [], ◌∷◌, ◌++◌,
  if◌then◌else◌, leb, ltb, length, inl, inr, Bool-cases,
}
use nebula_toolkit.TimerScheduler.{
  TimerTask, precedes, contains, schedule_once, push, cancel, IsTop,
}
use nebula_toolkit.TimerScheduler.Thread.{
  Phase, Scheduler, new_scheduler, notified, start, stop, notify_all, push_timer, notify_one,
  check_running, wait_for_task, take_turn, Act, Acts, absent, checking, entering, waiting, sleeping,
  posting, ended, ticks, schedules, pushes, cancels, starts, stops, notifies_one, notifies_all,
  joins, checks, rests, turns, wakes, posts, none_yet, later,
}

-- An earlier task is on top where a later one is.
IsTop-earlier :
    (t u : TimerTask) (ts : List TimerTask) → t.exec_time ≤ u.exec_time → IsTop u ts → IsTop t ts
unfolding precedes
IsTop-earlier t u [] p top = tt
IsTop-earlier t u (w ∷ ts) p (first, rest) =
    (let q = first in ground arith, IsTop-earlier t u ts p rest)

IsTop-insert :
    (t u : TimerTask) (us vs : List TimerTask)
    → precedes t u ≡ false
    → IsTop t (us ++ vs)
    → IsTop t (us ++ u ∷ vs)
IsTop-insert t u [] vs p top = (p, top)
IsTop-insert t u (w ∷ us) vs p (first, rest) = (first, IsTop-insert t u us vs p rest)

-- One of the tasks of a queue is on top.
record HasTop (ts : List TimerTask) : Type 0 where
  ahead : List TimerTask
  behind : List TimerTask
  top : TimerTask
  parts : ts ≡ ahead ++ top ∷ behind
  is_top : IsTop top (ahead ++ behind)

some_top : (t : TimerTask) (ts : List TimerTask) → HasTop (t ∷ ts)
unfolding precedes
some_top t [] = record { ahead = []; behind = []; top = t; parts = refl; is_top = tt }
some_top t (u ∷ ts) =
    let h = some_top u ts in
    elim (Bool-cases (ltb t.exec_time h.top.exec_time)) [
      | inl earlier ↦ record {
        ahead = [];
        behind = u ∷ ts;
        top = t;
        parts = refl;
        is_top =
            subst (λ l. IsTop t l) (sym h.parts)
              (IsTop-insert t h.top h.ahead h.behind (ground arith)
                (IsTop-earlier t h.top (h.ahead ++ h.behind) (ground arith) h.is_top));
      }
      | inr not_earlier ↦ record {
        ahead = t ∷ h.ahead;
        behind = h.behind;
        top = h.top;
        parts = ap (λ q. t ∷ q) h.parts;
        is_top = (not_earlier, h.is_top);
      }
    ]

-- Where a thread waits for a task and `running_` is false, `Stop` is about to notify it.
abbrev IsTold : Phase → Bool → Bool → Type 0
IsTold waiting false stop_due = stop_due ≡ true
IsTold p running stop_due = Unit {0}

notified-IsTold : (p : Phase) (running stop_due : Bool) → IsTold (notified p) running stop_due
notified-IsTold absent running stop_due = tt
notified-IsTold checking running stop_due = tt
notified-IsTold entering running stop_due = tt
notified-IsTold waiting running stop_due = tt
notified-IsTold (sleeping until) running stop_due = tt
notified-IsTold (posting t) running stop_due = tt
notified-IsTold ended running stop_due = tt

stop-IsTold : (p : Phase) → IsTold p false true
stop-IsTold waiting = refl
stop-IsTold absent = tt
stop-IsTold checking = tt
stop-IsTold entering = tt
stop-IsTold (sleeping until) = tt
stop-IsTold (posting t) = tt
stop-IsTold ended = tt

check-IsTold : (running due : Bool) → IsTold (if running then entering else ended) running due
check-IsTold true due = tt
check-IsTold false due = tt

wait-IsTold : (running due : Bool) → IsTold (if running then waiting else checking) running due
wait-IsTold true due = tt
wait-IsTold false due = tt

turn-IsTold :
    (b c : Bool) (t : TimerTask) (running due : Bool)
    → IsTold (if b then checking else if c then posting t else sleeping t.exec_time) running due
turn-IsTold true c t running due = tt
turn-IsTold false true t running due = tt
turn-IsTold false false t running due = tt

Act-IsTold :
    {s s' : Scheduler}
    → Act s s'
    → IsTold s.phase s.running s.stop_due
    → IsTold s'.phase s'.running s'.stop_due
unfolding schedule_once push cancel start stop notify_all push_timer notify_one check_running
    wait_for_task take_turn
Act-IsTold (ticks n) w = w
Act-IsTold (schedules delay cb p) w = w
Act-IsTold (pushes es fs t e) w = w
Act-IsTold {s} (notifies_one n due) w = notified-IsTold s.phase s.running s.stop_due
Act-IsTold (cancels id) w = w
Act-IsTold (starts idle at) w = tt
Act-IsTold {s} (stops on) w = stop-IsTold s.phase
Act-IsTold {s} (notifies_all due) w = notified-IsTold s.phase s.running false
Act-IsTold (joins off told at) w = tt
Act-IsTold {s} (checks at) w = check-IsTold s.running s.stop_due
Act-IsTold {s} (rests at e) w = wait-IsTold s.running s.stop_due
Act-IsTold {s} (turns us vs t at e top) w =
    turn-IsTold (contains t.task_id s.timers.canceled_ids) (leb t.exec_time s.timers.now) t
      s.running s.stop_due
Act-IsTold (wakes until at due) w = tt
Act-IsTold (posts t at) w = tt

Acts-IsTold :
    {now : ℕ} {s : Scheduler} → Acts (new_scheduler now) s → IsTold s.phase s.running s.stop_due
Acts-IsTold none_yet = tt
Acts-IsTold (later r a) = Act-IsTold a (Acts-IsTold r)

-- an act of the thread itself, the passing of time, or the `notify_all` of the call of `Stop` that has made
-- `running_` false
abbrev pub IsOwn : {s s' : Scheduler} → Act s s' → Type 0
IsOwn (schedules delay cb p) = ⊥
IsOwn (pushes es fs t e) = ⊥
IsOwn (cancels id) = ⊥
IsOwn (starts idle at) = ⊥
IsOwn (stops on) = ⊥
IsOwn (joins off told at) = ⊥
IsOwn (notifies_one n due) = ⊥
IsOwn _ = Unit {0}

abbrev pub AllOwn : {s s' : Scheduler} → Acts s s' → Type 0
AllOwn none_yet = Unit {0}
AllOwn (later r a) = AllOwn r × IsOwn a

-- What the thread does up to its end: it hands over one task at most.
pub record Ends (s : Scheduler) : Type 0 where
  pub last : Scheduler
  pub acts : Acts s last
  pub alone : AllOwn acts
  pub at_end : last.phase ≡ ended
  pub one_at_most : length last.handed ≤ 1 + length s.handed

first_act : {s s' s'' : Scheduler} → Act s s' → Acts s' s'' → Acts s s''
first_act a none_yet = later none_yet a
first_act a (later r b) = later (first_act a r) b

first_act-AllOwn :
    {s s' s'' : Scheduler} (a : Act s s') (r : Acts s' s'')
    → IsOwn a
    → AllOwn r
    → AllOwn (first_act a r)
unfolding first_act
first_act-AllOwn a none_yet own all = (tt, own)
first_act-AllOwn a (later r b) own (all, last) = (first_act-AllOwn a r own all, last)

Act-Ends : {s s' : Scheduler} (a : Act s s') → IsOwn a → s'.handed ≡ s.handed → Ends s' → Ends s
Act-Ends a own same e = record {
  last = e.last;
  acts = first_act a e.acts;
  alone = first_act-AllOwn a e.acts own e.alone;
  at_end = e.at_end;
  one_at_most = let few = e.one_at_most in let l = ap length same in omega arith;
}

checking-Ends : (s : Scheduler) → s.running ≡ false → s.phase ≡ checking → Ends s
unfolding check_running first_act
checking-Ends s off at = record {
  last = check_running s;
  acts = first_act (checks at) none_yet;
  alone = (tt, tt);
  at_end = rw off refl;
  one_at_most = omega arith;
}

sleeping-Ends : (s : Scheduler) (until : ℕ) → s.running ≡ false → s.phase ≡ sleeping until → Ends s
sleeping-Ends s until off at =
    Act-Ends (ticks until) tt refl
      (Act-Ends (wakes until at (omega arith)) tt refl (checking-Ends _ off refl))

posting-Ends : (s : Scheduler) (t : TimerTask) → s.running ≡ false → s.phase ≡ posting t → Ends s
unfolding check_running first_act
posting-Ends s t off at =
    let handing = record s { phase = checking; handed = t ∷ s.handed } in
    record {
      last = check_running handing;
      acts = first_act (posts t at) (first_act (checks refl) none_yet);
      alone = ((tt, tt), tt);
      at_end = rw off refl;
      one_at_most = omega arith;
    }

turned-Ends :
    (s : Scheduler) (t : TimerTask) (rest : List TimerTask)
    → s.running ≡ false
    → Ends (take_turn s t rest)
unfolding take_turn
turned-Ends s t rest off = elim (Bool-cases (contains t.task_id s.timers.canceled_ids)) [
  | inl canceled ↦ checking-Ends (take_turn s t rest) off (rw canceled refl)
  | inr kept ↦ elim (Bool-cases (leb t.exec_time s.timers.now)) [
    | inl due ↦ posting-Ends (take_turn s t rest) t off (rw (kept, due) refl)
    | inr early ↦ sleeping-Ends (take_turn s t rest) t.exec_time off (rw (kept, early) refl)
  ]
]

entering-Ends :
    (s : Scheduler) (ts : List TimerTask)
    → s.running ≡ false
    → s.phase ≡ entering
    → s.timers.timer_tasks ≡ ts
    → Ends s
unfolding wait_for_task take_turn
entering-Ends s [] off at e =
    Act-Ends (rests at e) tt refl (checking-Ends (wait_for_task s) off (rw off refl))
entering-Ends s (t ∷ ts) off at e =
    let h = some_top t ts in
    Act-Ends (turns h.ahead h.behind h.top at (e ∙ h.parts) h.is_top) tt refl
      (turned-Ends s h.top (h.ahead ++ h.behind) off)

phase-Ends :
    (s : Scheduler) (p : Phase)
    → s.running ≡ false
    → s.phase ≡ p
    → IsTold p false s.stop_due
    → ¬ p ≡ absent
    → Ends s
unfolding notify_all
phase-Ends s absent off at w there = absurd (there refl)
phase-Ends s checking off at w there = checking-Ends s off at
phase-Ends s entering off at w there = entering-Ends s s.timers.timer_tasks off at refl
phase-Ends s waiting off at told there =
    Act-Ends (notifies_all told) tt refl (checking-Ends (notify_all s) off (ap notified at))
phase-Ends s (sleeping until) off at w there = sleeping-Ends s until off at
phase-Ends s (posting t) off at w there = posting-Ends s t off at
phase-Ends s ended off at w there = record {
  last = s;
  acts = none_yet;
  alone = tt;
  at_end = at;
  one_at_most = omega arith;
}

-- Wherever the thread is when `running_` is false, after whatever callers and thread have done since the
-- start, it can come to its end by its own acts, the passing of time and the `notify_all` of `Stop`, where
-- that is still to come, without a further call, and hands over one task at most on the way.
pub stopped-Ends :
    (now : ℕ) {s : Scheduler}
    → Acts (new_scheduler now) s
    → s.running ≡ false
    → ¬ s.phase ≡ absent
    → Ends s
stopped-Ends now {s} r off there =
    phase-Ends s s.phase off refl (subst (λ b. IsTold s.phase b s.stop_due) off (Acts-IsTold r))
      there
