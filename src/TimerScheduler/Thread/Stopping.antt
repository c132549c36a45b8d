-- ===== src/TimerScheduler/Thread/Stopping.antt =====
-- `Stop`, and how long it waits for the thread.
use nebula_toolkit.Prelude.{ℕ, ◌≡◌, ◌≤◌, ◌<◌, refl, sym, ap, ◌∙◌, arith, false, true, List, leb}
use nebula_toolkit.TimerScheduler.{TimerTask, contains, round, schedule_once, push, cancel}
use nebula_toolkit.TimerScheduler.Thread.{
  Phase, Scheduler, start, stop, notify_all, push_timer, notify_one, check_running, wait_for_task,
  take_turn, Act, Acts, absent, checking, entering, waiting, sleeping, posting, ended, ticks,
  schedules, pushes, cancels, starts, stops, notifies_one, notifies_all, joins, checks, rests,
  turns, wakes, posts, none_yet, later,
}

-- where the thread sleeps until a time, after `Stop` has made `running_` false and has notified
pub record Oversleeps (until : ℕ) (s : Scheduler) : Type 0 where
  pub stopped : s.running ≡ false
  pub told : s.stop_due ≡ false
  pub asleep : s.phase ≡ sleeping until

-- a phase as a number, so that two of them can be told apart
code : Phase → ℕ
code absent = 0
code checking = 1
code entering = 2
code waiting = 3
code (sleeping u) = 4
code (posting t) = 5
code ended = 6

-- A thread that has read `running_` before `Stop` made it false sleeps until the time of the first task.
turn-Oversleeps :
    (s : Scheduler) (t : TimerTask) (rest : List TimerTask)
    → s.running ≡ false
    → s.stop_due ≡ false
    → contains t.task_id s.timers.canceled_ids ≡ false
    → s.timers.now < t.exec_time
    → Oversleeps t.exec_time (take_turn s t rest)
unfolding take_turn
turn-Oversleeps s t rest off told kept early =
    let wait : leb t.exec_time s.timers.now ≡ false = ground arith in
    record { stopped = off; told = told; asleep = rw (kept, wait) refl }

asleep_not : {q p : Phase} {until : ℕ} → q ≡ sleeping until → q ≡ p → code p ≡ 4
unfolding code
asleep_not e at = sym (ap code at) ∙ ap code e

same_time : {a b : ℕ} → sleeping a ≡ sleeping b → a ≡ b
same_time e = cc

-- an act that is no `notify_one` of a call of `ScheduleOnce`
abbrev pub IsNoNotify : {s s' : Scheduler} → Act s s' → Type 0
IsNoNotify (notifies_one n due) = ⊥
IsNoNotify _ = Unit {0}

abbrev pub HasNoNotify : {s s' : Scheduler} → Acts s s' → Type 0
HasNoNotify none_yet = Unit {0}
HasNoNotify (later r a) = HasNoNotify r × IsNoNotify a

-- It sleeps on until the time comes or a call of `ScheduleOnce` notifies it.
Act-Oversleeps :
    {until : ℕ} {s s' : Scheduler} (a : Act s s')
    → IsNoNotify a
    → s'.timers.now < until
    → Oversleeps until s
    → Oversleeps until s'
unfolding code schedule_once push cancel start stop notify_all push_timer notify_one check_running
    wait_for_task take_turn round
Act-Oversleeps (ticks n) q early o = record {
  stopped = o.stopped;
  told = o.told;
  asleep = o.asleep;
}
Act-Oversleeps (schedules delay cb p) q early o = record {
  stopped = o.stopped;
  told = o.told;
  asleep = o.asleep;
}
Act-Oversleeps (pushes es fs t e) q early o = record {
  stopped = o.stopped;
  told = o.told;
  asleep = o.asleep;
}
Act-Oversleeps (notifies_one n due) q early o = absurd q
Act-Oversleeps {until} {s} (notifies_all due) q early o =
    absurd (let told = o.told in let no : false ≡ true = sym told ∙ due in cc)
Act-Oversleeps (cancels id) q early o = record {
  stopped = o.stopped;
  told = o.told;
  asleep = o.asleep;
}
Act-Oversleeps {until} {s} (starts idle at) q early o =
    absurd (let e = asleep_not o.asleep at in omega arith)
Act-Oversleeps {until} {s} (stops on) q early o = absurd (let off = o.stopped in ground arith)
Act-Oversleeps {until} {s} (joins off told at) q early o =
    absurd (let e = asleep_not o.asleep at in omega arith)
Act-Oversleeps {until} {s} (checks at) q early o =
    absurd (let e = asleep_not o.asleep at in omega arith)
Act-Oversleeps {until} {s} (rests at e) q early o =
    absurd (let e = asleep_not o.asleep at in omega arith)
Act-Oversleeps {until} {s} (turns us vs t at e top) q early o =
    absurd (let e = asleep_not o.asleep at in omega arith)
Act-Oversleeps {until} {s} (wakes u at due) q early o =
    absurd (let e = same_time (sym at ∙ o.asleep) in omega arith)
Act-Oversleeps {until} {s} (posts t at) q early o =
    absurd (let e = asleep_not o.asleep at in omega arith)

Act-now : {s s' : Scheduler} → Act s s' → s.timers.now ≤ s'.timers.now
unfolding schedule_once push cancel start stop notify_all push_timer notify_one check_running
    wait_for_task take_turn round
Act-now (ticks n) = omega arith
Act-now (schedules delay cb p) = omega arith
Act-now (pushes es fs t e) = omega arith
Act-now (notifies_one n due) = omega arith
Act-now (notifies_all due) = omega arith
Act-now (cancels id) = omega arith
Act-now (starts idle at) = omega arith
Act-now (stops on) = omega arith
Act-now (joins off told at) = omega arith
Act-now (checks at) = omega arith
Act-now (rests at e) = omega arith
Act-now {s} (turns us vs t at e top) = ground arith
Act-now (wakes until at due) = omega arith
Act-now (posts t at) = omega arith

Acts-Oversleeps :
    {until : ℕ} {s s' : Scheduler} (r : Acts s s')
    → HasNoNotify r
    → s'.timers.now < until
    → Oversleeps until s
    → Oversleeps until s'
Acts-Oversleeps none_yet q early o = o
Acts-Oversleeps (later r a) (q, p) early o =
    let on_time = Act-now a in Act-Oversleeps a p early (Acts-Oversleeps r q (omega arith) o)

-- If `Stop` has made `running_` false and called `notify_all` after the thread has read `running_` and before
-- it looks at the queue, and the first task is not cancelled and not due, then the thread sleeps, and until the time
-- of that task has come it sleeps on, whatever is done but a `notify_one` of `ScheduleOnce`.
pub stop-Oversleeps :
    (s : Scheduler) (t : TimerTask) (rest : List TimerTask) {s' : Scheduler}
    → s.running ≡ false
    → s.stop_due ≡ false
    → contains t.task_id s.timers.canceled_ids ≡ false
    → s.timers.now < t.exec_time
    → (r : Acts (take_turn s t rest) s') → HasNoNotify r
    → s'.timers.now < t.exec_time
    → Oversleeps t.exec_time s'
stop-Oversleeps s t rest off told kept early r quiet later_on =
    Acts-Oversleeps r quiet later_on (turn-Oversleeps s t rest off told kept early)
