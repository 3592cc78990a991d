-- ===== src/Timer/Thread.antt =====
-- How long the timer thread of timer.cc sleeps, and what a stop does to it.
use mathlib.Core.Path.{subst}
use storage_engine.Prelude.{
  ℕ, ◌+◌, ◌-◌, ◌≤◌, ◌<◌, ◌≡◌, ◌==◌, refl, ◌⊎◌, inl, inr, Option, none, some, List, [], ◌∷◌, map,
  arith, ltb, leb, Bool-cases,
}
use storage_engine.Timer.{
  TimerNode, pop_top, next_deadline, time_max, insert, wake_after_insert, insert_notified,
  TimerThread, looking, expiring, tired, ended, asleep, OfflineTimerWheel, sleep_until_next,
  thread_step, wait_over, woken, TimerEvent, inserted, stepped, timed_out, stopping, notified,
  spurious, timer_event, timer_run, started,
}
use storage_engine.Timer.Expiry.{Due, next_deadline-Due, Due-le}

-- The end of a sleep; one without a deadline lasts for ever.
abbrev pub wake_time : Option ℕ → ℕ
wake_time none = time_max
wake_time (some until) = until

-- Asleep for no longer than until the next deadline, or an insertion still owes its notification.
abbrev pub InTime : TimerThread → (owed : ℕ) → List TimerNode → Type 0
InTime (asleep until) owed pending = (wake_time until ≤ next_deadline pending) ⊎ (0 < owed)
InTime looking owed pending = Unit
InTime expiring owed pending = Unit
InTime tired owed pending = Unit
InTime ended owed pending = Unit

woken-InTime :
    (t : TimerThread) (owed : ℕ) (pending : List TimerNode) → InTime (woken t) owed pending
woken-InTime looking owed pending = tt
woken-InTime expiring owed pending = tt
woken-InTime tired owed pending = tt
woken-InTime ended owed pending = tt
woken-InTime (asleep until) owed pending = tt

owing-InTime : (t : TimerThread) (owed : ℕ) (pending : List TimerNode) → InTime t (owed + 1) pending
owing-InTime looking owed pending = tt
owing-InTime expiring owed pending = tt
owing-InTime tired owed pending = tt
owing-InTime ended owed pending = tt
owing-InTime (asleep until) owed pending = inr (omega arith)

later-InTime :
    (t : TimerThread) (owed : ℕ) (pending pending' : List TimerNode)
    → next_deadline pending ≤ next_deadline pending'
    → InTime t owed pending
    → InTime t owed pending'
later-InTime looking owed pending pending' le i = tt
later-InTime expiring owed pending pending' le i = tt
later-InTime tired owed pending pending' le i = tt
later-InTime ended owed pending pending' le i = tt
later-InTime (asleep until) owed pending pending' le (inl i) = inl (omega (arith, le, i))
later-InTime (asleep until) owed pending pending' le (inr i) = inr i

insert-InTime :
    (n : TimerNode) (w : OfflineTimerWheel)
    → InTime w.thread w.owed w.pending
    → InTime (insert n w).thread (insert n w).owed (insert n w).pending
unfolding insert
insert-InTime n w i =
    elim (Bool-cases (ltb (next_deadline (n ∷ w.pending)) (next_deadline w.pending))) [
      | inl before ↦ rw (insert, before) (owing-InTime w.thread w.owed (n ∷ w.pending))
      | inr after ↦
          rw (insert, after)
            (later-InTime w.thread w.owed w.pending (n ∷ w.pending) (ground (arith, after)) i)
    ]

wake-InTime :
    (w : OfflineTimerWheel)
    → InTime w.thread w.owed w.pending
    → InTime (wake_after_insert w).thread (wake_after_insert w).owed (wake_after_insert w).pending
unfolding wake_after_insert
wake-InTime w i = elim (Bool-cases (w.owed == 0)) [
  | inl none_owed ↦ rw (wake_after_insert, none_owed) i
  | inr owes ↦ rw (wake_after_insert, owes) (woken-InTime w.thread (w.owed - 1) w.pending)
]

asleep-InTime :
    (w : OfflineTimerWheel)
    → InTime (sleep_until_next w).thread (sleep_until_next w).owed (sleep_until_next w).pending
unfolding sleep_until_next next_deadline
asleep-InTime w = sleeps (pop_top w.pending) refl
  where
    sleeps :
        (o : Option (TimerNode × List TimerNode))
        → pop_top w.pending ≡ o
        → InTime (sleep_until_next w).thread w.owed w.pending
    sleeps none e =
        let last : next_deadline w.pending ≡ time_max = rw (next_deadline, e) refl in
        rw (sleep_until_next, e) (inl (omega (arith, last)))
    sleeps (some (top, rest)) e =
        let next : next_deadline w.pending ≡ top.deadline = rw (next_deadline, e) refl in
        rw (sleep_until_next, e) (inl (omega (arith, next)))

step-InTime :
    (now : ℕ) (t : TimerThread) (w : OfflineTimerWheel)
    → w.thread ≡ t
    → InTime w.thread w.owed w.pending
    → InTime (thread_step now w).thread (thread_step now w).owed (thread_step now w).pending
unfolding thread_step
step-InTime now looking w e i =
    rw (thread_step, e) (elim (Bool-cases w.stop) [ inl q ↦ rw q tt | inr q ↦ rw q tt ])
step-InTime now expiring w e i = rw (thread_step, e) tt
step-InTime now tired w e i = rw (thread_step, e) (asleep-InTime w)
step-InTime now ended w e i = rw (thread_step, e) i
step-InTime now (asleep until) w e i = rw (thread_step, e) i

wait-InTime :
    (now : ℕ) (t : TimerThread) (w : OfflineTimerWheel)
    → w.thread ≡ t
    → InTime w.thread w.owed w.pending
    → InTime (wait_over now w).thread (wait_over now w).owed (wait_over now w).pending
unfolding wait_over
wait-InTime now looking w e i = rw (wait_over, e) i
wait-InTime now expiring w e i = rw (wait_over, e) i
wait-InTime now tired w e i = rw (wait_over, e) i
wait-InTime now ended w e i = rw (wait_over, e) i
wait-InTime now (asleep none) w e i = rw (wait_over, e) i
wait-InTime now (asleep (some until)) w e i = elim (Bool-cases (leb until now)) [
  | inl q ↦ rw (wait_over, e, q) tt
  | inr q ↦ rw (wait_over, e, q) i
]

event-InTime :
    (e : TimerEvent) (w : OfflineTimerWheel)
    → InTime w.thread w.owed w.pending
    → InTime (timer_event e w).thread (timer_event e w).owed (timer_event e w).pending
unfolding timer_event
event-InTime (inserted n) w i = insert-InTime n w i
event-InTime (stepped now) w i = step-InTime now w.thread w refl i
event-InTime (timed_out now) w i = wait-InTime now w.thread w refl i
event-InTime insert_notified w i = wake-InTime w i
event-InTime stopping w i = i
event-InTime notified w i = woken-InTime w.thread w.owed w.pending
event-InTime spurious w i = woken-InTime w.thread w.owed w.pending

run-InTime :
    (events : List TimerEvent) (w : OfflineTimerWheel)
    → InTime w.thread w.owed w.pending
    → InTime (timer_run events w).thread (timer_run events w).owed (timer_run events w).pending
run-InTime [] w i = i
run-InTime (e ∷ events) w i = run-InTime events (timer_event e w) (event-InTime e w i)

-- Whatever timers are inserted and in whatever order the threads run, while the timer thread sleeps and
-- no insertion is between its push and the notification that it owes: the thread sleeps no longer than
-- until the deadline of any timer that is pending.
pub sleeper_wakes_in_time :
    (events : List TimerEvent) (until : Option ℕ)
    → (timer_run events started).thread ≡ asleep until
    → (timer_run events started).owed ≡ 0
    → Due (wake_time until) (timer_run events started).pending
sleeper_wakes_in_time events until e settled =
    let w = timer_run events started in
    Due-le (wake_time until) (next_deadline w.pending) w.pending
      (in_time (subst (λ t. InTime t w.owed w.pending) e (run-InTime events started tt)))
      (next_deadline-Due w.pending)
  where
    in_time :
        (wake_time until ≤ next_deadline (timer_run events started).pending)
          ⊎ (0 < (timer_run events started).owed)
        → wake_time until ≤ next_deadline (timer_run events started).pending
    in_time (inl le) = le
    in_time (inr owes) = absurd (omega (arith, owes, settled))

still_asleep :
    (times : List ℕ) (w : OfflineTimerWheel)
    → w.thread ≡ asleep none
    → (timer_run (map timed_out times) w).thread ≡ asleep none
unfolding timer_event wait_over
still_asleep [] w e = e
still_asleep (t ∷ times) w e = still_asleep times (wait_over t w) (rw (wait_over, e) e)

-- A stop whose notification comes when the thread has looked at the flag and not yet gone to sleep is
-- lost: with no timer pending the thread sleeps, and no later time wakes it.
pub early_stop_lost :
    (now : ℕ) (w : OfflineTimerWheel) (times : List ℕ)
    → w.thread ≡ tired
    → w.pending ≡ []
    → (timer_run (stopping ∷ notified ∷ stepped now ∷ map timed_out times) w).thread ≡ asleep none
unfolding timer_event thread_step sleep_until_next pop_top
early_stop_lost now w times e f =
    still_asleep times (timer_event (stepped now) (timer_event notified (timer_event stopping w)))
      (rw (e, sleep_until_next, pop_top, f) refl)

-- One whose notification finds the thread asleep, or about to look, ends it at its next step.
pub stop_ends_sleeper :
    (now : ℕ) (w : OfflineTimerWheel)
    → (w.thread ≡ looking) ⊎ ((until : Option ℕ) × (w.thread ≡ asleep until))
    → (timer_run (stopping ∷ notified ∷ stepped now ∷ []) w).thread ≡ ended
unfolding timer_event thread_step
stop_ends_sleeper now w (inl e) = rw (e, thread_step) refl
stop_ends_sleeper now w (inr (until, e)) = rw (e, thread_step) refl
