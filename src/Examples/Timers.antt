-- ===== src/Examples/Timers.antt =====
-- The timers and the registry of timer.h and worker_registry.h at concrete states.
use mathlib.Core.List.{Perm, Mem}
use storage_engine.Prelude.{
  ℕ, ◌≤◌, ◌<◌, ◌≡◌, refl, false, none, some, List, [], ◌∷◌, ◌++◌, All, map, arith,
}
use storage_engine.Timer.{
  TimerNode, expire, expiring, OfflineTimerWheel, asleep, tired, TimerEvent, inserted, stepped,
  timed_out, insert_notified, stopping, notified, timer_event, timer_run, started, executor,
  in_wheel, await_suspend, pushed, resume_expired,
}
use storage_engine.Timer.Expiry.{InOrder, Due, expire-Expired}
use storage_engine.Timer.Thread.{sleeper_wakes_in_time, early_stop_lost, wake_time}
use storage_engine.Timer.Delivery.{sleeper_resumed_at_home}
use storage_engine.Registry.{WorkerRegistry, offline, empty_registry, register_offline_worker}
use storage_engine.Registry.Later.{of_online, of_offline, register_all}

abbrev pub at_time : ℕ → TimerNode
at_time t = record {
  deadline = t;
  source_queue_idx = 0;
  source_worker_id = 0;
  handle = t;
  on_expire = none;
}

abbrev pub three_timers : List TimerNode
three_timers = at_time 30 ∷ at_time 10 ∷ at_time 20 ∷ []

expire-Expired_example :
    (Perm three_timers ((expire 20 three_timers).0 ++ (expire 20 three_timers).1))
    × (InOrder (expire 20 three_timers).0)
    × (All (λ n. n.deadline ≤ 20) (expire 20 three_timers).0)
    × All (λ n. 20 < n.deadline) (expire 20 three_timers).1
expire-Expired_example = expire-Expired 20 three_timers

-- A timer is inserted, the thread goes to sleep, and an earlier timer wakes it.
abbrev busy_day : List TimerEvent
busy_day =
    inserted (at_time 30)
    ∷ insert_notified
    ∷ stepped 1
    ∷ stepped 1
    ∷ stepped 1
    ∷ inserted (at_time 10)
    ∷ insert_notified
    ∷ stepped 2
    ∷ stepped 2
    ∷ stepped 2
    ∷ []

sleeper_wakes_in_time_example : Due (wake_time (some 10)) (timer_run busy_day started).pending
unfolding timer_event
sleeper_wakes_in_time_example = sleeper_wakes_in_time busy_day (some 10) refl refl

abbrev before_sleep : OfflineTimerWheel
before_sleep = record { pending = []; thread = tired; stop = false; expired = []; owed = 0 }

early_stop_lost_example :
    (timer_run
      (stopping ∷ notified ∷ stepped 5 ∷ map timed_out (6 ∷ 1000 ∷ []))
      before_sleep).thread
    ≡ asleep none
early_stop_lost_example = early_stop_lost 5 before_sleep (6 ∷ 1000 ∷ []) refl refl

-- Worker 0 of executor 7 sleeps; an online worker is registered before and another of the executor's
-- afterwards.
abbrev at_expiry : OfflineTimerWheel
at_expiry = record {
  pending = at_time 10 ∷ [];
  thread = expiring;
  stop = false;
  expired = [];
  owed = 0;
}

abbrev when_asleep : WorkerRegistry
when_asleep = register_all (of_online 3 0 ∷ []) (register_offline_worker 7 0 0 empty_registry).1

sleeper_resumed_at_home_example :
    (n' : TimerNode) × (await_suspend when_asleep (executor 7 0) 2 42 (at_time 30) ≡ in_wheel n')
    × (n'.deadline ≡ 30)
    × Mem (pushed (offline 7 0) 42) (
        map
          (resume_expired (register_all (of_offline 7 1 0 ∷ []) when_asleep))
          (timer_run (inserted n' ∷ inserted (at_time 40) ∷ stepped 35 ∷ []) at_expiry).expired)
unfolding register_offline_worker
sleeper_resumed_at_home_example =
    sleeper_resumed_at_home 7 0 0 2 42 (at_time 30) empty_registry (of_online 3 0 ∷ [])
      (of_offline 7 1 0 ∷ []) (at_time 40 ∷ []) 35 at_expiry refl (tt, tt) (refl, tt) (omega arith)
      (omega arith) refl
