-- ===== src/Examples/Schedulers.antt =====
-- The scheduler of scheduler.h with the rings of ring_work_queue.h and the policies of
-- policy_factory.h, at concrete states.
use storage_engine.Prelude.{
  ℕ, ◌+◌, ◌≤◌, ◌≡◌, ◌≢◌, refl, true, false, none, some, List, [], ◌∷◌, ◌++◌, replicate, drop,
  size_max, arith, ltb,
}
use storage_engine.Examples.Primitives.{counter}
use storage_engine.Examples.Executors.{ring_of, ring_of-IsValid, idle_now}
use storage_engine.Ring.Mpmc.{MpmcRing, dequeue_bulk, read_slots, count}
use storage_engine.Ring.Mpmc.Contents as Mpmc
use storage_engine.Work.{WorkItem}
use storage_engine.Policy.Types.{engine, medium, rank}
use storage_engine.Policy.WeightedFair.{Numbers}
use storage_engine.Policy.StrictPriority.{make, from_level, count_level}
use storage_engine.Policy.StrictPriority as Strict
use storage_engine.Policy.Factory as Factory
use storage_engine.Policy.Factory.{
  PolicyConfig, Policy, strict_priority, policies, policy_laws, make_policy, AsConfigured,
  policy_made-AsConfigured, Ready,
}
use storage_engine.Interface.{ring_queue, ring_laws}
use storage_engine.Metric.Perf.{no_perf}
use storage_engine.Scheduler.{
  Scheduler, max_batch_size, busy_round, drain_p0, policy_round, decide_round, drain_loop,
  run_batch, run_item, snapshots,
}
use storage_engine.Scheduler.Drain.{Quiet, Served, Drains, drain_empties}
use storage_engine.Scheduler.BusyRound.{Holds, busy_round_serves_all}
use storage_engine.Scheduler.PolicyRound.{idles_only_when_empty}
use storage_engine.Scheduler.Stop.{
  FlagEvent, of_run, of_stop, flag_run, at_start, ended, flag_step, run_step, stop_step, idle_step,
  poll_step, park_step,
}
use storage_engine.Scheduler.Stop.Return.{stopped_run_returns}
use storage_engine.Idle.{Config, idle_park, wait_over, notify}

-- Whole numbers with a quotient rounded down in the place of double.
abbrev counts : Numbers
counts = record {
  Num = ℕ;
  zero_num = 0;
  one_num = 1;
  of_count = λ n. n;
  add = λ a b. a + b;
  divide = λ a b. a;
  less = ltb;
  less_trans = λ a b c p q. ground (arith, p, q);
  less_irrefl = λ a. ground arith;
}

policy_made-AsConfigured_example :
    AsConfigured counts
      (record { name = "round_robin"; weights = []; max_batch = 8 })
      (make_policy counts (record { name = "round_robin"; weights = []; max_batch = 8 }))
policy_made-AsConfigured_example =
    policy_made-AsConfigured counts (record { name = "round_robin"; weights = []; max_batch = 8 })

-- The affine queue 0 and two others; the world outside counts the items executed.
abbrev system : (affine others : ℕ) → Scheduler counter (MpmcRing WorkItem) (Policy counts) ℕ
system affine others = record {
  queues = ring_of affine ∷ ring_of others ∷ ring_of 0 ∷ [];
  last_poll_times = 0 ∷ 0 ∷ 0 ∷ [];
  total_dequeued = 0 ∷ 0 ∷ 0 ∷ [];
  policy = strict_priority (make 64);
  idle = some idle_now;
  perf = none;
  affine_idx = 0;
  disk_io_idx = 2;
  io_backend = false;
  busy_poll = false;
  running = true;
  stop_requested = false;
  stats = record { total_polls = 0; total_idles = 0; total_tasks_executed = 0; total_exec_ns = 0 };
  tls_source_queue_idx = size_max;
  world = 0;
}

abbrev System : Type 0
System = Scheduler counter (MpmcRing WorkItem) (Policy counts) ℕ

abbrev run_one : WorkItem → System → System
run_one item s = record s { world = s.world + 1 }

abbrev touch_one : WorkItem → ℕ → ℕ
touch_one item n = n + 1

run_one-Quiet : Quiet counter (MpmcRing WorkItem) (Policy counts) ℕ run_one touch_one
run_one-Quiet = record { only_world = λ item s. refl }

drain_empties_example :
    Drains counter
      (MpmcRing WorkItem)
      (Policy counts)
      ℕ
      (ring_queue engine medium)
      (policies counts)
      run_one
      (λ item. 10)
      touch_one
      run_one-Quiet
      (ring_laws engine medium)
      (λ n. n)
      no_perf
      9
      (system 3 2)
      (ring_of 3)
drain_empties_example =
    drain_empties counter (MpmcRing WorkItem) (Policy counts) ℕ (ring_queue engine medium)
      (policies counts) run_one (λ item. 10) touch_one run_one-Quiet (ring_laws engine medium)
      (λ n. n) no_perf 9 (system 3 2) (ring_of 3) refl (ring_of-IsValid 3 (omega arith))
      (omega arith)

-- The affine queue with three items, the other one with two.
affine-Holds :
    (n : ℕ)
    → n ≤ 4
    → Holds counter
        (MpmcRing WorkItem)
        (Policy counts)
        ℕ
        (ring_queue engine medium)
        (policies counts)
        run_one
        (λ item. 10)
        touch_one
        run_one-Quiet
        (ring_laws engine medium)
        0
        (Mpmc.contents (ring_of n))
        (system n 2)
affine-Holds n le = record {
  queue = ring_of n;
  at = refl;
  held = refl;
  valid = ring_of-IsValid n le;
}

abbrev HoldsAt : ℕ → List WorkItem → System → Type 0
HoldsAt j items s =
    Holds counter (MpmcRing WorkItem) (Policy counts) ℕ (ring_queue engine medium) (policies counts)
      run_one (λ item. 10) touch_one run_one-Quiet (ring_laws engine medium) j items s

busy_round_serves_all_example :
    (s' : System) × (busy_round counter
        (MpmcRing WorkItem)
        (Policy counts)
        ℕ
        (ring_queue engine medium)
        (policies counts)
        run_one
        (λ item. 10)
        (λ n. n)
        9
        (system 3 2)
      ≡ some s')
    × HoldsAt 0 [] s'
    × ((j : ℕ) (other : List WorkItem)
        → ◌≢◌ {A = ℕ} 0 j
        → HoldsAt j other (system 3 2)
        → HoldsAt j (drop max_batch_size other) s')
busy_round_serves_all_example =
    busy_round_serves_all counter (MpmcRing WorkItem) (Policy counts) ℕ (ring_queue engine medium)
      (policies counts) run_one (λ item. 10) touch_one run_one-Quiet (ring_laws engine medium)
      (λ n. n) 9 (system 3 2) (Mpmc.contents (ring_of 3)) (affine-Holds 3 (omega arith))
      (omega arith)

-- A worker that finds nothing goes to sleep, and then it is stopped.
abbrev short_idle : Config
short_idle = record { spin_iterations = 1; yield_rounds = 1 }

abbrev put_to_sleep : List (FlagEvent counter)
put_to_sleep = replicate 18 (of_run true) ++ (of_stop ∷ of_stop ∷ of_stop ∷ [])

stopped_run_returns_example :
    (flag_run counter short_idle
      (replicate 6 (of_run true))
      (flag_run counter short_idle put_to_sleep (at_start counter false idle_now))).run_at
    ≡ ended
unfolding flag_step run_step stop_step idle_step poll_step park_step idle_park wait_over notify
stopped_run_returns_example =
    stopped_run_returns counter short_idle false idle_now put_to_sleep (replicate 6 (of_run true))
      (omega arith) refl (omega arith)

-- Two items in the affine queue and none in the others.
idles_only_when_empty_example :
    ((j : ℕ) (other : List WorkItem) → ◌≢◌ {A = ℕ} 0 j → HoldsAt j other (system 2 0) → other ≡ [])
    × ((s1 : System) × (drain_p0 counter
            (MpmcRing WorkItem)
            (Policy counts)
            ℕ
            (ring_queue engine medium)
            (policies counts)
            run_one
            (λ item. 10)
            (λ n. n)
            9
            (system 2 0)
          ≡ some s1)
        × Served counter
            (MpmcRing WorkItem)
            (Policy counts)
            ℕ
            (ring_queue engine medium)
            (policies counts)
            run_one
            (λ item. 10)
            touch_one
            run_one-Quiet
            (ring_laws engine medium)
            0
            (Mpmc.contents (ring_of 2))
            []
            (system 2 0)
            s1)
unfolding policy_round decide_round drain_loop run_batch run_item snapshots dequeue_bulk read_slots
    count Factory.decide Strict.decide from_level count_level make rank
idles_only_when_empty_example =
    idles_only_when_empty counter (MpmcRing WorkItem) (Policy counts) ℕ (ring_queue engine medium)
      (policies counts) run_one (λ item. 10) touch_one run_one-Quiet (ring_laws engine medium)
      (policy_laws counts) (λ n. n) 9 (record { spin_iterations = 2; yield_rounds = 2 })
      (λ n. false) (system 2 0) (Mpmc.contents (ring_of 2))
      (record {
        queue = ring_of 2;
        at = refl;
        held = refl;
        valid = ring_of-IsValid 2 (omega arith);
      })
      (omega arith) (omega arith) tt
