-- ===== src/Examples/Executors.antt =====
-- The executor of work_stealing_executor.h and the histogram of perf_histogram.h at concrete states.
use storage_engine.Prelude.{
  ℕ, ◌≤◌, ◌<◌, ◌≡◌, ◌≢◌, refl, true, false, ◌==◌, if◌then◌else◌, none, some, List, [], ◌∷◌, length,
  not, ltb, ◌&&◌, ◌||◌, arith,
}
use storage_engine.Examples.Primitives.{counter}
use storage_engine.Idle.{active, AdaptiveIdle, Config}
use storage_engine.Work.{WorkItem, make_func}
use storage_engine.Ring.Mpmc.{MpmcRing, dequeue_mc, dequeue_bulk_mc, read_slots}
use storage_engine.Ring.Mpmc.Contents as Mpmc
use storage_engine.Ring.Mpmc.Sizes.{power-IsCapacity}
use storage_engine.Executor.{WorkerState, Executor, add, find_work, victim_idx, worker_round}
use storage_engine.Executor.Queues.{local_of, content, IsValid}
use storage_engine.Executor.Rounds.{RoundEnds, round_takes_first}
use storage_engine.Executor.Victims.{idle-sees_all_peers}
use storage_engine.Executor.Setup.{ExecutorConfig, workers}
use storage_engine.Executor.Setup.Staffing.{ids, workers_numbered}
use storage_engine.Executor.Setup.Peers.{holds, node_at}
use storage_engine.Prelude.Ranges.{range_from}
use storage_engine.Ring.Local.{try_dequeue}
use storage_engine.Executor.Build.{empty_yield, make_executor, executor_made}
use storage_engine.Executor.Queues.{QueueId}
use storage_engine.Topology.{Pu, Hwloc, phys_per_numa, numa_count, phys_at, phys_cores}
use storage_engine.Metric.Perf.{Histogram}

abbrev pub ring_of : ℕ → MpmcRing WorkItem
ring_of n = record {
  prod_head = n;
  prod_tail = n;
  cons_head = 0;
  cons_tail = 0;
  capacity = 4;
  ring = λ i. make_func i;
}

abbrev pub idle_now : AdaptiveIdle counter
idle_now = record { event_fd = 0; level = active; park_generation = 0; pending_notify = false }

-- A worker of three with `n` items in its ring.
abbrev worker_with : ℕ → ℕ → WorkerState counter
worker_with n id = record {
  id = id;
  local_deque = ring_of n;
  yield_queue = empty_yield;
  running = true;
  park = idle_now;
  numa_peers = 1 ∷ 2 ∷ [];
  tasks_executed = 0;
  coro_resumes = 0;
  steals_success = 0;
  steals_failed = 0;
  parks = 0;
  tls_source_queue = none;
  tls_source_queue_idx = 0;
}

-- Worker 2 holds two items, the others none.
abbrev crew : (n : ℕ) → Executor counter
crew n = record {
  steal_attempts = 4;
  num_workers = 3;
  workers = λ i. worker_with (if i == 2 then n else 0) i;
  global_entry = ring_of 0;
  add_counter = 5;
  wse_tasks = 0;
  wse_steals = 0;
}

pub ring_of-IsValid : (n : ℕ) → n ≤ 4 → Mpmc.IsValid (ring_of n)
ring_of-IsValid n le = record {
  is_capacity = power-IsCapacity 2 (omega arith);
  small = omega arith;
  produced = refl;
  consumed = refl;
  prod_word = omega (arith, le);
  cons_word = omega arith;
  fits = omega (arith, le);
}

crew-IsValid : (n : ℕ) → n ≤ 4 → IsValid counter (crew n)
crew-IsValid n le = record {
  rings = λ j. ring_of-IsValid (if j == 2 then n else 0) (ground (arith, le));
  yields = λ j. record { head_in = omega arith; tail_in = omega arith };
  entry_ring = ring_of-IsValid 0 (omega arith);
}

-- Executing an item adds the next one to the worker's own ring.
abbrev adds_next : WorkItem → Executor counter → Executor counter
adds_next item ex = add counter (some 0) (make_func 7) ex

abbrev three_tries : Config
three_tries = record { spin_iterations = 3; yield_rounds = 2 }

round_takes_first_example :
    RoundEnds counter adds_next three_tries
      (λ n. false)
      0
      (crew 2)
      (worker_round counter adds_next three_tries (λ n. false) 0 (crew 2))
round_takes_first_example =
    round_takes_first counter adds_next three_tries (λ n. false) 0 (crew 2)
      (crew-IsValid 2 (omega arith))

idle-sees_all_peers_example : content counter (crew 0) (local_of 2) ≡ []
unfolding find_work try_dequeue dequeue_mc dequeue_bulk_mc read_slots victim_idx
idle-sees_all_peers_example =
    idle-sees_all_peers counter 0 1 2 (crew 0) (find_work counter 0 (crew 0)).1
      (crew-IsValid 0 (omega arith)) (omega arith) (omega arith) refl refl

-- Two nodes of two cores, each of two processing units.
abbrev two_cores : List Pu
two_cores =
    record { os_index = 0; first_of_core = true }
    ∷ record { os_index = 4; first_of_core = false }
    ∷ record { os_index = 1; first_of_core = true }
    ∷ record { os_index = 5; first_of_core = false }
    ∷ []

abbrev pub machine : Hwloc
machine = record { nbobjs = 2; node = λ n. some two_cores }

abbrev five_workers : ExecutorConfig
five_workers = record {
  num_workers = 5;
  pin_cpus = true;
  use_ht_siblings = false;
  numa_aware_stealing = true;
}

workers_numbered_example :
    (ids (workers five_workers machine) ≡ range_from 0 (length (workers five_workers machine)))
    × (0 < length (workers five_workers machine))
    × (five_workers.num_workers ≢ 0 → length (workers five_workers machine) ≡ 5)
unfolding phys_per_numa numa_count phys_at phys_cores
workers_numbered_example =
    workers_numbered five_workers machine (omega arith) (omega arith) (omega arith)

executor_made_example :
    (ex : Executor counter) × (make_executor counter idle_now five_workers 4 machine ≡ some ex)
    × IsValid counter ex
    × ((q : QueueId) → content counter ex q ≡ [])
    × (ex.num_workers ≡ length (workers five_workers machine))
    × ((i k : ℕ)
        → i < ex.num_workers
        → ((ex.workers i).id ≡ i)
          × (holds k (ex.workers i).numa_peers ≡ (
              ltb k ex.num_workers
              && (not (i == k)
                  && (not true
                      || (node_at (workers five_workers machine) i
                          == node_at (workers five_workers machine) k))))))
unfolding phys_per_numa numa_count phys_at phys_cores
executor_made_example =
    executor_made counter idle_now five_workers 4 machine (omega arith) (omega arith) (omega arith)

abbrev waits : Histogram
waits = record { buckets = λ i. if i == 5 then 3 else 0; count = 3; sum = 120 }
