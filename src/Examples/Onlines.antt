-- ===== src/Examples/Onlines.antt =====
-- The online workers and groups of online_worker.h and online_group.h at concrete states.
use storage_engine.Prelude.{
  ℕ, ◌≡◌, refl, ◌⊎◌, true, false, Option, none, some, [], ◌∷◌, size_max, arith,
}
use storage_engine.Examples.Primitives.{counter}
use storage_engine.Examples.Executors.{ring_of, ring_of-IsValid, idle_now, machine}
use storage_engine.Examples.Timers.{three_timers}
use storage_engine.Executor.Build.{empty_yield}
use storage_engine.Topology.{numa_count, usable_pus, even_shares}
use storage_engine.Online.Queue.{ring, local}
use storage_engine.Online.Worker.{OnlineWorker, indirect, swap_engine_queue}
use storage_engine.Online.Worker.Swap.{Swapped, swap-Swapped}
use storage_engine.Online.Group.{
  GroupConfig, OnlineWorkerGroup, addresses, make_group, workers_per_numa, create_workers,
  discover_topology, node_workers,
}
use storage_engine.Online.Group.Layout.{Ranked, flatten, group_made-Ranked}

-- A worker with four items in its engine queue, three timers, and an empty affine queue.
abbrev worker_now : OnlineWorker counter ℕ ℕ
worker_now = record {
  scheduler = record {
    queues = ring (ring_of 0) ∷ ring (ring_of 4) ∷ [];
    last_poll_times = 0 ∷ 0 ∷ [];
    total_dequeued = 0 ∷ 0 ∷ [];
    policy = 0;
    idle = some idle_now;
    perf = none;
    affine_idx = 0;
    disk_io_idx = size_max;
    io_backend = false;
    busy_poll = false;
    running = true;
    stop_requested = false;
    stats = record {
      total_polls = 0;
      total_idles = 0;
      total_tasks_executed = 0;
      total_exec_ns = 0;
    };
    tls_source_queue_idx = size_max;
    world = 0;
  };
  idx_engine = 1;
  idx_net_io = 7;
  idx_disk_io = 8;
  idx_affine = 0;
  idx_timer = 9;
  dispatch_mode = indirect;
  timers = three_timers;
}

-- A local queue takes the four items.
swap-Swapped_example :
    (w' : OnlineWorker counter ℕ ℕ) × (swap_engine_queue counter ℕ ℕ 9
        (local empty_yield)
        worker_now
      ≡ some (true, w'))
    × Swapped counter ℕ ℕ (ring (ring_of 4)) (local empty_yield) worker_now w'
swap-Swapped_example =
    swap-Swapped counter ℕ ℕ 9 (ring (ring_of 4)) (local empty_yield) worker_now refl
      (ring_of-IsValid 4 (omega arith)) (record { head_in = omega arith; tail_in = omega arith })
      (omega arith)

abbrev five_online : GroupConfig
five_online = record {
  num_workers = 5;
  base_cpu_id = 0;
  auto_discover_numa = true;
  per_numa_workers = [];
  pin_cpu = true;
  use_ht_siblings = false;
  bind_memory = true;
}

abbrev group_of : Option OnlineWorkerGroup → OnlineWorkerGroup
group_of (some g) = g
group_of none = record {
  workers = [];
  numa_worker_lists = [];
  numa_worker_ranges = [];
  worker_ranks = [];
}

group_made-Ranked_example :
    Ranked (group_of (make_group five_online machine))
    × ((flatten (group_of (make_group five_online machine)).numa_worker_lists
          ≡ addresses (group_of (make_group five_online machine)).workers)
        ⊎ ((group_of (make_group five_online machine)).numa_worker_lists ≡ []))
unfolding make_group discover_topology workers_per_numa create_workers node_workers numa_count
    usable_pus even_shares
group_made-Ranked_example =
    group_made-Ranked five_online machine (group_of (make_group five_online machine)) refl
