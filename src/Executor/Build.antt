-- ===== src/Executor/Build.antt =====
-- The state that the constructor of work_stealing_executor.cc leaves: rings of 4096 and 65536 entries,
-- all empty.
use storage_engine.Prelude.{
  ℕ, ◌≡◌, refl, ap, false, Option, none, some, List, [], ◌∷◌, length, get_or, arith, size_max, zero,
  suc, ◌+◌, ◌*◌, ◌<◌, ◌∙◌, sym, not, ltb, ◌==◌, ◌&&◌, ◌||◌, word,
}
use storage_engine.Work.{WorkItem, make_func}
use storage_engine.Idle.{EventFd, AdaptiveIdle}
use storage_engine.Topology.{Hwloc, numa_count, phys_per_numa}
use storage_engine.Topology.Shares.{sum}
use storage_engine.Prelude.Ranges.{range_from}
use storage_engine.Executor.Setup.Staffing.{ids, workers_numbered}
use storage_engine.Executor.Setup.Peers.{holds, node_at, peer_iff}
use storage_engine.Ring.Mpmc.{MpmcRing, make}
use storage_engine.Ring.Mpmc.Contents as Mpmc
use storage_engine.Ring.Mpmc.Sizes.{mpmc_ring_made, power-IsCapacity}
use storage_engine.Ring.Local.Refine.{size-eq-zero}
use storage_engine.Prelude.Window.{window}
use storage_engine.Ring.Local.{LocalQueue}
use storage_engine.Executor.{WorkerState, Executor, yield_capacity}
use storage_engine.Executor.Setup.{ExecutorConfig, WorkerSeed, workers, numa_peers}
use storage_engine.Executor.Queues.{QueueId, yield_of, local_of, entry, content, IsValid}

-- WorkItem(): a null function.
abbrev pub no_item : WorkItem
no_item = make_func 0

abbrev pub empty_yield : LocalQueue WorkItem
empty_yield = record { items = λ _. no_item; head = 0; tail = 0 }

abbrev pub no_seed : WorkerSeed
no_seed = record { id = 0; numa_node = 0; hwloc_cpu = none }

get_or-node :
    (seeds : List WorkerSeed) (i : ℕ) → (get_or seeds i no_seed).numa_node ≡ node_at seeds i
get_or-node [] i = refl
get_or-node (seed ∷ rest) zero = refl
get_or-node (seed ∷ rest) (suc i) = get_or-node rest i

abbrev later : List ℕ → List ℕ
later [] = []
later (x ∷ xs) = xs

id_at :
    (seeds : List WorkerSeed) (first i : ℕ)
    → i < length seeds
    → ids seeds ≡ range_from first (length seeds)
    → (get_or seeds i no_seed).id ≡ first + i
id_at [] first i lt e = absurd (omega (arith, lt))
id_at (seed ∷ rest) first zero lt e = omega (arith, ap (λ l. get_or l 0 0) e)
id_at (seed ∷ rest) first (suc i) lt e =
    id_at rest (first + 1) i (omega (arith, lt)) (ap later e) ∙ omega arith

get_or-id :
    (seeds : List WorkerSeed) (i : ℕ)
    → i < length seeds
    → ids seeds ≡ range_from 0 (length seeds)
    → (get_or seeds i no_seed).id ≡ i
get_or-id seeds i lt e = id_at seeds 0 i lt e ∙ omega arith

module _ (events : EventFd) where
  unfoldable pub new_worker :
      AdaptiveIdle events
      → MpmcRing WorkItem
      → ExecutorConfig
      → List WorkerSeed
      → ℕ
      → WorkerState events
  new_worker park ring cfg seeds i =
      let seed = get_or seeds i no_seed in
      record {
        id = seed.id;
        local_deque = ring;
        yield_queue = empty_yield;
        running = false;
        park = park;
        numa_peers = numa_peers cfg.numa_aware_stealing i seed seeds;
        tasks_executed = 0;
        coro_resumes = 0;
        steals_success = 0;
        steals_failed = 0;
        parks = 0;
        tls_source_queue = none;
        tls_source_queue_idx = size_max;
      }

  -- `none` is fuel run out in the constructor of a ring.
  unfoldable pub make_executor :
      AdaptiveIdle events → ExecutorConfig → (steal_attempts : ℕ) → Hwloc → Option (Executor events)
  unfolding new_worker
  make_executor park cfg steal_attempts h = elim (make 4096 no_item) [
    | none ↦ none
    | some ring ↦ elim (make 65536 no_item) [
      | none ↦ none
      | some entry_ring ↦
          let seeds = workers cfg h in
          some (record {
            steal_attempts = steal_attempts;
            num_workers = length seeds;
            workers = new_worker park ring cfg seeds;
            global_entry = entry_ring;
            add_counter = 0;
            wse_tasks = 0;
            wse_steals = 0;
          })
    ]
  ]

  -- The constructor ends with valid queues that hold nothing, and with workers that are numbered by
  -- their places in the vector: a worker may steal from those other than itself, with NUMA-aware stealing
  -- only from those of its node; provided that the products of the constructor fit a size_t.
  pub executor_made :
      (park : AdaptiveIdle events) (cfg : ExecutorConfig) (steal_attempts : ℕ) (h : Hwloc)
      → cfg.num_workers < word
      → sum (phys_per_numa h 0 (numa_count h)) < word
      → cfg.num_workers * sum (phys_per_numa h 0 (numa_count h)) < word
      → (ex : Executor events) × (make_executor park cfg steal_attempts h ≡ some ex)
        × IsValid events ex
        × ((q : QueueId) → content events ex q ≡ [])
        × (ex.num_workers ≡ length (workers cfg h))
        × ((i k : ℕ)
            → i < ex.num_workers
            → ((ex.workers i).id ≡ i)
              × (holds k (ex.workers i).numa_peers ≡ (
                  ltb k ex.num_workers
                  && (not (i == k)
                      && (not cfg.numa_aware_stealing
                          || (node_at (workers cfg h) i == node_at (workers cfg h) k))))))
  unfolding make_executor new_worker
  executor_made park cfg steal_attempts h small phys_word product =
      let (ring, e, sized, v, none_held) = mpmc_ring_made 4096 no_item (omega arith) in
      let (entry_ring, e', sized', v', none_held') = mpmc_ring_made 65536 no_item (omega arith) in
      let seeds = workers cfg h in
      let ex : Executor events = record {
        steal_attempts = steal_attempts;
        num_workers = length seeds;
        workers = new_worker park ring cfg seeds;
        global_entry = entry_ring;
        add_counter = 0;
        wse_tasks = 0;
        wse_steals = 0;
      } in
      (
        ex,
        rw (make_executor, e, e') refl,
        record {
          rings = λ j. v;
          yields = λ j. record { head_in = omega arith; tail_in = omega arith };
          entry_ring = v';
        },
        all_empty ring entry_ring none_held none_held',
        refl,
        λ i k inside. (
          get_or-id seeds i inside (workers_numbered cfg h small phys_word product).0,
          rw (sym (get_or-node seeds i))
              (peer_iff cfg.numa_aware_stealing i k (get_or seeds i no_seed) seeds),
        ),
      )
    where
      all_empty :
          (ring entry_ring : MpmcRing WorkItem)
          → Mpmc.contents ring ≡ []
          → Mpmc.contents entry_ring ≡ []
          → (q : QueueId)
          → content events
              (record {
                steal_attempts = steal_attempts;
                num_workers = length (workers cfg h);
                workers = new_worker park ring cfg (workers cfg h);
                global_entry = entry_ring;
                add_counter = 0;
                wse_tasks = 0;
                wse_steals = 0;
              })
              q
            ≡ []
      all_empty ring entry_ring e e' (yield_of j) = ap (window yield_capacity empty_yield.items 0) (
          size-eq-zero (power-IsCapacity 10 (omega arith)) empty_yield
            (record { head_in = omega arith; tail_in = omega arith }) refl)
      all_empty ring entry_ring e e' (local_of j) = e
      all_empty ring entry_ring e e' entry = e'
