-- ===== src/Online/Group.antt =====
-- src/runtime/online_group.h and .cc. hwloc is the parameter of Topology. A worker is a number that
-- stands for its address, the one it is created with; the hash map of ranks is a list of pairs. The
-- constructor follows a null pointer where hwloc has no such node, which is `none`. Starting and
-- stopping the threads is not modelled.
pub mod Layout
use storage_engine.Prelude.{
  ℕ, zero, suc, ◌+◌, ◌/◌, ◌%◌, ◌^◌, Bool, true, false, not, ◌&&◌, ◌||◌, Option, none, some, List,
  [], ◌∷◌, ◌++◌, ◌==◌, leb, ltb, if◌then◌else◌, length, get_or, get_elem?, take, replicate,
  size_max, add_word,
}
use storage_engine.Topology.{Pu, Hwloc, numa_count, phys_cores, even_shares, usable_pus}

pub record GroupConfig : Type 0 where
  pub num_workers : ℕ
  pub base_cpu_id : ℕ
  pub auto_discover_numa : Bool
  pub per_numa_workers : List ℕ
  pub pin_cpu : Bool
  pub use_ht_siblings : Bool
  pub bind_memory : Bool

-- A worker with its configuration.
pub record GroupWorker : Type 0 where
  pub address : ℕ
  pub cpu_id : ℕ
  pub numa_node : ℕ

pub record OnlineWorkerGroup : Type 0 where
  pub workers : List GroupWorker
  pub numa_worker_lists : List (List ℕ)
  pub numa_worker_ranges : List ℕ
  pub worker_ranks : List (ℕ × ℕ)

abbrev uint32 : ℕ → ℕ
uint32 x = x % 2 ^ 32

-- `resize(n, 0)`.
abbrev pub resized : ℕ → List ℕ → List ℕ
resized n xs = take n (xs ++ replicate n 0)

-- One worker per physical core: the nodes from `n` on, `left` of them.
unfoldable pub cores_per_numa : Hwloc → (n left : ℕ) → Option (List ℕ)
cores_per_numa h n zero = some []
cores_per_numa h n (suc left) =
    let rest = cores_per_numa h (n + 1) left in
    elim (h.node n) [
      | none ↦ none
      | some pus ↦ elim rest [ none ↦ none | some counts ↦ some (phys_cores pus ∷ counts) ]
    ]

unfoldable pub workers_per_numa : GroupConfig → Hwloc → Option (List ℕ)
unfolding cores_per_numa
workers_per_numa cfg h =
    let count = numa_count h in
    if not (length cfg.per_numa_workers == 0)
    then some (resized count cfg.per_numa_workers)
    else (if cfg.num_workers == 0
        then cores_per_numa h 0 count
        else some (even_shares (cfg.num_workers / count) (cfg.num_workers % count) 0 count))

-- 0 is no binding.
abbrev pub cpu_id_for : GroupConfig → List ℕ → (w global_id : ℕ) → ℕ
cpu_id_for cfg pus w global_id =
    if not (length pus == 0) && cfg.pin_cpu
    then uint32 (uint32 (get_or pus (w % length pus) 0) + 1)
    else (if ltb 0 cfg.base_cpu_id then uint32 (cfg.base_cpu_id + uint32 global_id) else 0)

abbrev pub numa_node_for : GroupConfig → ℕ → ℕ
numa_node_for cfg n = if cfg.bind_memory then uint32 (n + 1) else 0

-- The inner loop: the workers of node `n`, `left` of them, number `w` of the node and `gid` of all next.
unfoldable pub node_workers : GroupConfig → List ℕ → (n left w gid : ℕ) → List GroupWorker
node_workers cfg pus n zero w gid = []
node_workers cfg pus n (suc left) w gid =
    record { address = gid; cpu_id = cpu_id_for cfg pus w gid; numa_node = numa_node_for cfg n }
    ∷ node_workers cfg pus n left (w + 1) (gid + 1)

abbrev pub addresses : List GroupWorker → List ℕ
addresses [] = []
addresses (w ∷ workers) = w.address ∷ addresses workers

abbrev ranked : ℕ → List GroupWorker → List (ℕ × ℕ)
ranked gid [] = []
ranked gid (w ∷ workers) = (w.address, gid) ∷ ranked (gid + 1) workers

-- The loop over the nodes from `n` on, `gid` workers made before.
unfoldable pub create_workers :
    GroupConfig → Hwloc → (n gid : ℕ) → List ℕ → Option OnlineWorkerGroup
unfolding node_workers
create_workers cfg h n gid [] =
    some
      (record { workers = []; numa_worker_lists = []; numa_worker_ranges = []; worker_ranks = [] })
create_workers cfg h n gid (count ∷ per_numa) =
    let rest = create_workers cfg h (n + 1) (gid + count) per_numa in
    elim (h.node n) [
      | none ↦ none
      | some pus ↦ elim rest [
        | none ↦ none
        | some g ↦
            let here = node_workers cfg (usable_pus cfg.use_ht_siblings pus) n count 0 gid in
            some (record {
              workers = here ++ g.workers;
              numa_worker_lists = addresses here ∷ g.numa_worker_lists;
              numa_worker_ranges = gid ∷ g.numa_worker_ranges;
              worker_ranks = ranked gid here ++ g.worker_ranks;
            })
      ]
    ]

unfoldable pub discover_topology : GroupConfig → Hwloc → Option OnlineWorkerGroup
unfolding workers_per_numa create_workers
discover_topology cfg h = elim (workers_per_numa cfg h) [
  | none ↦ none
  | some per_numa ↦ create_workers cfg h 0 0 per_numa
]

-- Without discovery: the workers from number `i` on, `left` of them.
unfoldable pub legacy_workers : GroupConfig → (i left : ℕ) → List GroupWorker
legacy_workers cfg i zero = []
legacy_workers cfg i (suc left) =
    record {
      address = i;
      cpu_id = uint32 (cfg.base_cpu_id + uint32 i + (if cfg.pin_cpu then 1 else 0));
      numa_node = if cfg.bind_memory then 1 else 0;
    }
    ∷ legacy_workers cfg (i + 1) left

unfoldable pub make_group : GroupConfig → Hwloc → Option OnlineWorkerGroup
unfolding discover_topology legacy_workers
make_group cfg h =
    if cfg.auto_discover_numa || not (length cfg.per_numa_workers == 0)
    then discover_topology cfg h
    else some (record {
      workers = legacy_workers cfg 0 cfg.num_workers;
      numa_worker_lists = [];
      numa_worker_ranges = [];
      worker_ranks = ranked 0 (legacy_workers cfg 0 cfg.num_workers);
    })

unfoldable pub route_by_hash : OnlineWorkerGroup → ℕ → ℕ
route_by_hash g key = if length g.workers == 0 then 0 else key % length g.workers

-- A node below 0 is past the end as a size_t.
abbrev pub get_numa_workers : OnlineWorkerGroup → ℕ → List ℕ
get_numa_workers g nid =
    if ltb nid (length g.numa_worker_lists) then get_or g.numa_worker_lists nid [] else []

unfoldable pub route_by_numa_hash : OnlineWorkerGroup → (key nid : ℕ) → ℕ
unfolding route_by_hash
route_by_numa_hash g key nid =
    if leb (length g.numa_worker_lists) nid || length (get_or g.numa_worker_lists nid []) == 0
    then route_by_hash g key
    else key % length (get_or g.numa_worker_lists nid [])

unfoldable pub find_rank : ℕ → List (ℕ × ℕ) → Option ℕ
find_rank w [] = none
find_rank w ((address, r) ∷ ranks) =
    let rest = find_rank w ranks in if address == w then some r else rest

unfoldable pub rank : OnlineWorkerGroup → ℕ → ℕ
unfolding find_rank
rank g w = elim (find_rank w g.worker_ranks) [ none ↦ size_max | some r ↦ r ]

pub record OnlineGroupStats : Type 0 where
  pub worker_count : ℕ
  pub total_tasks_executed : ℕ
  pub total_exec_ns : ℕ

-- The sums over the workers' counters, which are a parameter.
unfoldable pub add_stats :
    (tasks exec_ns : ℕ → ℕ) → List GroupWorker → OnlineGroupStats → OnlineGroupStats
add_stats tasks exec_ns [] s = s
add_stats tasks exec_ns (w ∷ workers) s = add_stats tasks exec_ns workers (record s {
  total_tasks_executed = add_word s.total_tasks_executed (tasks w.address);
  total_exec_ns = add_word s.total_exec_ns (exec_ns w.address);
})

unfoldable pub stats : (tasks exec_ns : ℕ → ℕ) → OnlineWorkerGroup → OnlineGroupStats
unfolding add_stats
stats tasks exec_ns g =
    add_stats tasks exec_ns g.workers
      (record { worker_count = length g.workers; total_tasks_executed = 0; total_exec_ns = 0 })
