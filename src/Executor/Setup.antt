-- ===== src/Executor/Setup.antt =====
-- The constructor of work_stealing_executor.cc: the workers, their numbers, nodes and peers.
pub mod Staffing
pub mod Peers
use storage_engine.Prelude.{
  ℕ, zero, suc, ◌+◌, ◌/◌, ◌%◌, Bool, true, false, not, ◌&&◌, ◌||◌, Option, none, some, List, [],
  ◌∷◌, ◌++◌, ◌==◌, ltb, if◌then◌else◌, length, get_or, get_elem?, set,
}
use storage_engine.Topology.{
  Pu, Hwloc, numa_count, phys_per_numa, accumulate, even_shares, proportional_shares, usable_pus,
}

pub record ExecutorConfig : Type 0 where
  pub num_workers : ℕ
  pub pin_cpus : Bool
  pub use_ht_siblings : Bool
  pub numa_aware_stealing : Bool

-- What the constructor settles for a worker; without a processor to bind it to, hwloc_cpu is -1.
pub record WorkerSeed : Type 0 where
  pub id : ℕ
  pub numa_node : ℕ
  pub hwloc_cpu : Option ℕ

-- The workers per node and their total.
unfoldable pub staffing : ExecutorConfig → Hwloc → List ℕ × ℕ
staffing cfg h =
    let count = numa_count h in
    let total = cfg.num_workers in
    let phys = phys_per_numa h 0 count in
    if total == 0
    then (phys, accumulate phys)
    else (if not cfg.numa_aware_stealing
        then (even_shares (total / count) (total % count) 0 count, total)
        else (proportional_shares total (accumulate phys) 0 phys, total))

-- A total of 0 becomes one worker on node 0.
abbrev pub at_least_one : List ℕ × ℕ → List ℕ × ℕ
at_least_one (per_numa, total) = if total == 0 then (set per_numa 0 1, 1) else (per_numa, total)

abbrev pub pus_of : Bool → Option (List Pu) → List ℕ
pus_of use_ht_siblings none = []
pus_of use_ht_siblings (some pus) = usable_pus use_ht_siblings pus

abbrev pub cpu_for : Bool → List ℕ → ℕ → Option ℕ
cpu_for pin pus w = if not (length pus == 0) && pin then get_elem? pus (w % length pus) else none

-- The workers of node `n`, `left` of them from number `w` of the node and `id` of all on.
unfoldable pub node_workers : Bool → List ℕ → (n total left w id : ℕ) → List WorkerSeed
node_workers pin pus n total zero w id = []
node_workers pin pus n total (suc left) w id =
    let rest = node_workers pin pus n total left (w + 1) (id + 1) in
    if ltb id total
    then record { id = id; numa_node = n; hwloc_cpu = cpu_for pin pus w } ∷ rest
    else []

-- The nodes from `n` on.
unfoldable pub create_workers : ExecutorConfig → Hwloc → (total n id : ℕ) → List ℕ → List WorkerSeed
unfolding node_workers
create_workers cfg h total n id [] = []
create_workers cfg h total n id (count ∷ per_numa) =
    let here =
      node_workers cfg.pin_cpus (pus_of cfg.use_ht_siblings (h.node n)) n total count 0 id in
    here ++ create_workers cfg h total (n + 1) (id + length here) per_numa

unfoldable pub workers : ExecutorConfig → Hwloc → List WorkerSeed
unfolding staffing create_workers
workers cfg h =
    let (per_numa, total) = at_least_one (staffing cfg h) in create_workers cfg h total 0 0 per_numa

-- The inner loop over `j`: those that worker `i`, on node `node`, may steal from.
unfoldable pub peers_from : Bool → (i node j : ℕ) → List WorkerSeed → List ℕ
peers_from numa_aware i node j [] = []
peers_from numa_aware i node j (ws ∷ rest) =
    let others = peers_from numa_aware i node (j + 1) rest in
    if not (i == j) && (not numa_aware || node == ws.numa_node) then j ∷ others else others

unfoldable pub numa_peers : Bool → (i : ℕ) → WorkerSeed → List WorkerSeed → List ℕ
unfolding peers_from
numa_peers numa_aware i ws all = peers_from numa_aware i ws.numa_node 0 all
