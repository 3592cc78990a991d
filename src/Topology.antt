-- ===== src/Topology.antt =====
-- The machine's layout as hwloc reports it to online_group.cc and work_stealing_executor.cc in
-- src/runtime, and the number of workers that the executor gives to each NUMA node. hwloc is a parameter: the number of nodes, and
-- for each node its processing units, if it is there.
pub mod Shares
use storage_engine.Prelude.{
  ℕ, zero, suc, ◌+◌, ◌*◌, ◌/◌, ◌%◌, Bool, true, false, not, ◌&&◌, ◌||◌, Option, none, some, List,
  [], ◌∷◌, ◌++◌, ◌==◌, ltb, if◌then◌else◌, length, get_or, set, add_word, sub_word, word,
}

-- `pu == core->children[0]` of the core above it.
pub record Pu : Type 0 where
  pub os_index : ℕ
  pub first_of_core : Bool

pub record Hwloc : Type 0 where
  pub nbobjs : ℕ
  pub node : ℕ → Option (List Pu)

unfoldable pub numa_count : Hwloc → ℕ
numa_count h = if ltb h.nbobjs 1 then 1 else h.nbobjs

unfoldable pub phys_cores : List Pu → ℕ
phys_cores [] = 0
phys_cores (pu ∷ pus) = let rest = phys_cores pus in if pu.first_of_core then rest + 1 else rest

-- At least one, also for a node that is not there.
unfoldable pub phys_at : Hwloc → ℕ → ℕ
phys_at h n = elim (h.node n) [
  | none ↦ 1
  | some pus ↦ if phys_cores pus == 0 then 1 else phys_cores pus
]

-- The loop over the nodes, `left` of them from `n` on.
unfoldable pub phys_per_numa : Hwloc → (n left : ℕ) → List ℕ
phys_per_numa h n zero = []
phys_per_numa h n (suc left) = phys_at h n ∷ phys_per_numa h (n + 1) left

-- std::accumulate over size_t.
unfoldable pub accumulate : List ℕ → ℕ
accumulate [] = 0
accumulate (x ∷ xs) = add_word x (accumulate xs)

unfoldable pub even_shares : (base rem : ℕ) → (n left : ℕ) → List ℕ
even_shares base rem n zero = []
even_shares base rem n (suc left) =
    (base + (if ltb n rem then 1 else 0)) ∷ even_shares base rem (n + 1) left

-- The last node gets what the others leave.
unfoldable pub proportional_shares : (total total_phys allocated : ℕ) → List ℕ → List ℕ
proportional_shares total total_phys allocated [] = []
proportional_shares total total_phys allocated (phys ∷ []) = sub_word total allocated ∷ []
proportional_shares total total_phys allocated (phys ∷ next ∷ rest) =
    let share = total * phys % word / total_phys in
    share ∷ proportional_shares total total_phys (add_word allocated share) (next ∷ rest)

-- The units that workers of a node may be bound to.
unfoldable pub usable_pus : Bool → List Pu → List ℕ
usable_pus use_ht_siblings [] = []
usable_pus use_ht_siblings (pu ∷ pus) =
    let rest = usable_pus use_ht_siblings pus in
    if use_ht_siblings || pu.first_of_core then pu.os_index ∷ rest else rest
