-- ===== src/Registry.antt =====
-- src/runtime/worker_registry.h and .cc. Workers and executors are numbers that stand for their
-- addresses; the hash map is a list of pairs, of which a key has one; each call holds the mutex and is
-- one step. A node's number is taken as `size_t`. Delivery to a worker is not modelled.
pub mod Ids
pub mod Removal
pub mod Later
use storage_engine.Prelude.{
  ℕ, zero, suc, ◌+◌, ◌-◌, Bool, true, false, ◌&&◌, Option, none, some, List, [], ◌∷◌, ◌++◌, ◌==◌,
  ltb, leb, if◌then◌else◌, length, get_or, set, replicate, size_max, add_word,
}

pub data WorkerHandle : Type 0 where
  online : ℕ → WorkerHandle
  offline : (exec local_id : ℕ) → WorkerHandle

pub record OfflineKey : Type 0 where
  pub exec : ℕ
  pub local_id : ℕ

pub record OfflineEntry : Type 0 where
  pub key : OfflineKey
  pub gid : ℕ

pub record WorkerRegistry : Type 0 where
  pub all : List (Option ℕ)
  pub by_numa : List (List ℕ)
  pub handles : List (Option WorkerHandle)
  pub offline_by_numa : List (List ℕ)
  pub offline_global_id : List OfflineEntry
  pub next_global_id : ℕ

abbrev pub empty_registry : WorkerRegistry
empty_registry = record {
  all = [];
  by_numa = [];
  handles = [];
  offline_by_numa = [];
  offline_global_id = [];
  next_global_id = 0;
}

-- if (i >= size) resize(i + 1).
abbrev pub reach {ℓ} : {A : Type ℓ} → A → ℕ → List A → List A
reach blank i xs = if leb (length xs) i then xs ++ replicate (i + 1 - length xs) blank else xs

abbrev append_at : ℕ → ℕ → List (List ℕ) → List (List ℕ)
append_at node x groups =
    let reached = reach [] node groups in set reached node (get_or reached node [] ++ (x ∷ []))

unfoldable pub register_worker : ℕ → ℕ → ℕ → WorkerRegistry → WorkerRegistry
register_worker worker global_id node r = record r {
  all = set (reach none global_id r.all) global_id (some worker);
  by_numa = append_at node worker r.by_numa;
  handles = set (reach none global_id r.handles) global_id (some (online worker));
}

unfoldable pub register_online_worker : ℕ → ℕ → WorkerRegistry → ℕ × WorkerRegistry
register_online_worker worker node r =
    let gid = r.next_global_id in
    (gid, register_worker worker gid node (record r { next_global_id = add_word gid 1 }))

abbrev pub same_key : OfflineKey → OfflineKey → Bool
same_key a b = (a.exec == b.exec) && (a.local_id == b.local_id)

-- `map[key] = gid`.
unfoldable pub assign : OfflineKey → ℕ → List OfflineEntry → List OfflineEntry
assign key gid [] = record { key = key; gid = gid } ∷ []
assign key gid (e ∷ entries) =
    let rest = assign key gid entries in
    if same_key e.key key then record { key = key; gid = gid } ∷ entries else e ∷ rest

unfoldable pub register_offline_worker : ℕ → ℕ → ℕ → WorkerRegistry → ℕ × WorkerRegistry
register_offline_worker exec local_id node r =
    let gid = r.next_global_id in
    (
      gid,
      record r {
        next_global_id = add_word gid 1;
        handles = set (reach none gid r.handles) gid (some (offline exec local_id));
        offline_by_numa = append_at node gid r.offline_by_numa;
        offline_global_id =
            assign (record { exec = exec; local_id = local_id }) gid r.offline_global_id;
      },
    )

abbrev pub total_workers : WorkerRegistry → ℕ
total_workers r = length r.all

abbrev pub get_by_id : WorkerRegistry → ℕ → Option ℕ
get_by_id r global_id = get_or r.all global_id none

abbrev pub get_by_numa : WorkerRegistry → ℕ → List ℕ
get_by_numa r node = get_or r.by_numa node []

-- A null pointer is none.
abbrev pub get_handle : WorkerRegistry → ℕ → Option WorkerHandle
get_handle r global_id = get_or r.handles global_id none

unfoldable pub find : OfflineKey → List OfflineEntry → Option ℕ
find key [] = none
find key (e ∷ entries) =
    let rest = find key entries in if same_key e.key key then some e.gid else rest

abbrev pub or_size_max : Option ℕ → ℕ
or_size_max none = size_max
or_size_max (some gid) = gid

abbrev pub get_global_id_for_offline : WorkerRegistry → ℕ → ℕ → ℕ
get_global_id_for_offline r exec local_id =
    or_size_max (find (record { exec = exec; local_id = local_id }) r.offline_global_id)

-- The global ids of an executor's workers.
unfoldable pub to_remove : ℕ → List OfflineEntry → List ℕ
to_remove exec [] = []
to_remove exec (e ∷ entries) =
    let rest = to_remove exec entries in if e.key.exec == exec then e.gid ∷ rest else rest

unfoldable pub reset_handles : List ℕ → List (Option WorkerHandle) → List (Option WorkerHandle)
reset_handles [] handles = handles
reset_handles (gid ∷ gids) handles = reset_handles gids (set handles gid none)

abbrev holds : ℕ → List ℕ → Bool
holds x [] = false
holds x (y ∷ ys) = if y == x then true else holds x ys

abbrev erase : ℕ → List ℕ → List ℕ
erase x [] = []
erase x (y ∷ ys) = if y == x then ys else y ∷ erase x ys

-- From the first group that holds it.
unfoldable pub erase_from_groups : ℕ → List (List ℕ) → List (List ℕ)
erase_from_groups gid [] = []
erase_from_groups gid (group ∷ groups) =
    let rest = erase_from_groups gid groups in
    if holds gid group then erase gid group ∷ groups else group ∷ rest

unfoldable pub erase_all : List ℕ → List (List ℕ) → List (List ℕ)
erase_all [] groups = groups
erase_all (gid ∷ gids) groups = erase_all gids (erase_from_groups gid groups)

unfoldable pub erase_executor : ℕ → List OfflineEntry → List OfflineEntry
erase_executor exec [] = []
erase_executor exec (e ∷ entries) =
    let rest = erase_executor exec entries in if e.key.exec == exec then rest else e ∷ rest

unfoldable pub remove_executor : ℕ → WorkerRegistry → WorkerRegistry
remove_executor exec r =
    let gids = to_remove exec r.offline_global_id in
    record r {
      handles = reset_handles gids r.handles;
      offline_by_numa = erase_all gids r.offline_by_numa;
      offline_global_id = erase_executor exec r.offline_global_id;
    }
