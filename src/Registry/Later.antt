-- ===== src/Registry/Later.antt =====
-- What later registrations in worker_registry.cc leave of an executor's worker: those that take their
-- ids from the registry's counter.
use storage_engine.Prelude.{
  ℕ, ◌+◌, ◌<◌, ◌≡◌, ◌≢◌, refl, ◌∙◌, false, none, some, List, [], ◌∷◌, length, arith, All, add_word,
  word,
}
use storage_engine.Registry.{
  online, OfflineKey, WorkerRegistry, same_key, register_worker, register_online_worker,
  register_offline_worker,
}
use storage_engine.Registry.Ids.{Registered, offline_worker-Registered, stored_elsewhere}

pub data Registration : Type 0 where
  of_online : (worker node : ℕ) → Registration
  of_offline : (exec local_id node : ℕ) → Registration

abbrev pub register : Registration → WorkerRegistry → WorkerRegistry
register (of_online worker node) r = (register_online_worker worker node r).1
register (of_offline exec local_id node) r = (register_offline_worker exec local_id node r).1

abbrev pub register_all : List Registration → WorkerRegistry → WorkerRegistry
register_all [] r = r
register_all (x ∷ xs) r = register_all xs (register x r)

-- A registration of another worker than this one of an executor.
abbrev pub OtherThan : OfflineKey → Registration → Type 0
OtherThan key (of_online worker node) = Unit
OtherThan key (of_offline exec local_id node) =
    same_key (record { exec = exec; local_id = local_id }) key ≡ false

next_id :
    (x : Registration) (r : WorkerRegistry)
    → (register x r).next_global_id ≡ add_word r.next_global_id 1
unfolding register_online_worker register_worker register_offline_worker
next_id (of_online worker node) r = refl
next_id (of_offline exec local_id node) r = refl

register-Registered :
    (x : Registration) (exec local_id gid : ℕ) (r : WorkerRegistry)
    → Registered exec local_id gid r
    → OtherThan (record { exec = exec; local_id = local_id }) x
    → r.next_global_id ≢ gid
    → Registered exec local_id gid (register x r)
unfolding register_online_worker register_worker register_offline_worker
register-Registered (of_online worker node) exec local_id gid r known other ne = record {
  known = known.known;
  leads =
      stored_elsewhere none (some (online worker)) r.next_global_id gid r.handles ne ∙ known.leads;
}
register-Registered (of_offline e w node) exec local_id gid r known other ne =
    (offline_worker-Registered e w node r).1 exec local_id gid known other ne

-- A worker of an executor stays registered under its id while others are registered, as long as the
-- counter does not wrap.
pub register_all-Registered :
    (xs : List Registration) (exec local_id gid : ℕ) (r : WorkerRegistry)
    → Registered exec local_id gid r
    → All (OtherThan (record { exec = exec; local_id = local_id })) xs
    → gid < r.next_global_id
    → r.next_global_id + length xs < word
    → Registered exec local_id gid (register_all xs r)
      × (gid < (register_all xs r).next_global_id)
      × ((register_all xs r).next_global_id ≡ r.next_global_id + length xs)
register_all-Registered [] exec local_id gid r known others lt room = (known, lt, omega arith)
register_all-Registered (x ∷ xs) exec local_id gid r known (other, others) lt room =
    let next : (register x r).next_global_id ≡ r.next_global_id + 1 =
      omega (arith, next_id x r, room) in
    let (still, below, count) =
      register_all-Registered xs exec local_id gid (register x r)
        (register-Registered x exec local_id gid r known other (omega (arith, lt))) others
        (omega (arith, lt, next)) (omega (arith, next, room)) in
    (still, below, omega (arith, count, next))
