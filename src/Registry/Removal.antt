-- ===== src/Registry/Removal.antt =====
-- What is left of an executor in the registry once it is removed.
use mathlib.Core.Path.{subst}
use storage_engine.Prelude.{
  ℕ, zero, suc, ◌≡◌, ◌≢◌, refl, sym, ap, ◌∙◌, inl, inr, true, false, Option, none, some, List, [],
  ◌∷◌, ◌==◌, get_or, set, size_max, arith, Bool-cases, and_left,
}
use storage_engine.Registry.{
  WorkerHandle, OfflineEntry, WorkerRegistry, same_key, find, get_global_id_for_offline,
  or_size_max, get_handle, to_remove, reset_handles, erase_executor, remove_executor,
}

set-none : (xs : List (Option WorkerHandle)) (i : ℕ) → get_or (set xs i none) i none ≡ none
set-none [] i = refl
set-none (x ∷ xs) zero = refl
set-none (x ∷ xs) (suc i) = set-none xs i

set-none_kept :
    (xs : List (Option WorkerHandle)) (i j : ℕ)
    → get_or xs i none ≡ none
    → get_or (set xs j none) i none ≡ none
set-none_kept [] i j e = refl
set-none_kept (x ∷ xs) zero zero e = refl
set-none_kept (x ∷ xs) zero (suc j) e = e
set-none_kept (x ∷ xs) (suc i) zero e = e
set-none_kept (x ∷ xs) (suc i) (suc j) e = set-none_kept xs i j e

reset_kept :
    (gids : List ℕ) (xs : List (Option WorkerHandle)) (i : ℕ)
    → get_or xs i none ≡ none
    → get_or (reset_handles gids xs) i none ≡ none
unfolding reset_handles
reset_kept [] xs i e = e
reset_kept (gid ∷ gids) xs i e = reset_kept gids (set xs gid none) i (set-none_kept xs i gid e)

-- An entry of the executor is found, so its handle is reset.
found_reset :
    (exec local_id gid : ℕ) (entries : List OfflineEntry) (xs : List (Option WorkerHandle))
    → find (record { exec = exec; local_id = local_id }) entries ≡ some gid
    → get_or (reset_handles (to_remove exec entries) xs) gid none ≡ none
unfolding find to_remove reset_handles
found_reset exec local_id gid [] xs e = cc
found_reset exec local_id gid (entry ∷ entries) xs e =
    elim (Bool-cases (same_key entry.key (record { exec = exec; local_id = local_id }))) [
      | inl hit ↦
          let this : entry.key.exec == exec ≡ true =
            and_left (entry.key.exec == exec) (entry.key.local_id == local_id) hit in
          let here : entry.gid ≡ gid =
            ap number {x = some entry.gid} {y = some gid} (sym (rw hit refl) ∙ e) in
          rw this (
            reset_kept (to_remove exec entries) (set xs entry.gid none) gid (
              subst (λ i. get_or (set xs entry.gid none) i none ≡ none) here
                (set-none xs entry.gid)))
      | inr miss ↦
          let on : find (record { exec = exec; local_id = local_id }) entries ≡ some gid =
            sym (rw miss refl) ∙ e in
          elim (Bool-cases (entry.key.exec == exec)) [
            | inl own ↦ rw own (found_reset exec local_id gid entries (set xs entry.gid none) on)
            | inr other ↦ rw other (found_reset exec local_id gid entries xs on)
          ]
    ]
  where
    number : Option ℕ → ℕ
    number none = 0
    number (some n) = n

erased_misses :
    (exec local_id : ℕ) (entries : List OfflineEntry)
    → find (record { exec = exec; local_id = local_id }) (erase_executor exec entries) ≡ none
unfolding find erase_executor
erased_misses exec local_id [] = refl
erased_misses exec local_id (entry ∷ entries) = elim (Bool-cases (entry.key.exec == exec)) [
  | inl e ↦ rw e (erased_misses exec local_id entries)
  | inr e ↦ rw (e, e) (erased_misses exec local_id entries)
]

others_found :
    (exec other local_id : ℕ) (entries : List OfflineEntry)
    → exec ≢ other
    → find (record { exec = other; local_id = local_id }) (erase_executor exec entries)
      ≡ find (record { exec = other; local_id = local_id }) entries
unfolding find erase_executor
others_found exec other local_id [] ne = refl
others_found exec other local_id (entry ∷ entries) ne = elim (Bool-cases (entry.key.exec == exec)) [
  | inl own ↦ rw (own, foreign own) (others_found exec other local_id entries ne)
  | inr kept ↦
      elim (Bool-cases (same_key entry.key (record { exec = other; local_id = local_id }))) [
        | inl hit ↦ rw (kept, hit) refl
        | inr miss ↦ rw (kept, miss) (others_found exec other local_id entries ne)
      ]
]
  where
    differ : (a b c : ℕ) → b ≢ c → (a == b) ≡ true → (a == c) ≡ false
    differ a b c ne e = ground (arith, ne, e)

    foreign : (entry.key.exec == exec) ≡ true → (entry.key.exec == other) ≡ false
    foreign own = differ entry.key.exec exec other ne own

-- Removing an executor: no id is found for its workers any more, the handles under the ids that were
-- found for them are null, and the ids of other executors' workers are found as before.
pub executor_removed :
    (exec : ℕ) (r : WorkerRegistry)
    → ((local_id : ℕ) → get_global_id_for_offline (remove_executor exec r) exec local_id ≡ size_max)
      × ((local_id gid : ℕ)
          → find (record { exec = exec; local_id = local_id }) r.offline_global_id ≡ some gid
          → get_handle (remove_executor exec r) gid ≡ none)
      × ((other local_id : ℕ)
          → exec ≢ other
          → get_global_id_for_offline (remove_executor exec r) other local_id
            ≡ get_global_id_for_offline r other local_id)
unfolding remove_executor
executor_removed exec r = (
  λ local_id. ap or_size_max (erased_misses exec local_id r.offline_global_id),
  λ local_id gid e. found_reset exec local_id gid r.offline_global_id r.handles e,
  λ other local_id ne. ap or_size_max (others_found exec other local_id r.offline_global_id ne),
)
