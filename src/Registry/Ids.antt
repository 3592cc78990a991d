-- ===== src/Registry/Ids.antt =====
-- The ids of the registry in worker_registry.cc: what is found under an id after a registration.
use storage_engine.Prelude.{
  ℕ, zero, suc, ◌+◌, ◌-◌, ◌<◌, ◌≡◌, ◌≢◌, refl, ap, ◌∙◌, inl, inr, true, false, none, some, List, [],
  ◌∷◌, ◌++◌, get_or, set, replicate, leb, length, arith, Bool-cases,
}
use storage_engine.Registry.{
  online, offline, OfflineKey, OfflineEntry, WorkerRegistry, same_key, reach, assign, find,
  get_handle, get_by_id, get_global_id_for_offline, or_size_max, register_worker,
  register_offline_worker,
}

module _ {ℓ} {A : Type ℓ} where
  get_or-set : (xs : List A) (i : ℕ) (v d : A) → i < length xs → get_or (set xs i v) i d ≡ v
  get_or-set [] i v d lt = absurd (omega (arith, lt))
  get_or-set (x ∷ xs) zero v d lt = refl
  get_or-set (x ∷ xs) (suc i) v d lt = get_or-set xs i v d (omega (arith, lt))

  get_or-set_ne :
      (xs : List A) (i j : ℕ) (v d : A) → i ≢ j → get_or (set xs i v) j d ≡ get_or xs j d
  get_or-set_ne [] i j v d ne = refl
  get_or-set_ne (x ∷ xs) zero zero v d ne = absurd (ne refl)
  get_or-set_ne (x ∷ xs) zero (suc j) v d ne = refl
  get_or-set_ne (x ∷ xs) (suc i) zero v d ne = refl
  get_or-set_ne (x ∷ xs) (suc i) (suc j) v d ne = get_or-set_ne xs i j v d (λ e. ne (ap suc e))

  get_or-replicate : (n j : ℕ) (d : A) → get_or (replicate n d) j d ≡ d
  get_or-replicate zero j d = refl
  get_or-replicate (suc n) zero d = refl
  get_or-replicate (suc n) (suc j) d = get_or-replicate n j d

  get_or-padded : (xs : List A) (n j : ℕ) (d : A) → get_or (xs ++ replicate n d) j d ≡ get_or xs j d
  get_or-padded [] n j d = get_or-replicate n j d
  get_or-padded (x ∷ xs) n zero d = refl
  get_or-padded (x ∷ xs) n (suc j) d = get_or-padded xs n j d

  length-padded : (xs : List A) (n : ℕ) (d : A) → length (xs ++ replicate n d) ≡ length xs + n
  length-padded [] zero d = refl
  length-padded [] (suc n) d = omega (arith, length-padded [] n d)
  length-padded (x ∷ xs) n d = omega (arith, length-padded xs n d)

  reach-long : (d : A) (i : ℕ) (xs : List A) → i < length (reach d i xs)
  reach-long d i xs = elim (Bool-cases (leb (length xs) i)) [
    | inl e ↦ rw e (omega (arith, length-padded xs (i + 1 - length xs) d))
    | inr e ↦ rw e (ground (arith, e))
  ]

  get_or-reach : (d : A) (i j : ℕ) (xs : List A) → get_or (reach d i xs) j d ≡ get_or xs j d
  get_or-reach d i j xs = elim (Bool-cases (leb (length xs) i)) [
    | inl e ↦ rw e (get_or-padded xs (i + 1 - length xs) j d)
    | inr e ↦ rw e refl
  ]

  pub stored : (d v : A) (i : ℕ) (xs : List A) → get_or (set (reach d i xs) i v) i d ≡ v
  stored d v i xs = get_or-set (reach d i xs) i v d (reach-long d i xs)

  pub stored_elsewhere :
      (d v : A) (i j : ℕ) (xs : List A)
      → i ≢ j
      → get_or (set (reach d i xs) i v) j d ≡ get_or xs j d
  stored_elsewhere d v i j xs ne = get_or-set_ne (reach d i xs) i j v d ne ∙ get_or-reach d i j xs

same_key_self : (k : OfflineKey) → same_key k k ≡ true
same_key_self k = ground arith

find-assign :
    (k : OfflineKey) (gid : ℕ) (entries : List OfflineEntry)
    → find k (assign k gid entries) ≡ some gid
unfolding find assign
find-assign k gid [] = rw (same_key_self k) refl
find-assign k gid (e ∷ entries) = elim (Bool-cases (same_key e.key k)) [
  | inl q ↦ rw (assign, q, find, same_key_self k) refl
  | inr q ↦ rw (assign, q, find, q) (find-assign k gid entries)
]

find-assign_other :
    (k k' : OfflineKey) (gid : ℕ) (entries : List OfflineEntry)
    → same_key k' k ≡ false
    → find k (assign k' gid entries) ≡ find k entries
unfolding find assign
find-assign_other k k' gid [] ne = rw ne refl
find-assign_other k k' gid (e ∷ entries) ne = elim (Bool-cases (same_key e.key k')) [
  | inl q ↦ rw (q, ne, miss q) refl
  | inr q ↦ rw (q, find-assign_other k k' gid entries ne) refl
]
  where
    miss : same_key e.key k' ≡ true → same_key e.key k ≡ false
    miss q = ground (arith, q, ne)

-- An executor's worker is known under the id, and the id leads to it.
pub record Registered (exec local_id gid : ℕ) (r : WorkerRegistry) : Type 0 where
  pub known : get_global_id_for_offline r exec local_id ≡ gid
  pub leads : get_handle r gid ≡ some (offline exec local_id)

-- A registered worker of an executor is found by executor and number, and its id leads to it; a worker
-- registered before stays registered unless it is registered again or the new id is its own.
pub offline_worker-Registered :
    (exec local_id node : ℕ) (r : WorkerRegistry)
    → let (gid, r') = register_offline_worker exec local_id node r in
      Registered exec local_id gid r'
      × ((exec' local_id' gid' : ℕ)
          → Registered exec' local_id' gid' r
          → same_key
              (record { exec = exec; local_id = local_id })
              (record { exec = exec'; local_id = local_id' })
            ≡ false
          → gid ≢ gid'
          → Registered exec' local_id' gid' r')
unfolding register_offline_worker
offline_worker-Registered exec local_id node r = (
  record {
    known = ap or_size_max (
        find-assign (record { exec = exec; local_id = local_id }) r.next_global_id
          r.offline_global_id);
    leads = stored none (some (offline exec local_id)) r.next_global_id r.handles;
  },
  λ exec' local_id' gid' old other ne. record {
    known =
        ap or_size_max (
          find-assign_other (record { exec = exec'; local_id = local_id' })
            (record { exec = exec; local_id = local_id }) r.next_global_id r.offline_global_id
            other)
        ∙ old.known;
    leads =
        stored_elsewhere none (some (offline exec local_id)) r.next_global_id gid' r.handles ne
        ∙ old.leads;
  },
)

-- An online worker registered under an id that its group chose loses its handle to the executor's
-- worker that the registry gives the same id afterwards; by the id alone both are found.
pub chosen_id_taken :
    (worker online_node exec local_id node : ℕ) (r : WorkerRegistry)
    → let gid = r.next_global_id in
      let r' =
        (register_offline_worker exec local_id node (register_worker worker gid online_node r)).1 in
      (get_by_id r' gid ≡ some worker) × (get_handle r' gid ≡ some (offline exec local_id))
unfolding register_offline_worker register_worker
chosen_id_taken worker online_node exec local_id node r =
    let gid = r.next_global_id in
    (
      stored none (some worker) gid r.all,
      stored none (some (offline exec local_id)) gid
          (set (reach none gid r.handles) gid (some (online worker))),
    )
