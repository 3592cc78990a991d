-- ===== src/Executor/Victims.antt =====
-- Which peers a thief of work_stealing_executor.cc turns to.
use mathlib.Core.Path.{subst}
use native.Mathlib.Nat.{mod-lt, mod-eq_of_lt, mod-eq-sub-mod}
use native.Mathlib.Decide.{dec_lt}
use storage_engine.Prelude.{
  ℕ, zero, suc, ◌+◌, ◌-◌, ◌*◌, ◌%◌, ◌≤◌, ◌<◌, ◌≡◌, ◌≢◌, refl, sym, ap, ◌∙◌, false, none, some, List,
  [], ◌∷◌, length, get_or, get_elem?, arith, word,
}
use storage_engine.Prelude.Window.{slot_ne}
use storage_engine.Idle.{EventFd}
use storage_engine.Executor.{
  WorkerState, Executor, start_idx, victim_at, victim_idx, no_peers, find_work,
}
use storage_engine.Executor.Queues.{local_of, content, IsValid}
use storage_engine.Executor.Rounds.{find_work-Ends, Ends}

module _ (events : EventFd) where
  no_wrap :
      (ws : WorkerState events) (i : ℕ)
      → length ws.numa_peers + i < word
      → 0 < length ws.numa_peers
      → victim_at events ws i ≡ (start_idx events ws + i) % length ws.numa_peers
  unfolding victim_at
  no_wrap ws i small pos =
      let low : start_idx events ws < length ws.numa_peers =
        mod-lt (ws.id * 2654435761 % word) pos in
      ap (λ t. t % length ws.numa_peers)
        (mod-eq_of_lt {n = start_idx events ws + i} {m = word} (omega (arith, low, small)))

  -- Some attempt below the number of peers looks at position `k`.
  looked_at :
      (ws : WorkerState events) (k : ℕ)
      → k < length ws.numa_peers
      → length ws.numa_peers + length ws.numa_peers < word
      → (n : ℕ) × (n < length ws.numa_peers) × (victim_at events ws n ≡ k)
  looked_at ws k lt small =
      let len = length ws.numa_peers in
      let start = start_idx events ws in
      let low : start < len = mod-lt (ws.id * 2654435761 % word) (omega (arith, lt)) in
      elim (dec_lt k start) [
        | yes before ↦ (
          k + len - start,
          omega (arith, low, before),
          no_wrap ws (k + len - start) (omega (arith, low, before, small)) (omega (arith, lt))
              ∙ ap (λ t. t % len) {x = start + (k + len - start)} {y = k + len} (omega (arith, low))
              ∙ mod-eq-sub-mod {n = k + len} {m = len} (omega arith)
              ∙ mod-eq_of_lt {n = k + len - len} {m = len} (omega (arith, lt))
              ∙ omega arith,
        )
        | no behind ↦ (
          k - start,
          omega (arith, lt),
          no_wrap ws (k - start) (omega (arith, lt, small)) (omega (arith, lt))
              ∙ ap (λ t. t % len) {x = start + (k - start)} {y = k} (omega (arith, behind))
              ∙ mod-eq_of_lt lt,
        )
      ]

  get_or-get :
      {A : Type 0} (xs : List A) (k : ℕ) (x d : A)
      → get_elem? xs k ≡ some x
      → (get_or xs k d ≡ x) × (k < length xs)
  get_or-get [] k x d e = absurd (ground (arith, e))
  get_or-get (y ∷ xs) zero x d e = (cc (e), omega arith)
  get_or-get (y ∷ xs) (suc k) x d e = let (q, lt) = get_or-get xs k x d e in (q, omega (arith, lt))

  -- With as many attempts as peers, a worker that finds nothing has seen the ring of every peer empty.
  pub idle-sees_all_peers :
      (me k p : ℕ) (ex ex' : Executor events)
      → IsValid events ex
      → length (ex.workers me).numa_peers ≤ ex.steal_attempts
      → length (ex.workers me).numa_peers + length (ex.workers me).numa_peers < word
      → find_work events me ex ≡ (none, ex')
      → get_elem? (ex.workers me).numa_peers k ≡ some p
      → content events ex (local_of p) ≡ []
  unfolding victim_idx
  idle-sees_all_peers me k p ex ex' v many small e at =
      let (here, lt) = get_or-get (ex.workers me).numa_peers k p 0 at in
      let (n, below, looks) = looked_at (ex.workers me) k lt small in
      let (y, l, g, empty, same, valid) =
        subst (Ends events me ex) e (find_work-Ends events me ex v) in
      let some_peer : no_peers events (ex.workers me) ≡ false = ground (arith, lt) in
      ap (λ t. content events ex (local_of t))
        (sym (ap (λ t. get_or (ex.workers me).numa_peers t 0) looks ∙ here))
      ∙ empty some_peer n (omega arith) (omega (arith, below, many))

  -- With fewer, there is a position at which it never looks, in no state and no round: where it begins
  -- depends on its number alone.
  pub one_peer_never_seen :
      (attempts : ℕ) (ws : WorkerState events)
      → attempts < length ws.numa_peers
      → length ws.numa_peers + length ws.numa_peers < word
      → (k : ℕ) × (k < length ws.numa_peers)
        × ((n : ℕ) (ws' : WorkerState events)
            → ws'.id ≡ ws.id
            → ws'.numa_peers ≡ ws.numa_peers
            → n < attempts
            → victim_at events ws' n ≢ k)
  unfolding victim_at
  one_peer_never_seen attempts ws few small = (
    (start_idx events ws + attempts) % length ws.numa_peers,
    mod-lt (start_idx events ws + attempts) (omega (arith, few)),
    λ n ws' i q lt e.
        let same : victim_at events ws' n ≡ victim_at events ws n = rw (victim_at, i, q) refl in
        let at_n = no_wrap ws n (omega (arith, few, small, lt)) (omega (arith, few)) in
        slot_ne (length ws.numa_peers) (start_idx events ws + n) (attempts - n) (omega (arith, lt))
          (omega (arith, few))
          (ap (λ t. t % length ws.numa_peers) {y = start_idx events ws + attempts}
              (omega (arith, lt))
            ∙ sym e
            ∙ same
            ∙ at_n),
  )
