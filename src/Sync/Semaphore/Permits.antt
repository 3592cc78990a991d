-- ===== src/Sync/Semaphore/Permits.antt =====
-- Permits along a run of the semaphore's operations in any order.
use storage_engine.Prelude.{
  ℕ, suc, ◌+◌, ◌-◌, ◌<◌, ◌≡◌, ◌≢◌, Option, none, some, List, [], ◌∷◌, if◌then◌else◌, arith,
  size_max, ◌==◌,
}
use storage_engine.Sync.Waiters.{Waiter, Wake}
use storage_engine.Sync.Semaphore.{Semaphore, try_acquire, release, push_waiter}

-- The semaphore, how many coroutines have returned from `acquire` and not released since, and the
-- coroutines inside `await_suspend` between the count that they found at 0 and their
-- compare-exchange on the list.
pub record System : Type 0 where
  pub semaphore : Semaphore
  pub holders : ℕ
  pub pending : List Waiter

pub data Event : Type 0 where
  tries : Event  -- await_ready
  rechecks : Waiter → Event  -- the second try_acquire, in await_suspend
  pushes : Waiter → Event  -- the compare-exchange of await_suspend
  releases : Event  -- release by a holder

abbrev remove : ℕ → List Waiter → List Waiter
remove h [] = []
remove h (w ∷ ws) = if w.handle == h then ws else w ∷ remove h ws

-- The waiter that `release` resumes returns from `acquire`.
abbrev granted : Option Wake → ℕ
granted none = 0
granted (some w) = 1

pub step : System → Event → System
step s tries =
    let (got, q) = try_acquire s.semaphore in
    record s { semaphore = q; holders = if got then s.holders + 1 else s.holders }
step s (rechecks w) =
    let (got, q) = try_acquire s.semaphore in
    if got
    then record s { semaphore = q; holders = s.holders + 1 }
    else record s { semaphore = q; pending = w ∷ s.pending }
step s (pushes w) = record s {
  semaphore = push_waiter w s.semaphore;
  pending = remove w.handle s.pending;
}
step s releases =
    let (waked, q) = release s.semaphore in
    record s { semaphore = q; holders = s.holders - 1 + granted waked }

-- A permit is either counted as free or held.
abbrev pub permits : System → ℕ
permits s = s.semaphore.count + s.holders

-- A call that obeys the protocol: only a holder releases, and the counter is not at its end.
abbrev pub Obeys : System → Event → Type 0
Obeys s releases = (0 < s.holders) × (s.semaphore.count < size_max)
Obeys s _ = Unit {0}

abbrev pub IsContended : System → Event → Type 0
IsContended s releases = s.semaphore.waiters ≢ []
IsContended s _ = ⊥

-- Every operation but a release while a coroutine waits keeps the number of permits.
pub step_conserves :
    (s : System) (e : Event) → Obeys s e → ¬ IsContended s e → permits (step s e) ≡ permits s
unfolding step try_acquire release push_waiter
step_conserves s tries o n = ground arith
step_conserves s (rechecks w) o n = ground arith
step_conserves s (pushes w) o n = ground arith
step_conserves s releases o n = ground arith

-- A release while a coroutine waits makes a permit up: the waiter holds one, and the counter still
-- offers it to the next that tries.
pub contended_release_adds :
    (s : System) (w : Waiter) (ws : List Waiter)
    → s.semaphore.waiters ≡ w ∷ ws
    → Obeys s releases
    → (permits (step s releases) ≡ suc (permits s))
      × ((step (step s releases) tries).holders ≡ suc s.holders)
unfolding step try_acquire release
contended_release_adds s w ws e o = rw e (ground arith)

-- A release between a coroutine's second look at the count and its push is not seen by it: it goes
-- to sleep on a free permit, with no holder left that would wake it.
pub release_before_push :
    (s : System) (w : Waiter)
    → s.semaphore ≡ record { count = 0; waiters = [] }
    → s.holders ≡ 1
    → let t = step (step (step s (rechecks w)) releases) (pushes w) in
      (t.semaphore.waiters ≡ w ∷ []) × (t.semaphore.count ≡ 1) × (t.holders ≡ 0)
unfolding step try_acquire release push_waiter
release_before_push s w e h = rw (e, h) (ground arith)
