-- ===== src/Examples/Primitives.antt =====
-- The primitives of affinity_mutex.h, affinity_semaphore.h, affinity_baton.h and adaptive_idle.h at
-- concrete states.
use mathlib.Core.List.Perm
use mathlib.Core.List.{Perm}
use storage_engine.Prelude.{
  ℕ, suc, ◌+◌, ◌≡◌, refl, ap, true, false, ltb, List, [], ◌∷◌, arith, length,
}
use storage_engine.Sync.Waiters.{Waiter}
use storage_engine.Sync.Mutex.{Mutex, unlocked, locked}
use storage_engine.Sync.Mutex.Exclusion.{step-Agrees, last_waiter_shares}
use storage_engine.Sync.Mutex.Exclusion as M
use storage_engine.Sync.Semaphore.Permits.{
  step_conserves, contended_release_adds, release_before_push,
}
use storage_engine.Sync.Semaphore.Permits as S
use storage_engine.Sync.Baton.{chain}
use storage_engine.Sync.Baton.Wakeups.{run-Accounted}
use storage_engine.Sync.Baton.Wakeups as B
use storage_engine.Idle.{yielding, active, EventFd, Config, AdaptiveIdle, returned, idle_calls}
use storage_engine.Idle.Wakeups.{notified_worker_returns}

abbrev waiter : ℕ → Waiter
waiter h = record { handle = h; worker_id = h; routed = true }

-- Coroutine 1 holds the lock, 2 and 3 wait for it.
abbrev held : M.System
held = record { mutex = locked (waiter 3 ∷ waiter 2 ∷ []); holders = 1 ∷ [] }

abbrev waiters_of : Mutex → ℕ
waiters_of unlocked = 0
waiters_of (locked ws) = length ws

two_wait : ¬ M.IsLastWaiter held (M.releases 1)
two_wait (w, e) = absurd (omega (arith, ap waiters_of e))

step-Agrees_example :
    M.Agrees (M.step held (M.releases 1)).mutex (M.step held (M.releases 1)).holders
step-Agrees_example = step-Agrees held (M.releases 1) refl ([], refl) two_wait

-- Coroutine 1 holds the lock and 2 waits for it.
abbrev nearly_free : M.System
nearly_free = record { mutex = locked (waiter 2 ∷ []); holders = 1 ∷ [] }

last_waiter_shares_example :
    ((M.step (M.step nearly_free (M.releases 1)) (M.tries 3)).holders ≡ 3 ∷ 2 ∷ [])
    × ((M.step (M.step nearly_free (M.releases 1)) (M.tries 3)).mutex ≡ locked [])
last_waiter_shares_example = last_waiter_shares nearly_free 1 3 (waiter 2) refl refl

-- Both permits of two are held.
abbrev used_up : S.System
used_up = record { semaphore = record { count = 0; waiters = [] }; holders = 2; pending = [] }

step_conserves_example : S.permits (S.step used_up S.releases) ≡ S.permits used_up
step_conserves_example =
    step_conserves used_up S.releases (omega arith, omega arith) (λ contended. contended refl)

abbrev contended : S.System
contended = record {
  semaphore = record { count = 0; waiters = waiter 4 ∷ [] };
  holders = 2;
  pending = [];
}

contended_release_adds_example :
    (S.permits (S.step contended S.releases) ≡ suc (S.permits contended))
    × ((S.step (S.step contended S.releases) S.tries).holders ≡ suc 2)
contended_release_adds_example =
    contended_release_adds contended (waiter 4) [] refl (omega arith, omega arith)

-- One coroutine waits on the baton, another was resumed.
abbrev half_way : B.System
half_way = record {
  baton = chain (waiter 1 ∷ []);
  suspended = 1 ∷ 2 ∷ [];
  resumed = 2 ∷ [];
  marked = [];
}

run-Accounted_example :
    B.Accounted (B.run half_way (B.waits (waiter 3) ∷ B.waits_for 5 true (waiter 4) ∷ B.posts ∷ []))
run-Accounted_example =
    run-Accounted half_way (B.waits (waiter 3) ∷ B.waits_for 5 true (waiter 4) ∷ B.posts ∷ [])
      (Perm.refl (1 ∷ 2 ∷ []))

-- Coroutine 4 waits with a timer and 5 without one; nobody posts.
abbrev both_wait : List B.Event
both_wait = B.waits_for 5 true (waiter 4) ∷ B.waits (waiter 5) ∷ []

-- An event descriptor as the kernel's counter.
abbrev pub counter : EventFd
counter = record {
  Fd = ℕ;
  read = λ n. (ltb 0 n, 0);
  write = λ n. n + 1;
  read-write = λ n. above n;
  read-read = λ n. refl;
}
  where
    above : (n : ℕ) → ltb 0 (n + 1) ≡ true
    above n = ground arith

abbrev idle_config : Config
idle_config = record { spin_iterations = 100; yield_rounds = 5 }

-- The notification was consumed by the spinning phase already.
abbrev notified : AdaptiveIdle counter
notified = record { event_fd = 0; level = yielding; park_generation = 1; pending_notify = true }

notified_worker_returns_example :
    (s' : AdaptiveIdle counter) × (idle_calls counter idle_config (λ i. false) 2 notified
      ≡ returned s')
    × (s'.level ≡ active)
notified_worker_returns_example =
    notified_worker_returns counter idle_config (λ i. false) notified refl
