-- ===== src/Sync/Mutex/Exclusion.antt =====
-- Who holds the lock, along a run of the mutex's operations in any order.
use storage_engine.Prelude.{
  ℕ, ◌≡◌, ◌≢◌, refl, Bool, Option, none, some, List, [], ◌∷◌, ◌==◌, if◌then◌else◌, arith, length,
}
use storage_engine.Sync.Waiters.{Waiter, Wake, woken, woken-wake}
use storage_engine.Sync.Mutex.{Mutex, unlocked, locked, await_ready, await_suspend, unlock}

-- The mutex, and the coroutines that returned from `co_lock` and have not unlocked since.
pub record System : Type 0 where
  pub mutex : Mutex
  pub holders : List ℕ

pub data Event : Type 0 where
  tries : ℕ → Event  -- await_ready of a coroutine
  suspends : Waiter → Event  -- await_suspend, after await_ready failed
  releases : ℕ → Event  -- unlock by a holder

abbrev joins : Bool → ℕ → List ℕ → List ℕ
joins b h hs = if b then h ∷ hs else hs

abbrev pub drop_holder : ℕ → List ℕ → List ℕ
drop_holder h [] = []
drop_holder h (x ∷ xs) = if x == h then xs else x ∷ drop_holder h xs

-- The waiter that `unlock` wakes returns from `co_lock`: it holds the lock from then on.
abbrev granted : Option Wake → List ℕ → List ℕ
granted none hs = hs
granted (some w) hs = woken w ∷ hs

pub step : System → Event → System
step s (tries h) =
    let (got, m) = await_ready s.mutex in record { mutex = m; holders = joins got h s.holders }
step s (suspends w) =
    let (waits, m) = await_suspend w s.mutex in
    record { mutex = m; holders = if waits then s.holders else w.handle ∷ s.holders }
step s (releases h) =
    let (waked, m) = unlock s.mutex in
    record { mutex = m; holders = granted waked (drop_holder h s.holders) }

-- The word is locked exactly while one coroutine holds the lock.
abbrev pub Agrees : Mutex → List ℕ → Type 0
Agrees unlocked hs = hs ≡ []
Agrees (locked ws) hs = length hs ≡ 1

-- A call that obeys the protocol: only a holder unlocks.
abbrev pub Obeys : System → Event → Type 0
Obeys s (tries h) = Unit {0}
Obeys s (suspends w) = Unit {0}
Obeys s (releases h) = (rest : List ℕ) × (s.holders ≡ h ∷ rest)

-- The release of a lock for which exactly one coroutine waits.
abbrev pub IsLastWaiter : System → Event → Type 0
IsLastWaiter s (releases h) = (w : Waiter) × (s.mutex ≡ locked (w ∷ []))
IsLastWaiter s _ = ⊥

step_tries :
    (m : Mutex) (hs : List ℕ) (h : ℕ)
    → Agrees m hs
    → let s = step (record { mutex = m; holders = hs }) (tries h) in Agrees s.mutex s.holders
unfolding step await_ready
step_tries unlocked hs h a = ground arith
step_tries (locked ws) hs h a = a

step_suspends :
    (m : Mutex) (hs : List ℕ) (w : Waiter)
    → Agrees m hs
    → let s = step (record { mutex = m; holders = hs }) (suspends w) in Agrees s.mutex s.holders
unfolding step await_suspend
step_suspends unlocked hs w a = ground arith
step_suspends (locked ws) hs w a = a

step_releases :
    (m : Mutex) (hs rest : List ℕ) (h : ℕ)
    → Agrees m hs
    → hs ≡ h ∷ rest
    → ((w : Waiter) → m ≢ locked (w ∷ []))
    → let s = step (record { mutex = m; holders = hs }) (releases h) in Agrees s.mutex s.holders
unfolding step unlock
step_releases unlocked hs rest h a o n = cc
step_releases (locked []) (x ∷ []) rest h a o n = ground arith
step_releases (locked (w ∷ [])) hs rest h a o n = absurd (n w refl)
step_releases (locked (w ∷ next ∷ ws)) (x ∷ []) rest h a o n = ground arith
step_releases (locked ws) [] rest h a o n = cc
step_releases (locked ws) (x ∷ y ∷ hs) rest h a o n = absurd (omega (arith, a))

-- Every operation but the release to a last waiter keeps the word and the holders in agreement: it
-- is locked exactly while one coroutine holds the lock, and otherwise nobody does.
pub step-Agrees :
    (s : System) (e : Event)
    → Agrees s.mutex s.holders
    → Obeys s e
    → ¬ IsLastWaiter s e
    → Agrees (step s e).mutex (step s e).holders
step-Agrees s (tries h) a o n = step_tries s.mutex s.holders h a
step-Agrees s (suspends w) a o n = step_suspends s.mutex s.holders w a
step-Agrees s (releases h) a o n = step_releases s.mutex s.holders o.0 h a o.1 (λ w e. n (w, e))

-- A holder's release to the one coroutine that waits leaves the word at 0 while that coroutine
-- resumes as the holder; the next coroutine that tries then holds the lock beside it.
pub last_waiter_shares :
    (s : System) (h x : ℕ) (w : Waiter)
    → s.mutex ≡ locked (w ∷ [])
    → s.holders ≡ h ∷ []
    → let t = step (step s (releases h)) (tries x) in
      (t.holders ≡ x ∷ w.handle ∷ []) × (t.mutex ≡ locked [])
unfolding step unlock await_ready
last_waiter_shares s h x w m hs = rw (m, hs) (ground (arith, woken-wake w))
