-- ===== src/Sync/Mutex.antt =====
-- src/runtime/affinity_mutex.h, and `unlock` in worker.cc.
pub mod Exclusion
use storage_engine.Prelude.{Bool, true, false, Option, none, some, List, [], ◌∷◌}
use storage_engine.Sync.Waiters.{Waiter, Wake, wake, resume_chain}

-- The atomic word: 0, or the locked flag with the pointer to the waiter stack.
pub data Mutex : Type 0 where
  unlocked : Mutex
  locked : List Waiter → Mutex

-- `LockAwaiter::await_ready`: one compare-exchange from 0; true when it took the lock.
pub await_ready : Mutex → Bool × Mutex
await_ready unlocked = (true, locked [])
await_ready (locked waiters) = (false, locked waiters)

-- `LockAwaiter::await_suspend`: the compare-exchange that succeeds either takes a lock that became
-- free (false: the coroutine does not suspend) or pushes the waiter.
pub await_suspend : Waiter → Mutex → Bool × Mutex
await_suspend w unlocked = (false, locked [])
await_suspend w (locked waiters) = (true, locked (w ∷ waiters))

-- `unlock`: pops the top waiter. The word that it leaves is 0 when no further waiter is left.
pub unlock : Mutex → Option Wake × Mutex
unlock unlocked = (none, unlocked)
unlock (locked []) = (none, unlocked)
unlock (locked (w ∷ [])) = (some (wake w), unlocked)
unlock (locked (w ∷ next ∷ rest)) = (some (wake w), locked (next ∷ rest))

-- The destructor resumes each waiter inline.
pub destroy : Mutex → List Wake
destroy unlocked = []
destroy (locked []) = []
destroy (locked (w ∷ rest)) = Wake.resume_inline w.handle ∷ destroy (locked rest)
