-- ===== src/Sync/Semaphore.antt =====
-- src/runtime/affinity_semaphore.h.
pub mod Permits
use storage_engine.Prelude.{
  ℕ, ◌-◌, Bool, true, false, Option, none, some, List, [], ◌∷◌, if◌then◌else◌, ltb, add_word,
}
use storage_engine.Sync.Waiters.{Waiter, Wake, wake}

pub record Semaphore : Type 0 where
  pub count : ℕ
  pub waiters : List Waiter

-- `try_acquire`: the compare-exchange that succeeds, or a count of 0.
pub try_acquire : Semaphore → Bool × Semaphore
try_acquire s = if ltb 0 s.count then (true, record s { count = s.count - 1 }) else (false, s)

abbrev pop_waiter : List Waiter → Option Wake × List Waiter
pop_waiter [] = (none, [])
pop_waiter (w ∷ rest) = (some (wake w), rest)

-- `release`: the count goes up by one (and wraps), then the top waiter is taken off and resumed.
pub release : Semaphore → Option Wake × Semaphore
release s =
    let counted = record s { count = add_word s.count 1 } in
    let (waked, rest) = pop_waiter counted.waiters in (waked, record counted { waiters = rest })

-- The compare-exchange of `AcquireAwaiter::await_suspend`, tried after the count was found to be 0,
-- while the list head is still the one that was loaded before.
pub push_waiter : Waiter → Semaphore → Semaphore
push_waiter w s = record s { waiters = w ∷ s.waiters }
