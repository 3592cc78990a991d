-- ===== src/Sync/Baton.antt =====
-- src/runtime/affinity_baton.h, and the bodies of `post`, `post_direct`, `resume_chain` and
-- `TimedAwaiter::await_suspend` in worker.cc.
pub mod Wakeups
pub mod Expiry
use storage_engine.Prelude.{ℕ, Bool, true, false, not, List, [], ◌∷◌, leb, if◌then◌else◌}
use storage_engine.Sync.Waiters.{Waiter, Wake, resume_chain}

-- The atomic word: the posted bit, or the pointer to the chain of waiters (null when empty).
pub data Baton : Type 0 where
  posted : Baton
  chain : List Waiter → Baton

-- `ready`, `try_wait` and `Awaiter::await_ready`.
pub ready : Baton → Bool
ready posted = true
ready (chain waiters) = false

-- `Awaiter::await_suspend`: true when the coroutine was put on the chain and suspends.
pub await_suspend : Waiter → Baton → Bool × Baton
await_suspend w posted = (false, posted)
await_suspend w (chain waiters) = (true, chain (w ∷ waiters))

-- `clear_posted` of the word that `exchange` returned.
abbrev drained : Baton → List Waiter
drained posted = []
drained (chain waiters) = waiters

pub post : Baton → List Wake × Baton
post b = (resume_chain (drained b), posted)

pub post_direct : Baton → List Wake × Baton
post_direct b = (resume_chain (drained b), posted)

-- `reset` clears the posted bit, and leaves a chain alone.
pub reset : Baton → Baton
reset posted = chain []
reset (chain waiters) = chain waiters

-- The destructor.
pub destroy : Baton → List Wake
destroy b = resume_chain (drained b)

-- How `TimedAwaiter::await_suspend` ends.
pub data TimedStart : Type 0 where
  timed_out_at_once : TimedStart  -- no time, or no timer to wait with
  already_posted : TimedStart
  armed : TimedStart  -- on the chain, with a timer running

-- `timeout` is what is left above zero (0 for a zero or negative duration); `has_timer` says that
-- the thread belongs to a worker or an executor.
pub timed_suspend : ℕ → Bool → Waiter → Baton → TimedStart × Baton
unfolding await_suspend
timed_suspend timeout has_timer w b =
    if leb timeout 0
    then (timed_out_at_once, b)
    else if not has_timer
    then (timed_out_at_once, b)
    else (let (waits, b') = await_suspend w b in (if waits then armed else already_posted, b'))

pub data WaitResult : Type 0 where
  signaled timeout : WaitResult

-- `TimedAwaiter::await_resume`, by the flag of the awaiter.
unfoldable pub await_resume : (timed_out : Bool) → WaitResult
await_resume true = timeout
await_resume false = signaled

-- `on_expire`: marks its own waiter, then posts.
pub on_expire : Waiter → Baton → ℕ × List Wake × Baton
unfolding post
on_expire w b = let (wakes, b') = post b in (w.handle, wakes, b')
