-- ===== src/Sync/Waiters.antt =====
-- A suspended coroutine in a primitive's chain, and how it is resumed: through its saved route to
-- the worker where it suspended, or inline on the thread that posts (worker.cc, `resume_chain`).
use mathlib.Core.Path.{ap₂}
use storage_engine.Prelude.{
  ℕ, Bool, ◌≡◌, refl, arith, not, ◌&&◌, ◌==◌, if◌then◌else◌, size_max, List, [], ◌∷◌, map,
}

-- `WaiterNode` and `AffinityMutex::Waiter`; a coroutine handle is a number, and `routed` says that
-- `route` holds a function. `next` is the rest of the chain.
pub record Waiter : Type 0 where
  pub handle : ℕ
  pub worker_id : ℕ
  pub routed : Bool

pub data Wake : Type 0 where
  route_to : (worker_id handle : ℕ) → Wake
  resume_inline : (handle : ℕ) → Wake

-- if (route && worker_id != SIZE_MAX) route(worker_id, handle); else handle.resume();
unfoldable pub wake : Waiter → Wake
wake w =
    if w.routed && not (w.worker_id == size_max)
    then route_to w.worker_id w.handle
    else resume_inline w.handle

-- The walk along a drained chain.
unfoldable pub resume_chain : List Waiter → List Wake
resume_chain [] = []
resume_chain (w ∷ rest) = wake w ∷ resume_chain rest

-- The coroutine that a wake resumes.
abbrev pub woken : Wake → ℕ
woken (route_to worker_id handle) = handle
woken (resume_inline handle) = handle

pub woken-wake : (w : Waiter) → woken (wake w) ≡ w.handle
unfolding wake
woken-wake w = ground arith

abbrev pub handles : List Waiter → List ℕ
handles = map (λ w. w.handle)

pub woken-resume_chain : (ws : List Waiter) → map woken (resume_chain ws) ≡ handles ws
unfolding resume_chain
woken-resume_chain [] = refl
woken-resume_chain (w ∷ ws) = ap₂ ◌∷◌ (woken-wake w) (woken-resume_chain ws)
