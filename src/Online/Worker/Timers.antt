-- ===== src/Online/Worker/Timers.antt =====
-- Where timer_coro_fn of online_worker.cc puts the coroutines whose timers have expired.
use storage_engine.Prelude.{
  ℕ, ◌≡◌, Bool, not, none, some, List, [], ◌∷◌, get_elem?, All, ◌==◌, if◌then◌else◌, size_max,
}
use storage_engine.Work.{WorkItem, make_coro}
use storage_engine.Idle.{EventFd}
use storage_engine.Timer.{TimerNode}
use storage_engine.Ring.Mpmc.{MpmcRing}
use storage_engine.Ring.Mpmc as Ring
use storage_engine.Ring.Mpmc.Contents as Mpmc
use storage_engine.Online.Queue.{ring}
use storage_engine.Online.Worker.{OnlineWorker}

-- The queue that a node belongs to.
abbrev pub owner : (engine : ℕ) → TimerNode → ℕ
owner engine node =
    if not (node.source_queue_idx == size_max) then node.source_queue_idx else engine

-- The coroutines that belong to queue `j`, in order.
abbrev pub due_for : (engine j : ℕ) → List TimerNode → List WorkItem
due_for engine j [] = []
due_for engine j (node ∷ nodes) =
    let rest = due_for engine j nodes in
    if owner engine node == j then make_coro node.handle ∷ rest else rest

abbrev pub Plain : List TimerNode → Type 0
Plain nodes = All (λ node. node.on_expire ≡ none) nodes

module _ (events : EventFd) (P W : Type 0) where
  -- Queue `j` is a ring that holds `items`.
  pub record RingHolds (j : ℕ) (items : List WorkItem) (capacity : ℕ) (w : OnlineWorker events P W)
      : Type 0 where
    pub store : MpmcRing WorkItem
    pub at : get_elem? w.scheduler.queues j ≡ some (ring store)
    pub held : Mpmc.contents store ≡ items
    pub sized : store.capacity ≡ capacity
    pub valid : Mpmc.IsValid store
