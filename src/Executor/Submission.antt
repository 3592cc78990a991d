-- ===== src/Executor/Submission.antt =====
-- What the submissions of work_stealing_executor.cc leave in the queues.
pub mod Offline
use mathlib.Core.Path.{subst}
use storage_engine.Prelude.{
  ℕ, ◌≤◌, ◌<◌, ◌≡◌, ◌≢◌, refl, sym, ap, ◌∙◌, true, false, List, [], ◌∷◌, ◌++◌, ltb, leb,
  if◌then◌else◌, length, update_self, update_ne, arith,
}
use storage_engine.Work.{WorkItem, make_coro}
use storage_engine.Idle.{EventFd, notify}
use storage_engine.Ring.Mpmc.{enqueue}
use storage_engine.Ring.Mpmc.Contents as Mpmc
use storage_engine.Ring.Mpmc.Single.{enqueue_one}
use storage_engine.Ring.Local.Inv as Local
use storage_engine.Ring.Local.Refine as LocalRefine
use storage_engine.Executor.{WorkerState, Executor, set_worker, yield_capacity, add_to_worker}
use storage_engine.Executor.Queues.{
  QueueId, yield_of, local_of, entry, content, IsValid, field_kept, all_kept,
}

-- The item at the end, if the ring has room.
abbrev pub appended : List WorkItem → ℕ → WorkItem → List WorkItem
appended held capacity item = if ltb (length held) capacity then held ++ (item ∷ []) else held

module _ (events : EventFd) where
  pub record Submitted (ex : Executor events) (q : QueueId) (capacity : ℕ) (item : WorkItem)
      (ex' : Executor events) : Type 0 where
    pub holds : content events ex' q ≡ appended (content events ex q) capacity item
    pub others : (q' : QueueId) → q' ≢ q → content events ex' q' ≡ content events ex q'
    pub valid : IsValid events ex'

  -- A store of a worker whose ring took the item and whose yield queue is as before.
  into_ring :
      (ex : Executor events) (v : ℕ) (item : WorkItem) (ws : WorkerState events)
      → IsValid events ex
      → ws.local_deque ≡ (enqueue (ex.workers v).local_deque item).1
      → ws.yield_queue ≡ (ex.workers v).yield_queue
      → Submitted ex
          (local_of v)
          (ex.workers v).local_deque.capacity
          item
          (set_worker events ex v ws)
  into_ring ex v item ws valid ring yield =
      let (held, ok) = enqueue_one (ex.workers v).local_deque item (valid.rings v) in
      record {
        holds =
            ap (λ w. Mpmc.contents w.local_deque) (update_self ex.workers v ws)
            ∙ ap Mpmc.contents ring
            ∙ held;
        others = other;
        valid = record {
          rings =
              all_kept events (λ w. Mpmc.IsValid w.local_deque) ex.workers v ws
                (subst Mpmc.IsValid (sym ring) ok) valid.rings;
          yields =
              all_kept events (λ w. Local.IsValid yield_capacity w.yield_queue) ex.workers v ws
                (subst (Local.IsValid yield_capacity) (sym yield) (valid.yields v)) valid.yields;
          entry_ring = valid.entry_ring;
        };
      }
    where
      other :
          (q : QueueId)
          → q ≢ local_of v
          → content events (set_worker events ex v ws) q ≡ content events ex q
      other (yield_of j) ne =
          field_kept events (λ w. LocalRefine.contents yield_capacity w.yield_queue) ex.workers v ws
            j (ap (LocalRefine.contents yield_capacity) yield)
      other (local_of j) ne =
          ap (λ w. Mpmc.contents w.local_deque)
            (update_ne ex.workers v j ws (λ e. ne (ap local_of (sym e))))
      other entry ne = refl

  -- A handle routed to a worker goes to the end of its ring, as far as there is room, and the worker is
  -- notified; a number that is no worker's changes nothing.
  pub routed_to_worker :
      (worker_id handle : ℕ) (ex : Executor events)
      → IsValid events ex
      → (worker_id < ex.num_workers
          → Submitted ex
              (local_of worker_id)
              (ex.workers worker_id).local_deque.capacity
              (make_coro handle)
              (add_to_worker events worker_id handle ex)
            × (((add_to_worker events worker_id handle ex).workers worker_id).park
                ≡ notify events (ex.workers worker_id).park))
        × (ex.num_workers ≤ worker_id → add_to_worker events worker_id handle ex ≡ ex)
  unfolding add_to_worker
  routed_to_worker worker_id handle ex valid = (
    (λ lt.
        let inside : leb ex.num_workers worker_id ≡ false = ground (arith, lt) in
        rw (add_to_worker, inside)
          (
            into_ring ex worker_id (make_coro handle) routed valid refl refl,
            ap (λ w. w.park) (update_self ex.workers worker_id routed),
          )),
    λ le.
        let outside : leb ex.num_workers worker_id ≡ true = ground (arith, le) in
        rw (add_to_worker, outside) refl,
  )
    where
      routed : WorkerState events
      routed = record (ex.workers worker_id) {
        local_deque = (enqueue (ex.workers worker_id).local_deque (make_coro handle)).1;
        park = notify events (ex.workers worker_id).park;
      }
