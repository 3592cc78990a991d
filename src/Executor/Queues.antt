-- ===== src/Executor/Queues.antt =====
-- What the queues of an executor (work_stealing_executor.h) hold, and what a store into them changes.
use storage_engine.Prelude.{
  ℕ, ◌≡◌, ◌≢◌, refl, sym, ap, ◌∙◌, inl, inr, List, ◌∷◌, ◌==◌, ==_iff, update, update_ne,
  update_self, Bool-cases,
}
use storage_engine.Work.{WorkItem}
use storage_engine.Idle.{EventFd}
use storage_engine.Ring.Mpmc.{MpmcRing}
use storage_engine.Ring.Mpmc.Contents as Mpmc
use storage_engine.Ring.Local.{LocalQueue}
use storage_engine.Ring.Local.Inv as Local
use storage_engine.Ring.Local.Refine as LocalRefine
use storage_engine.Executor.{
  WorkerState, Executor, set_worker, yield_capacity, Source, from_yield, from_local, from_global,
  from_peer,
}

pub data QueueId : Type 0 where
  yield_of local_of : (worker : ℕ) → QueueId
  entry : QueueId

abbrev pub queue_of : ℕ → Source → QueueId
queue_of me from_yield = yield_of me
queue_of me from_local = local_of me
queue_of me from_global = entry
queue_of me (from_peer v) = local_of v

module _ (events : EventFd) where
  abbrev pub content : Executor events → QueueId → List WorkItem
  content ex (yield_of j) = LocalRefine.contents yield_capacity (ex.workers j).yield_queue
  content ex (local_of j) = Mpmc.contents (ex.workers j).local_deque
  content ex entry = Mpmc.contents ex.global_entry

  pub record IsValid (ex : Executor events) : Type 0 where
    pub rings : (j : ℕ) → Mpmc.IsValid (ex.workers j).local_deque
    pub yields : (j : ℕ) → Local.IsValid yield_capacity (ex.workers j).yield_queue
    pub entry_ring : Mpmc.IsValid ex.global_entry

  -- One queue less its oldest item, the others as before.
  pub record Found (ex : Executor events) (q : QueueId) (item : WorkItem) (ex' : Executor events)
      : Type 0 where
    pub taken : content ex q ≡ item ∷ content ex' q
    pub others : (q' : QueueId) → q' ≢ q → content ex' q' ≡ content ex q'
    pub valid : IsValid ex'

  pub field_kept {ℓ} :
      {B : Type ℓ} (f : WorkerState events → B) (workers : ℕ → WorkerState events) (v : ℕ)
      (ws : WorkerState events) (j : ℕ)
      → f ws ≡ f (workers v)
      → f (update workers v ws j) ≡ f (workers j)
  field_kept f workers v ws j e = elim (Bool-cases (v == j)) [
    | inl q ↦ rw q (e ∙ ap (λ k. f (workers k)) ((==_iff v j).0 q))
    | inr q ↦ rw q refl
  ]

  -- What holds of the new state and of the old ones holds after a store.
  pub all_kept {ℓ} :
      (P : WorkerState events → Type ℓ) (workers : ℕ → WorkerState events) (v : ℕ)
      (ws : WorkerState events)
      → P ws
      → ((j : ℕ) → P (workers j))
      → (j : ℕ) → P (update workers v ws j)
  all_kept P workers v ws new old j = elim (Bool-cases (v == j)) [
    | inl q ↦ rw q new
    | inr q ↦ rw q (old j)
  ]

  abbrev pub with_ring : Executor events → ℕ → MpmcRing WorkItem → Executor events
  with_ring ex v ring = set_worker events ex v (record (ex.workers v) { local_deque = ring })

  pub ring-Found :
      (ex : Executor events) (v : ℕ) (item : WorkItem) (ring : MpmcRing WorkItem)
      → IsValid ex
      → Mpmc.contents (ex.workers v).local_deque ≡ item ∷ Mpmc.contents ring
      → Mpmc.IsValid ring
      → Found ex (local_of v) item (with_ring ex v ring)
  ring-Found ex v item ring valid e r = record {
    taken =
        e
        ∙ ap (λ ws. item ∷ Mpmc.contents ws.local_deque)
            (sym (update_self ex.workers v (record (ex.workers v) { local_deque = ring })));
    others = other;
    valid = record {
      rings =
          all_kept (λ ws. Mpmc.IsValid ws.local_deque) ex.workers v
            (record (ex.workers v) { local_deque = ring }) r valid.rings;
      yields =
          all_kept (λ ws. Local.IsValid yield_capacity ws.yield_queue) ex.workers v
            (record (ex.workers v) { local_deque = ring }) (valid.yields v) valid.yields;
      entry_ring = valid.entry_ring;
    };
  }
    where
      other : (q : QueueId) → q ≢ local_of v → content (with_ring ex v ring) q ≡ content ex q
      other (yield_of j) ne =
          field_kept (λ ws. LocalRefine.contents yield_capacity ws.yield_queue) ex.workers v
            (record (ex.workers v) { local_deque = ring }) j refl
      other (local_of j) ne =
          ap (λ ws. Mpmc.contents ws.local_deque)
            (update_ne ex.workers v j (record (ex.workers v) { local_deque = ring })
              (λ e. ne (ap local_of (sym e))))
      other entry ne = refl

  pub yield-Found :
      (ex : Executor events) (v : ℕ) (item : WorkItem) (queue : LocalQueue WorkItem)
      → IsValid ex
      → LocalRefine.contents yield_capacity (ex.workers v).yield_queue
        ≡ item ∷ LocalRefine.contents yield_capacity queue
      → Local.IsValid yield_capacity queue
      → Found ex
          (yield_of v)
          item
          (set_worker events ex v (record (ex.workers v) { yield_queue = queue }))
  yield-Found ex v item queue valid e r = record {
    taken =
        e
        ∙ ap (λ ws. item ∷ LocalRefine.contents yield_capacity ws.yield_queue)
            (sym (update_self ex.workers v (record (ex.workers v) { yield_queue = queue })));
    others = other;
    valid = record {
      rings =
          all_kept (λ ws. Mpmc.IsValid ws.local_deque) ex.workers v
            (record (ex.workers v) { yield_queue = queue }) (valid.rings v) valid.rings;
      yields =
          all_kept (λ ws. Local.IsValid yield_capacity ws.yield_queue) ex.workers v
            (record (ex.workers v) { yield_queue = queue }) r valid.yields;
      entry_ring = valid.entry_ring;
    };
  }
    where
      other :
          (q : QueueId)
          → q ≢ yield_of v
          → content (set_worker events ex v (record (ex.workers v) { yield_queue = queue })) q
            ≡ content ex q
      other (local_of j) ne =
          field_kept (λ ws. Mpmc.contents ws.local_deque) ex.workers v
            (record (ex.workers v) { yield_queue = queue }) j refl
      other (yield_of j) ne =
          ap (λ ws. LocalRefine.contents yield_capacity ws.yield_queue)
            (update_ne ex.workers v j (record (ex.workers v) { yield_queue = queue })
              (λ e. ne (ap yield_of (sym e))))
      other entry ne = refl

  pub entry-Found :
      (ex : Executor events) (item : WorkItem) (ring : MpmcRing WorkItem)
      → IsValid ex
      → Mpmc.contents ex.global_entry ≡ item ∷ Mpmc.contents ring
      → Mpmc.IsValid ring
      → Found ex entry item (record ex { global_entry = ring })
  entry-Found ex item ring valid e r = record {
    taken = e;
    others = other;
    valid = record { rings = valid.rings; yields = valid.yields; entry_ring = r };
  }
    where
      other :
          (q : QueueId) → q ≢ entry → content (record ex { global_entry = ring }) q ≡ content ex q
      other (yield_of j) ne = refl
      other (local_of j) ne = refl
      other entry ne = absurd (ne refl)
