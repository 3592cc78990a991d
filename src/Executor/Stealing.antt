-- ===== src/Executor/Stealing.antt =====
-- The attempts of a round of worker_loop in work_stealing_executor.cc to steal.
use mathlib.Core.Path.{subst}
use native.Mathlib.Decide.{ℕ_discrete}
use storage_engine.Prelude.{
  ℕ, zero, suc, ◌+◌, ◌≤◌, ◌<◌, ◌≡◌, refl, sym, ap, ◌∙◌, Option, none, some, [], arith,
}
use storage_engine.Work.{WorkItem}
use storage_engine.Idle.{EventFd}
use storage_engine.Ring.Mpmc.{MpmcRing, dequeue_mc}
use storage_engine.Ring.Mpmc.Contents as Mpmc
use storage_engine.Ring.Mpmc.Single.{Taken, nothing, oldest, dequeue_mc-Taken}
use storage_engine.Ring.Local.Inv.{try_dequeue-IsValid}
use storage_engine.Ring.Local.Inv as Local
use storage_engine.Ring.Local.Refine as LocalRefine
use storage_engine.Ring.Local.Refine.{try_dequeue_refines}
use storage_engine.Executor.{
  Executor, set_worker, yield_capacity, Source, from_peer, victim_idx, failed_once, steal,
}
use storage_engine.Executor.Queues.{
  QueueId, yield_of, local_of, entry, queue_of, content, IsValid, Found, field_kept, all_kept,
  ring-Found, with_ring,
}

module _ (events : EventFd) where
  abbrev pub Result : Type 0
  Result = Option (Source × WorkItem) × Executor events

  -- The peers that the attempts from `i` up to `k` turn to have empty rings.
  abbrev pub Emptied : ℕ → ℕ → ℕ → Executor events → Type 0
  Emptied me i k ex =
      (n : ℕ)
      → i ≤ n
      → n < k
      → content events ex (local_of (victim_idx events (ex.workers me) n)) ≡ []

  abbrev pub Stolen : ℕ → ℕ → ℕ → Executor events → Result → Type 0
  Stolen me i k ex (none, ex') =
      Emptied me i k ex
      × ((q : QueueId) → content events ex' q ≡ content events ex q)
      × IsValid events ex'
  Stolen me i k ex (some (src, item), ex') =
      (n : ℕ) × (i ≤ n)
      × (n < k)
      × (src ≡ from_peer (victim_idx events (ex.workers me) n))
      × Emptied me i n ex
      × Found events ex (queue_of me src) item ex'

  abbrev failing : ℕ → Executor events → Executor events
  failing me ex = set_worker events ex me (failed_once events (ex.workers me))

  content-failing :
      (me : ℕ) (ex : Executor events) (q : QueueId)
      → content events (failing me ex) q ≡ content events ex q
  content-failing me ex (yield_of j) =
      field_kept events (λ ws. LocalRefine.contents yield_capacity ws.yield_queue) ex.workers me
        (failed_once events (ex.workers me)) j refl
  content-failing me ex (local_of j) =
      field_kept events (λ ws. Mpmc.contents ws.local_deque) ex.workers me
        (failed_once events (ex.workers me)) j refl
  content-failing me ex entry = refl

  failing-IsValid :
      (me : ℕ) (ex : Executor events) → IsValid events ex → IsValid events (failing me ex)
  failing-IsValid me ex v = record {
    rings =
        all_kept events (λ ws. Mpmc.IsValid ws.local_deque) ex.workers me
          (failed_once events (ex.workers me)) (v.rings me) v.rings;
    yields =
        all_kept events (λ ws. Local.IsValid yield_capacity ws.yield_queue) ex.workers me
          (failed_once events (ex.workers me)) (v.yields me) v.yields;
    entry_ring = v.entry_ring;
  }

  failing_victim :
      (me n : ℕ) (ex : Executor events)
      → victim_idx events ((failing me ex).workers me) n ≡ victim_idx events (ex.workers me) n
  unfolding victim_idx
  failing_victim me n ex =
      field_kept events (λ ws. victim_idx events ws n) ex.workers me
        (failed_once events (ex.workers me)) me refl

  Emptied-more :
      (me i k : ℕ) (ex : Executor events)
      → content events ex (local_of (victim_idx events (ex.workers me) i)) ≡ []
      → Emptied me (i + 1) k (failing me ex)
      → Emptied me i k ex
  Emptied-more me i k ex here on n le lt = elim (ℕ_discrete i n) [
    | yes e ↦
        ap (λ t. content events ex (local_of (victim_idx events (ex.workers me) t))) (sym e) ∙ here
    | no ne ↦
        sym (content-failing me ex (local_of (victim_idx events (ex.workers me) n)))
        ∙ ap (λ t. content events (failing me ex) (local_of t)) (sym (failing_victim me n ex))
        ∙ on n (omega (arith, le, ne)) lt
  ]

  failing-Found :
      (me : ℕ) (ex : Executor events) (q : QueueId) (item : WorkItem) (ex' : Executor events)
      → Found events (failing me ex) q item ex'
      → Found events ex q item ex'
  failing-Found me ex q item ex' f = record {
    taken = sym (content-failing me ex q) ∙ f.taken;
    others = λ q' ne. f.others q' ne ∙ content-failing me ex q';
    valid = f.valid;
  }

  failing-Stolen :
      (me i k : ℕ) (ex : Executor events) (res : Result)
      → content events ex (local_of (victim_idx events (ex.workers me) i)) ≡ []
      → Stolen me (i + 1) k (failing me ex) res
      → Stolen me i k ex res
  failing-Stolen me i k ex (none, ex') here (e, same, v) =
      (Emptied-more me i k ex here e, λ q. same q ∙ content-failing me ex q, v)
  failing-Stolen me i k ex (some (src, item), ex') here (n, le, lt, s, e, f) = (
    n,
    omega (arith, le),
    lt,
    s ∙ ap from_peer (failing_victim me n ex),
    Emptied-more me i n ex here e,
    failing-Found me ex (queue_of me src) item ex' f,
  )

  pub steal-Stolen :
      (me left i : ℕ) (ex : Executor events)
      → IsValid events ex
      → Stolen me i (i + left) ex (steal events me left i ex)
  unfolding steal
  steal-Stolen me zero i ex v = (λ n le lt. absurd (omega (arith, le, lt)), λ q. refl, v)
  steal-Stolen me (suc left) i ex v =
      attempt (dequeue_mc (ex.workers (victim_idx events (ex.workers me) i)).local_deque) refl
        (dequeue_mc-Taken (ex.workers (victim_idx events (ex.workers me) i)).local_deque
          (v.rings (victim_idx events (ex.workers me) i)))
        (steal-Stolen me left (i + 1) (failing me ex) (failing-IsValid me ex v))
    where
      attempt :
          (res : Option WorkItem × MpmcRing WorkItem)
          → dequeue_mc (ex.workers (victim_idx events (ex.workers me) i)).local_deque ≡ res
          → Taken (ex.workers (victim_idx events (ex.workers me) i)).local_deque res
          → Stolen me
              (i + 1)
              (i + 1 + left)
              (failing me ex)
              (steal events me left (i + 1) (failing me ex))
          → Stolen me i (i + suc left) ex (steal events me (suc left) i ex)
      attempt res e (nothing r' empty) rest =
          let again : steal events me (suc left) i ex
              ≡ steal events me left (i + 1) (failing me ex) =
            rw (steal, e) refl in
          let far : i + 1 + left ≡ i + suc left = omega arith in
          subst (Stolen me i (i + suc left) ex) (sym again) (
            failing-Stolen me i (i + suc left) ex (steal events me left (i + 1) (failing me ex))
              empty
              (subst
                (λ k.
                  Stolen me (i + 1) k (failing me ex)
                    (steal events me left (i + 1) (failing me ex)))
                far rest))
      attempt res e (oldest x r' held valid) rest =
          let v' = victim_idx events (ex.workers me) i in
          let got : steal events me (suc left) i ex
              ≡ (some (from_peer v', x), with_ring events ex v' r') =
            rw (steal, e, e) refl in
          subst (Stolen me i (i + suc left) ex) (sym got) (
            i,
            omega arith,
            omega arith,
            refl,
            (λ n le lt. absurd (omega (arith, le, lt))),
            ring-Found events ex v' x r' v held valid,
          )
