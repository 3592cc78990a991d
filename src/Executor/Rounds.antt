-- ===== src/Executor/Rounds.antt =====
-- Where a round of worker_loop in work_stealing_executor.cc finds its item.
use mathlib.Core.Path.{subst}
use mathlib.Core.Bool.{true≢false}
use storage_engine.Prelude.{
  ℕ, ◌+◌, ◌<◌, ◌≡◌, refl, sym, ap, ◌∙◌, inl, inr, false, Option, none, some, List, [], ◌∷◌, arith,
  Bool-cases, Bool, add_word, update_self,
}
use storage_engine.Work.{WorkItem}
use storage_engine.Idle.{EventFd, Config, enter_idle}
use storage_engine.Ring.Mpmc.{MpmcRing, dequeue_mc}
use storage_engine.Ring.Mpmc.Sizes.{power-IsCapacity}
use storage_engine.Ring.Mpmc.Single.{Taken, nothing, oldest, dequeue_mc-Taken}
use storage_engine.Ring.Fifo.{pop}
use storage_engine.Ring.Local.{LocalQueue, try_dequeue}
use storage_engine.Ring.Local.Inv.{try_dequeue-IsValid}
use storage_engine.Ring.Mpmc.Contents as Mpmc
use storage_engine.Ring.Local.Inv as Local
use storage_engine.Ring.Local.Refine as LocalRefine
use storage_engine.Ring.Local.Refine.{try_dequeue_refines}
use storage_engine.Executor.{
  Executor, set_worker, yield_capacity, Source, from_yield, from_local, from_global, from_peer,
  victim_idx, steal, no_peers, from_peers, from_entry, from_own, find_work, RoundEnd, worked,
  parked, worker_round, count_steal, count_item, at_home,
}
use storage_engine.Executor.Queues.{
  QueueId, yield_of, local_of, entry, field_kept, queue_of, content, IsValid, Found, ring-Found,
  yield-Found, entry-Found, with_ring,
}
use storage_engine.Executor.Stealing.{Result, Emptied, Stolen, steal-Stolen}

module _ (events : EventFd) where
  -- The queues that a round looks at before the source are empty.
  abbrev pub Passed : ℕ → Source → Executor events → Type 0
  Passed me from_yield ex = Unit
  Passed me from_local ex = content events ex (yield_of me) ≡ []
  Passed me from_global ex =
      (content events ex (yield_of me) ≡ []) × (content events ex (local_of me) ≡ [])
  Passed me (from_peer p) ex =
      (content events ex (yield_of me) ≡ [])
      × (content events ex (local_of me) ≡ [])
      × (content events ex entry ≡ [])
      × ((n : ℕ) × (n < ex.steal_attempts)
          × (p ≡ victim_idx events (ex.workers me) n)
          × Emptied events me 0 n ex)

  -- An item, the oldest of the first queue in the order of the code that holds one, or none, when all
  -- that the code looks at are empty.
  abbrev pub Ends : ℕ → Executor events → Result events → Type 0
  Ends me ex (some (src, item), ex') = Passed me src ex × Found events ex (queue_of me src) item ex'
  Ends me ex (none, ex') =
      (content events ex (yield_of me) ≡ [])
      × (content events ex (local_of me) ≡ [])
      × (content events ex entry ≡ [])
      × (no_peers events (ex.workers me) ≡ false → Emptied events me 0 ex.steal_attempts ex)
      × ((q : QueueId) → content events ex' q ≡ content events ex q)
      × IsValid events ex'

  Stolen-Ends :
      (me : ℕ) (ex : Executor events) (res : Result events)
      → content events ex (yield_of me) ≡ []
      → content events ex (local_of me) ≡ []
      → content events ex entry ≡ []
      → Stolen events me 0 ex.steal_attempts ex res
      → Ends me ex res
  Stolen-Ends me ex (none, ex') y l g (e, same, v) = (y, l, g, (λ some_peer. e), same, v)
  Stolen-Ends me ex (some (from_peer p, item), ex') y l g (n, le, lt, s, e, f) =
      ((y, l, g, (n, lt, ap peer s, e)), f)
    where
      peer : Source → ℕ
      peer from_yield = p
      peer from_local = p
      peer from_global = p
      peer (from_peer v) = v
  Stolen-Ends me ex (some (from_yield, item), ex') y l g (n, le, lt, s, e, f) = (tt, f)
  Stolen-Ends me ex (some (from_local, item), ex') y l g (n, le, lt, s, e, f) = (y, f)
  Stolen-Ends me ex (some (from_global, item), ex') y l g (n, le, lt, s, e, f) = ((y, l), f)

  from_peers-Ends :
      (me : ℕ) (ex : Executor events)
      → IsValid events ex
      → content events ex (yield_of me) ≡ []
      → content events ex (local_of me) ≡ []
      → content events ex entry ≡ []
      → Ends me ex (from_peers events me ex)
  unfolding from_peers
  from_peers-Ends me ex v y l g = elim (Bool-cases (no_peers events (ex.workers me))) [
    | inl e ↦
        let nobody : from_peers events me ex ≡ (none, ex) = rw (from_peers, e) refl in
        subst (Ends me ex) (sym nobody)
          (y, l, g, (λ p. absurd (true≢false (sym e ∙ p))), (λ q. refl), v)
    | inr e ↦
        let tries : from_peers events me ex ≡ steal events me ex.steal_attempts 0 ex =
          rw (from_peers, e) refl in
        let far : 0 + ex.steal_attempts ≡ ex.steal_attempts = omega arith in
        subst (Ends me ex) (sym tries) (
          Stolen-Ends me ex (steal events me ex.steal_attempts 0 ex) y l g (
            subst (λ k. Stolen events me 0 k ex (steal events me ex.steal_attempts 0 ex)) far
              (steal-Stolen events me ex.steal_attempts 0 ex v)))
  ]

  from_entry-Ends :
      (me : ℕ) (ex : Executor events)
      → IsValid events ex
      → content events ex (yield_of me) ≡ []
      → content events ex (local_of me) ≡ []
      → Ends me ex (from_entry events me ex)
  unfolding from_entry
  from_entry-Ends me ex v y l =
      look (dequeue_mc ex.global_entry) refl (dequeue_mc-Taken ex.global_entry v.entry_ring)
    where
      look :
          (res : Option WorkItem × MpmcRing WorkItem)
          → dequeue_mc ex.global_entry ≡ res
          → Taken ex.global_entry res
          → Ends me ex (from_entry events me ex)
      look res e (nothing r' empty) =
          let on : from_entry events me ex ≡ from_peers events me ex = rw (from_entry, e) refl in
          subst (Ends me ex) (sym on) (from_peers-Ends me ex v y l empty)
      look res e (oldest x r' held valid) =
          let got : from_entry events me ex
              ≡ (some (from_global, x), record ex { global_entry = r' }) =
            rw (from_entry, e, e) refl in
          subst (Ends me ex) (sym got) ((y, l), entry-Found events ex x r' v held valid)

  from_own-Ends :
      (me : ℕ) (ex : Executor events)
      → IsValid events ex
      → content events ex (yield_of me) ≡ []
      → Ends me ex (from_own events me ex)
  unfolding from_own
  from_own-Ends me ex v y =
      look (dequeue_mc (ex.workers me).local_deque) refl
        (dequeue_mc-Taken (ex.workers me).local_deque (v.rings me))
    where
      look :
          (res : Option WorkItem × MpmcRing WorkItem)
          → dequeue_mc (ex.workers me).local_deque ≡ res
          → Taken (ex.workers me).local_deque res
          → Ends me ex (from_own events me ex)
      look res e (nothing r' empty) =
          let on : from_own events me ex ≡ from_entry events me ex = rw (from_own, e) refl in
          subst (Ends me ex) (sym on) (from_entry-Ends me ex v y empty)
      look res e (oldest x r' held valid) =
          let got : from_own events me ex ≡ (some (from_local, x), with_ring events ex me r') =
            rw (from_own, e, e) refl in
          subst (Ends me ex) (sym got) (y, ring-Found events ex me x r' v held valid)

  pub find_work-Ends :
      (me : ℕ) (ex : Executor events) → IsValid events ex → Ends me ex (find_work events me ex)
  unfolding find_work pop
  find_work-Ends me ex v =
      look (try_dequeue yield_capacity (ex.workers me).yield_queue) refl
        (LocalRefine.contents yield_capacity (ex.workers me).yield_queue) refl
        (try_dequeue_refines (power-IsCapacity 10 (omega arith)) (ex.workers me).yield_queue
          (v.yields me))
        (try_dequeue-IsValid (power-IsCapacity 10 (omega arith)) (ex.workers me).yield_queue
          (v.yields me))
    where
      look :
          (res : Option WorkItem × LocalQueue WorkItem)
          → try_dequeue yield_capacity (ex.workers me).yield_queue ≡ res
          → (held : List WorkItem)
          → LocalRefine.contents yield_capacity (ex.workers me).yield_queue ≡ held
          → ◌≡◌ {A = Option WorkItem × List WorkItem}
              (res.0, LocalRefine.contents yield_capacity res.1)
              (pop held)
          → Local.IsValid yield_capacity res.1
          → Ends me ex (find_work events me ex)
      look (none, queue) e [] h p valid =
          let on : find_work events me ex ≡ from_own events me ex = rw (find_work, e) refl in
          subst (Ends me ex) (sym on) (from_own-Ends me ex v h)
      look (some x, queue) e [] h p valid = absurd (ground (arith, p))
      look (none, queue) e (x ∷ rest) h p valid = absurd (ground (arith, p))
      look (some x', queue) e (x ∷ rest) h p valid =
          let got : find_work events me ex ≡ (
            some (from_yield, x'),
            set_worker events ex me (record (ex.workers me) { yield_queue = queue }),
          ) =
            rw (find_work, e, e) refl in
          subst (Ends me ex) (sym got) (tt, yield-Found events ex me x' queue v (cc (h, p)) valid)

  -- Counting a park leaves the queues as they are.
  content-counted :
      (me : ℕ) (ex : Executor events) (q : QueueId)
      → content events
          (set_worker events ex me
            (record (ex.workers me) { parks = add_word (ex.workers me).parks 1 }))
          q
        ≡ content events ex q
  content-counted me ex (yield_of j) =
      field_kept events (λ ws. LocalRefine.contents yield_capacity ws.yield_queue) ex.workers me
        (record (ex.workers me) { parks = add_word (ex.workers me).parks 1 }) j refl
  content-counted me ex (local_of j) =
      field_kept events (λ ws. Mpmc.contents ws.local_deque) ex.workers me
        (record (ex.workers me) { parks = add_word (ex.workers me).parks 1 }) j refl
  content-counted me ex entry = refl

  -- A round that found an item ends where its execution leads from the executor that has lost it, with
  -- the item counted; one that found none leaves the queues, counts a park and calls enter_idle.
  abbrev pub RoundEnds :
      (WorkItem → Executor events → Executor events)
      → Config
      → (ℕ → Bool)
      → ℕ
      → Executor events
      → RoundEnd events
      → Type 0
  RoundEnds execute idle arrives me ex (worked done) =
      (src : Source) × (item : WorkItem) × (ex' : Executor events) × Ends me ex
        (some (src, item), ex')
      × (done
          ≡ count_steal events me src
              (count_item events me item (execute item (at_home events me ex'))))
  RoundEnds execute idle arrives me ex (parked after outcome) =
      (ex' : Executor events) × Ends me ex (none, ex')
      × ((q : QueueId) → content events after q ≡ content events ex q)
      × ((after.workers me).parks ≡ add_word (ex'.workers me).parks 1)
      × (outcome ≡ enter_idle events idle arrives (ex'.workers me).park)

  -- A round executes the oldest item of the first queue that holds one, in the order yield queue, own
  -- ring, entry ring, rings of the peers it turns to; until the execution the other queues keep what
  -- they hold, and after it the item is counted. A round executes none only if all of these are empty;
  -- it then counts a park and calls enter_idle.
  pub round_takes_first :
      (execute : WorkItem → Executor events → Executor events) (idle : Config) (arrives : ℕ → Bool)
      (me : ℕ) (ex : Executor events)
      → IsValid events ex
      → RoundEnds execute idle arrives me ex (worker_round events execute idle arrives me ex)
  unfolding worker_round
  round_takes_first execute idle arrives me ex v =
      found (find_work events me ex) refl (find_work-Ends me ex v)
    where
      found :
          (res : Result events)
          → find_work events me ex ≡ res
          → Ends me ex res
          → RoundEnds execute idle arrives me ex (worker_round events execute idle arrives me ex)
      found (some (src, item), ex') e ends =
          let on : worker_round events execute idle arrives me ex
              ≡ worked (
                  count_steal events me src
                    (count_item events me item (execute item (at_home events me ex')))) =
            rw (worker_round, e, e) refl in
          subst (RoundEnds execute idle arrives me ex) (sym on) (src, item, ex', ends, refl)
      found (none, ex') e ends =
          let after =
            set_worker events ex' me
              (record (ex'.workers me) { parks = add_word (ex'.workers me).parks 1 }) in
          let on : worker_round events execute idle arrives me ex
              ≡ parked after (enter_idle events idle arrives (ex'.workers me).park) =
            rw (worker_round, e, e) refl in
          subst (RoundEnds execute idle arrives me ex) (sym on) (
            ex',
            ends,
            λ q. content-counted me ex' q ∙ ends.4 q,
            ap (λ ws. ws.parks)
                (update_self ex'.workers me
                  (record (ex'.workers me) { parks = add_word (ex'.workers me).parks 1 })),
            refl,
          )
