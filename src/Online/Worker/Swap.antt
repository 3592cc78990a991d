-- ===== src/Online/Worker/Swap.antt =====
-- What swap_engine_queue of online_worker.h does to the items, and to what is submitted afterwards.
use storage_engine.Prelude.{
  ℕ, zero, suc, ◌-◌, ◌<◌, ◌≡◌, ◌≢◌, refl, true, false, none, some, List, [], ◌∷◌, ◌++◌, get_elem?,
  set, length, leb, take, arith, if◌then◌else◌,
}
use storage_engine.Ring.Local.{LocalQueue}
use storage_engine.Work.{WorkItem}
use storage_engine.Idle.{EventFd}
use storage_engine.Scheduler.{replace_queue}
use storage_engine.Scheduler.Drain.{get_elem?-set_self, get_elem?-set_ne}
use storage_engine.Online.Queue.{WorkerQueue, local, is_local}
use storage_engine.Online.Queue.Migration.{IsValid, contents, room, migrate-Filled}
use storage_engine.Online.Worker.{
  OnlineWorker, indirect, direct, wrong_cast, mode_for, swap_engine_queue, submit_engine,
}

get-lt :
    (qs : List WorkerQueue) (i : ℕ) (q : WorkerQueue)
    → get_elem? qs i ≡ some q
    → leb (length qs) i ≡ false
get-lt [] i q e = absurd (ground (arith, e))
get-lt (x ∷ qs) zero q e = ground arith
get-lt (x ∷ qs) (suc i) q e = ground (arith, get-lt qs i q e)

module _ (events : EventFd) (P W : Type 0) where
  -- The engine queue is `new_queue` with as many of the old items behind its own as it has room for.
  pub record Swapped (old_q new_queue : WorkerQueue) (w w' : OnlineWorker events P W) : Type 0 where
    pub filled : WorkerQueue
    pub at : get_elem? w'.scheduler.queues w.idx_engine ≡ some filled
    pub holds :
        contents filled
        ≡ contents new_queue ++ take (room new_queue - length (contents new_queue)) (contents old_q)
    pub valid : IsValid filled
    pub others :
        (j : ℕ)
        → w.idx_engine ≢ j
        → get_elem? w'.scheduler.queues j ≡ get_elem? w.scheduler.queues j
    pub mode : w'.dispatch_mode ≡ (if is_local filled then direct else indirect)

  -- With fuel for the items of the old queue, the swap succeeds, the new engine queue holds what it held
  -- and behind it the old items in order, as many as it takes: a ring up to its capacity, a local queue
  -- up to 1023, and the batched queue none; the others are lost. The other queues stay, and the dispatch
  -- mode is direct for a local queue alone.
  pub swap-Swapped :
      (fuel : ℕ) (old_q new_queue : WorkerQueue) (w : OnlineWorker events P W)
      → get_elem? w.scheduler.queues w.idx_engine ≡ some old_q
      → IsValid old_q
      → IsValid new_queue
      → length (contents old_q) < fuel
      → (w' : OnlineWorker events P W) × (swap_engine_queue events P W fuel new_queue w
          ≡ some (true, w'))
        × Swapped old_q new_queue w w'
  unfolding swap_engine_queue replace_queue
  swap-Swapped fuel old_q new_queue w at v ok enough =
      let (filled, runs, (holds, valid)) = migrate-Filled fuel old_q new_queue v ok enough in
      let inside = get-lt w.scheduler.queues w.idx_engine old_q at in
      let w' : OnlineWorker events P W = record w {
        scheduler = record w.scheduler { queues = set w.scheduler.queues w.idx_engine filled };
        dispatch_mode = mode_for events P W filled;
      } in
      (
        w',
        rw (swap_engine_queue, at, runs, replace_queue, inside) refl,
        record {
          filled = filled;
          at = get_elem?-set_self w.scheduler.queues w.idx_engine old_q filled at;
          holds = holds;
          valid = valid;
          others = λ j ne. get_elem?-set_ne w.scheduler.queues w.idx_engine j filled ne;
          mode = refl;
        },
      )

  -- After a swap to a queue that is no ring of its class, submit_engine has no behaviour: it casts the
  -- engine queue to that class.
  pub swapped_local_refuses :
      (now : ℕ) (q : LocalQueue WorkItem) (item : WorkItem) (w : OnlineWorker events P W)
      → get_elem? w.scheduler.queues w.idx_engine ≡ some (local q)
      → w.scheduler.perf ≡ none
      → submit_engine events P W now item w ≡ wrong_cast
  unfolding submit_engine
  swapped_local_refuses now q item w at plain = rw (submit_engine, plain, at) refl
