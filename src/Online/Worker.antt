-- ===== src/Online/Worker.antt =====
-- src/runtime/online_worker.h and .cc, the worker's queues and timers. A queue's static type in a cast
-- is its class; a cast to another class has no behaviour in the language, and is a result of its own.
pub mod Swap
pub mod Timers
use storage_engine.Prelude.{
  ℕ, zero, suc, Bool, true, false, Option, none, some, List, [], ◌∷◌, ◌++◌, not, ◌==◌,
  if◌then◌else◌, get_elem?, set, size_max,
}
use storage_engine.Work.{WorkItem, make_coro}
use storage_engine.Policy.Types.{QueueType, net_io, disk_io, engine}
use storage_engine.Metric.Perf.{WorkerPerf, record_enqueue}
use storage_engine.Idle.{EventFd}
use storage_engine.Ring.Mpmc as Mpmc
use storage_engine.Ring.Spsc as Spsc
use storage_engine.Timer.{TimerNode, expire}
use storage_engine.Scheduler.{Scheduler, get_queue, replace_queue}
use storage_engine.Online.Queue.{
  WorkerQueue, ring, affine, local, spsc, spsc_capacity, enqueue, migrate, is_local,
}

pub data TaskDispatchMode : Type 0 where
  indirect direct : TaskDispatchMode

module _ (events : EventFd) (P W : Type 0) where
  pub record OnlineWorker : Type 0 where
    pub scheduler : Scheduler events WorkerQueue P W
    pub idx_engine : ℕ
    pub idx_net_io : ℕ
    pub idx_disk_io : ℕ
    pub idx_affine : ℕ
    pub idx_timer : ℕ
    pub dispatch_mode : TaskDispatchMode
    pub timers : List TimerNode

  abbrev pub mode_for : WorkerQueue → TaskDispatchMode
  mode_for q = if is_local q then direct else indirect

  -- `none` is fuel run out.
  unfoldable pub swap_engine_queue : ℕ → WorkerQueue → OnlineWorker → Option (Bool × OnlineWorker)
  unfolding migrate replace_queue
  swap_engine_queue fuel new_queue w =
      elim (get_queue events WorkerQueue P W w.scheduler w.idx_engine) [
        | none ↦ some (false, w)
        | some old_q ↦ elim (migrate fuel old_q new_queue) [
          | none ↦ none
          | some filled ↦
              let (ok, s) = replace_queue events WorkerQueue P W w.idx_engine filled w.scheduler in
              some (
                ok,
                record w {
                  scheduler = s;
                  dispatch_mode = if ok then mode_for filled else w.dispatch_mode;
                },
              )
        ]
      ]

  pub data Outcome : Type 0 where
    submitted : OnlineWorker → Outcome
    no_queue : Outcome
    wrong_cast : Outcome

  abbrev pub with_queue : OnlineWorker → ℕ → WorkerQueue → OnlineWorker
  with_queue w idx q = record w {
    scheduler = record w.scheduler { queues = set w.scheduler.queues idx q };
  }

  -- `static_cast<RingWorkQueue*>`, then the enqueue.
  abbrev into_ring : OnlineWorker → ℕ → WorkItem → Outcome
  into_ring w idx item = elim (get_queue events WorkerQueue P W w.scheduler idx) [
    | none ↦ no_queue
    | some (ring r) ↦ submitted (with_queue w idx (ring (Mpmc.enqueue r item).1))
    | some (affine r) ↦ wrong_cast
    | some (local q) ↦ wrong_cast
    | some (spsc q) ↦ wrong_cast
  ]

  -- `static_cast<BatchedSPSCWorkQueue*>`, then the push.
  abbrev into_spsc : OnlineWorker → ℕ → WorkItem → Outcome
  into_spsc w idx item = elim (get_queue events WorkerQueue P W w.scheduler idx) [
    | none ↦ no_queue
    | some (ring r) ↦ wrong_cast
    | some (affine r) ↦ wrong_cast
    | some (local q) ↦ wrong_cast
    | some (spsc q) ↦
        submitted (with_queue w idx (spsc (Spsc.push_batch spsc_capacity q (item ∷ []))))
  ]

  -- The time stamp of the worker's counters.
  abbrev stamped : QueueType → (now : ℕ) → WorkItem → OnlineWorker → WorkItem × OnlineWorker
  stamped q now item w = with_perf w.scheduler.perf
    where
      with_perf : Option WorkerPerf → WorkItem × OnlineWorker
      with_perf none = (item, w)
      with_perf (some p) =
          let (ns, p') = record_enqueue q now p in
          (
            record item { enqueue_ns = ns },
            record w { scheduler = record w.scheduler { perf = some p' } },
          )

  unfoldable pub submit_engine : (now : ℕ) → WorkItem → OnlineWorker → Outcome
  submit_engine now item w =
      let (item', w') = stamped engine now item w in into_ring w' w'.idx_engine item'

  unfoldable pub submit_net_io : (now : ℕ) → WorkItem → OnlineWorker → Outcome
  submit_net_io now item w =
      let (item', w') = stamped net_io now item w in into_spsc w' w'.idx_net_io item'

  unfoldable pub submit_disk_io : (now : ℕ) → WorkItem → OnlineWorker → Outcome
  submit_disk_io now item w =
      let (item', w') = stamped disk_io now item w in into_spsc w' w'.idx_disk_io item'

  -- The queue must exist (`assert`).
  unfoldable pub enqueue_affine : (handle : ℕ) → OnlineWorker → Outcome
  enqueue_affine handle w = into_ring w w.idx_affine (make_coro handle)

  -- The queue that an expired node without a callback goes to.
  abbrev pub home : OnlineWorker → TimerNode → ℕ
  home w node =
      if not (node.source_queue_idx == size_max) then node.source_queue_idx else w.idx_engine

  abbrev put_back : TimerNode → OnlineWorker → OnlineWorker
  put_back node w = elim (get_queue events WorkerQueue P W w.scheduler (home w node)) [
    | none ↦ w
    | some q ↦ with_queue w (home w node) (enqueue q (make_coro node.handle))
  ]

  -- The loop over the expired nodes; what a callback does to the worker is a parameter.
  unfoldable pub resume_all :
      (ℕ → OnlineWorker → OnlineWorker) → List TimerNode → OnlineWorker → OnlineWorker
  unfolding enqueue
  resume_all call [] w = w
  resume_all call (node ∷ nodes) w =
      resume_all call nodes
        (elim node.on_expire [ some callback ↦ call callback w | none ↦ put_back node w ])

  -- Where the coroutine yields to: its own queue, or the queue it came from.
  pub data Yield : Type 0 where
    to_timer to_source : Yield

  -- One round of `timer_coro_fn`.
  unfoldable pub timer_round :
      (ℕ → OnlineWorker → OnlineWorker) → (now : ℕ) → OnlineWorker → Yield × OnlineWorker
  unfolding expire resume_all
  timer_round call now w =
      let (expired, left) = expire now w.timers in
      let w' = record w { timers = left } in
      elim expired [
        | [] ↦ (to_source, w')
        | node ∷ nodes ↦ (to_timer, resume_all call (node ∷ nodes) w')
      ]
