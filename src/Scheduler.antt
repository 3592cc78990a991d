-- ===== src/Scheduler.antt =====
-- src/runtime/scheduler.h and .cc. The queues and the policy are interfaces, as they are virtual
-- classes there. What an item does when it is executed is a parameter, which may change the scheduler and the
-- world outside; so are the clock's readings and the time each item takes. Left out are the probes in
-- processor cycles and the metric counters fed from them.
pub mod Drain
pub mod BusyRound
pub mod PolicyRound
pub mod Stop
use storage_engine.Prelude.{
  ℕ, zero, suc, ◌+◌, Bool, true, false, not, ◌&&◌, ◌||◌, Option, none, some, List, [], ◌∷◌, ◌++◌,
  ◌==◌, ltb, leb, if◌then◌else◌, length, get_elem?, get_or, set, min, add_word, size_max,
}
use storage_engine.Work.{WorkItem}
use storage_engine.Interface.{SchedulerStats, WorkQueue, SchedulingPolicy}
use storage_engine.Policy.Types.{QueueType, Priority, QueueSnapshot, ScheduleDecision}
use storage_engine.Metric.Perf.{
  PerfLevel, no_perf, counting, tracing, WorkerPerf, record_dequeue, record_exec,
}
use storage_engine.Idle as Idle
use storage_engine.Idle.{EventFd, Config, AdaptiveIdle, notify, enter_idle}

abbrev pub max_batch_size : ℕ
max_batch_size = 64

module _ (events : EventFd) (Q P W : Type 0) where
  pub record Scheduler : Type 0 where
    pub queues : List Q
    pub last_poll_times : List ℕ
    pub total_dequeued : List ℕ
    pub policy : P
    pub idle : Option (AdaptiveIdle events)
    pub perf : Option WorkerPerf
    pub affine_idx : ℕ
    pub disk_io_idx : ℕ
    pub io_backend : Bool
    pub busy_poll : Bool
    pub running : Bool
    pub stop_requested : Bool
    pub stats : SchedulerStats
    pub tls_source_queue_idx : ℕ
    pub world : W

  unfoldable pub register_queue : Q → Scheduler → ℕ × Scheduler
  register_queue queue s = (
    length s.queues,
    record s {
      queues = s.queues ++ (queue ∷ []);
      last_poll_times = s.last_poll_times ++ (0 ∷ []);
      total_dequeued = s.total_dequeued ++ (0 ∷ []);
    },
  )

  abbrev pub get_queue : Scheduler → ℕ → Option Q
  get_queue s idx = get_elem? s.queues idx

  unfoldable pub replace_queue : ℕ → Q → Scheduler → Bool × Scheduler
  replace_queue idx new_queue s =
      if leb (length s.queues) idx
      then (false, s)
      else (true, record s { queues = set s.queues idx new_queue })

  abbrev pub notified : Option (AdaptiveIdle events) → Option (AdaptiveIdle events)
  notified none = none
  notified (some idle) = some (notify events idle)

  unfoldable pub request_stop : Scheduler → Scheduler
  request_stop s = record s { stop_requested = true; running = false; idle = notified s.idle }

  module _ (ops : WorkQueue Q) (rules : SchedulingPolicy P)
      (execute : WorkItem → Scheduler → Scheduler) (exec_time : WorkItem → ℕ) where
    open ops use {type, base_priority, approx_count, try_dequeue_batch}
    open rules use {decide, on_task_completed}

    abbrev pub level_of : Option WorkerPerf → PerfLevel
    level_of none = no_perf
    level_of (some p) = p.level

    abbrev counted : Scheduler → Scheduler
    counted s = record s {
      stats = record s.stats { total_tasks_executed = add_word s.stats.total_tasks_executed 1 };
    }

    abbrev executed : ℕ → Scheduler → Scheduler
    executed ns s = record s {
      stats = record s.stats {
        total_tasks_executed = add_word s.stats.total_tasks_executed 1;
        total_exec_ns = add_word s.stats.total_exec_ns ns;
      };
    }

    abbrev perf_exec : QueueType → ℕ → Scheduler → Scheduler
    perf_exec q ns s = record s { perf = with_exec s.perf }
      where
        with_exec : Option WorkerPerf → Option WorkerPerf
        with_exec none = none
        with_exec (some p) = some (record_exec q ns p)

    -- What is counted once an item has been executed, by the level.
    abbrev pub account : PerfLevel → QueueType → ℕ → Scheduler → Scheduler
    account no_perf q ns s = counted s
    account counting q ns s = executed ns s
    account tracing q ns s = perf_exec q ns (executed ns s)

    -- The body of the loops over a batch in `drain_p0` and `run_busy`: the item of queue `idx`.
    unfoldable pub run_item : PerfLevel → QueueType → ℕ → WorkItem → Scheduler → Scheduler
    run_item lv q idx item s =
        account lv q (exec_time item) (execute item (record s { tls_source_queue_idx = idx }))

    unfoldable pub run_batch : PerfLevel → QueueType → ℕ → List WorkItem → Scheduler → Scheduler
    unfolding run_item
    run_batch lv q idx [] s = s
    run_batch lv q idx (item ∷ items) s = run_batch lv q idx items (run_item lv q idx item s)

    abbrev pub set_queue : ℕ → Q → Scheduler → Scheduler
    set_queue idx q s = record s { queues = set s.queues idx q }

    abbrev polled : (now idx : ℕ) → Scheduler → Scheduler
    polled now idx s = record s { last_poll_times = set s.last_poll_times idx now }

    abbrev dequeued : (n idx : ℕ) → Scheduler → Scheduler
    dequeued n idx s = record s {
      total_dequeued = set s.total_dequeued idx (add_word (get_or s.total_dequeued idx 0) n);
    }

    -- The loop of `drain_p0`, with fuel; `none` is fuel run out. `now` is the clock, by rounds left.
    unfoldable pub drain_loop : (ℕ → ℕ) → PerfLevel → ℕ → Scheduler → Option Scheduler
    unfolding run_batch
    drain_loop now lv zero s = none
    drain_loop now lv (suc fuel) s = elim (get_elem? s.queues s.affine_idx) [
      | none ↦ some s
      | some q ↦
          let (items, q') = try_dequeue_batch q max_batch_size in
          let idx = s.affine_idx in
          elim items [
            | [] ↦ some (set_queue idx q' s)
            | item ∷ more ↦ drain_loop now lv fuel (
                dequeued (length (item ∷ more)) idx (
                  run_batch lv (type q) idx (item ∷ more)
                    (polled (now fuel) idx (set_queue idx q' s))))
          ]
    ]

    -- A queue index past the end does nothing.
    abbrev pub drain_p0 : (ℕ → ℕ) → ℕ → Scheduler → Option Scheduler
    drain_p0 now fuel s = drain_loop now (level_of s.perf) fuel s

    -- One batch of a queue in `run_busy`.
    unfoldable pub serve : PerfLevel → ℕ → Scheduler → Scheduler
    unfolding run_batch
    serve lv idx s = elim (get_elem? s.queues idx) [
      | none ↦ s
      | some q ↦
          let (items, q') = try_dequeue_batch q max_batch_size in
          run_batch lv (type q) idx items (set_queue idx q' s)
    ]

    -- The loop over the other queues, `left` of them from `qi` on.
    unfoldable pub serve_others : PerfLevel → (qi left : ℕ) → Scheduler → Scheduler
    unfolding serve
    serve_others lv qi zero s = s
    serve_others lv qi (suc left) s =
        serve_others lv (qi + 1) left
          (if (qi == s.affine_idx) || (qi == s.disk_io_idx) then s else serve lv qi s)

    abbrev pub served_all : PerfLevel → Scheduler → Scheduler
    served_all lv s = let s' = serve lv s.disk_io_idx s in serve_others lv 0 (length s'.queues) s'

    -- One round of `run_busy`.
    unfoldable pub busy_round : (ℕ → ℕ) → ℕ → Scheduler → Option Scheduler
    unfolding drain_loop serve_others
    busy_round now fuel s = elim (drain_p0 now fuel s) [
      | none ↦ none
      | some s1 ↦ drain_p0 now fuel (served_all (level_of s1.perf) s1)
    ]

    -- The snapshots from queue `i` on; the affine queue counts as empty.
    unfoldable pub snapshots : Scheduler → ℕ → List Q → List QueueSnapshot
    snapshots s i [] = []
    snapshots s i (q ∷ queues) =
        record {
          type = type q;
          priority = base_priority q;
          approx_count = if i == s.affine_idx then 0 else approx_count q;
          last_poll_ns = get_or s.last_poll_times i 0;
          total_dequeued = get_or s.total_dequeued i 0;
        }
        ∷ snapshots s (i + 1) queues

    abbrev perf_dequeue : QueueType → ℕ → WorkItem → Scheduler → Scheduler
    perf_dequeue q now item s = record s {
      perf = if ltb 0 item.enqueue_ns then with_dequeue s.perf else s.perf;
    }
      where
        with_dequeue : Option WorkerPerf → Option WorkerPerf
        with_dequeue none = none
        with_dequeue (some p) = some (record_dequeue q now item.enqueue_ns p)

    -- The body of the loop over the batch in `run`.
    unfoldable pub run_chosen : (now : ℕ) → QueueType → List WorkItem → Scheduler → Scheduler
    run_chosen now q [] s = s
    run_chosen now q (item ∷ items) s =
        let ns = exec_time item in
        let s' = perf_exec q ns (executed ns (execute item (perf_dequeue q now item s))) in
        run_chosen now q items (record s' { policy = on_task_completed q ns s'.policy })

    -- The end of a round of `run`: on with the next, or asleep in enter_idle.
    pub data RoundEnd : Type 0 where
      next : Option Scheduler → RoundEnd
      idles : Scheduler → Idle.Outcome events → RoundEnd
      idle_without_waiter : RoundEnd

    abbrev polls_once : ScheduleDecision × P → Scheduler → Scheduler
    polls_once (d, p) s = record s {
      policy = p;
      stats = record s.stats { total_polls = add_word s.stats.total_polls 1 };
    }

    abbrev idles_once : Scheduler → Scheduler
    idles_once s = record s {
      stats = record s.stats { total_idles = add_word s.stats.total_idles 1 };
    }

    -- The chosen queue's batch and the second drain.
    unfoldable pub serve_decision : (ℕ → ℕ) → ℕ → ScheduleDecision → Scheduler → Option Scheduler
    unfolding run_chosen drain_loop
    serve_decision now fuel d s = elim (get_elem? s.queues d.queue_index) [
      | none ↦ some s
      | some q ↦
          let (items, q') = try_dequeue_batch q (min d.batch_size max_batch_size) in
          let taken = set_queue d.queue_index q' s in
          elim items [
            | [] ↦ some taken
            | item ∷ more ↦ drain_p0 now fuel (
                dequeued (length (item ∷ more)) d.queue_index
                  (run_chosen (now 0) (type q) (item ∷ more) (polled (now 0) d.queue_index taken)))
          ]
    ]

    abbrev go_idle : Config → (ℕ → Bool) → Scheduler → Option (AdaptiveIdle events) → RoundEnd
    go_idle cfg arrives s none = idle_without_waiter
    go_idle cfg arrives s (some idle) = idles (idles_once s) (enter_idle events cfg arrives idle)

    -- Steps 2 to 4, on the drained scheduler.
    unfoldable pub decide_round : (ℕ → ℕ) → ℕ → Config → (ℕ → Bool) → Scheduler → RoundEnd
    unfolding serve_decision snapshots
    decide_round now fuel cfg arrives s =
        let (d, p) = decide s.policy (snapshots s 0 s.queues) s.stats in
        let s' = polls_once (d, p) s in
        if d.idle
        then (if s.io_backend then next (some s') else go_idle cfg arrives s' s'.idle)
        else next (serve_decision now fuel d s')

    -- One round of `run`.
    unfoldable pub policy_round : (ℕ → ℕ) → ℕ → Config → (ℕ → Bool) → Scheduler → RoundEnd
    unfolding decide_round drain_loop
    policy_round now fuel cfg arrives s = elim (drain_p0 now fuel s) [
      | none ↦ next none
      | some s1 ↦ decide_round now fuel cfg arrives s1
    ]
