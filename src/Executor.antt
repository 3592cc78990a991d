-- ===== src/Executor.antt =====
-- src/runtime/work_stealing_executor.h and .cc: submission and one round of a worker's loop, each call
-- of a queue one step. The queues are the rings of Ring/Mpmc and Ring/Local. What an item does when it
-- is executed is a parameter, which may change the executor as it likes; the vector of workers is a
-- store by index, and the thread-local variables of a worker's thread stand in its state. The event
-- descriptor of its AdaptiveIdle is the kernel's. Threads, CPU binding and hwloc are not modelled.
pub mod Queues
pub mod Setup
pub mod Build
pub mod Submission
pub mod Stealing
pub mod Rounds
pub mod Victims
use storage_engine.Prelude.{
  ℕ, zero, suc, ◌+◌, ◌*◌, ◌%◌, Bool, true, false, Option, none, some, List, [], ◌∷◌, ◌==◌, ltb, leb,
  if◌then◌else◌, length, get_or, update, add_word, word, size_max,
}
use storage_engine.Work.{WorkItem, is_func, make_coro}
use storage_engine.Ring.Mpmc.{MpmcRing, enqueue, dequeue_mc}
use storage_engine.Ring.Local.{LocalQueue, try_dequeue}
use storage_engine.Idle as Idle
use storage_engine.Idle.{EventFd, Config, AdaptiveIdle, notify, enter_idle}

-- LocalQueue's default capacity.
abbrev pub yield_capacity : ℕ
yield_capacity = 1024

pub data Source : Type 0 where
  from_yield from_local from_global : Source
  from_peer : (victim : ℕ) → Source

module _ (events : EventFd) where
  pub record WorkerState : Type 0 where
    pub id : ℕ
    pub local_deque : MpmcRing WorkItem
    pub yield_queue : LocalQueue WorkItem
    pub running : Bool
    pub park : AdaptiveIdle events
    pub numa_peers : List ℕ
    pub tasks_executed : ℕ
    pub coro_resumes : ℕ
    pub steals_success : ℕ
    pub steals_failed : ℕ
    pub parks : ℕ
    -- The worker whose yield queue the thread's tls_source_queue is, and tls_source_queue_idx.
    pub tls_source_queue : Option ℕ
    pub tls_source_queue_idx : ℕ

  -- The three counters at the end are those of the file: g_add_counter, g_wse_tasks, g_wse_steals.
  pub record Executor : Type 0 where
    pub steal_attempts : ℕ
    pub num_workers : ℕ
    pub workers : ℕ → WorkerState
    pub global_entry : MpmcRing WorkItem
    pub add_counter : ℕ
    pub wse_tasks : ℕ
    pub wse_steals : ℕ

  abbrev pub set_worker : Executor → ℕ → WorkerState → Executor
  set_worker ex i ws = record ex { workers = update ex.workers i ws }

  -- `add`, on a thread of this executor (its worker's number) or on any other.
  unfoldable pub add : Option ℕ → WorkItem → Executor → Executor
  add (some me) item ex =
      let ws = ex.workers me in
      set_worker ex me (record ws { local_deque = (enqueue ws.local_deque item).1 })
  add none item ex =
      let idx = ex.add_counter % ex.num_workers in
      let ws = ex.workers idx in
      record ex {
        global_entry = (enqueue ex.global_entry item).1;
        add_counter = add_word ex.add_counter 1;
        workers = update ex.workers idx (record ws { park = notify events ws.park });
      }

  unfoldable pub add_to_worker : (worker_id handle : ℕ) → Executor → Executor
  add_to_worker worker_id handle ex =
      let ws = ex.workers worker_id in
      if leb ex.num_workers worker_id
      then ex
      else set_worker ex worker_id (record ws {
        local_deque = (enqueue ws.local_deque (make_coro handle)).1;
        park = notify events ws.park;
      })

  abbrev pub stop_worker : WorkerState → WorkerState
  stop_worker ws = record ws { running = false; park = notify events ws.park }

  unfoldable pub stop : Executor → Executor
  stop ex = record ex {
    workers = λ i. if ltb i ex.num_workers then stop_worker (ex.workers i) else ex.workers i;
  }

  abbrev pub start_idx : WorkerState → ℕ
  start_idx ws = ws.id * 2654435761 % word % length ws.numa_peers

  -- The position among the peers at which the thief's attempt `i` looks, and the peer there.
  unfoldable pub victim_at : WorkerState → ℕ → ℕ
  victim_at ws i = add_word (start_idx ws) i % length ws.numa_peers

  unfoldable pub victim_idx : WorkerState → ℕ → ℕ
  unfolding victim_at
  victim_idx ws i = get_or ws.numa_peers (victim_at ws i) 0

  abbrev failed_once : WorkerState → WorkerState
  failed_once ws = record ws { steals_failed = add_word ws.steals_failed 1 }

  -- The loop of the attempts, `left` of them, the next one number `i`.
  unfoldable pub steal : ℕ → (left i : ℕ) → Executor → Option (Source × WorkItem) × Executor
  steal me zero i ex = (none, ex)
  steal me (suc left) i ex =
      let v = victim_idx (ex.workers me) i in
      let (got, ring) = dequeue_mc (ex.workers v).local_deque in
      elim got [
        | some item ↦ (
          some (from_peer v, item),
          set_worker ex v (record (ex.workers v) { local_deque = ring }),
        )
        | none ↦ steal me left (i + 1) (set_worker ex me (failed_once (ex.workers me)))
      ]

  abbrev pub no_peers : WorkerState → Bool
  no_peers ws = length ws.numa_peers == 0

  unfoldable pub from_peers : ℕ → Executor → Option (Source × WorkItem) × Executor
  unfolding steal
  from_peers me ex =
      if no_peers (ex.workers me) then (none, ex) else steal me ex.steal_attempts 0 ex

  unfoldable pub from_entry : ℕ → Executor → Option (Source × WorkItem) × Executor
  unfolding from_peers
  from_entry me ex =
      let (got, ring) = dequeue_mc ex.global_entry in
      elim got [
        | some item ↦ (some (from_global, item), record ex { global_entry = ring })
        | none ↦ from_peers me ex
      ]

  unfoldable pub from_own : ℕ → Executor → Option (Source × WorkItem) × Executor
  unfolding from_entry
  from_own me ex =
      let ws = ex.workers me in
      let (got, ring) = dequeue_mc ws.local_deque in
      elim got [
        | some item ↦ (some (from_local, item), set_worker ex me (record ws { local_deque = ring }))
        | none ↦ from_entry me ex
      ]

  -- Where a round finds its item: the yield queue, the own ring, the entry ring, a peer's ring.
  unfoldable pub find_work : ℕ → Executor → Option (Source × WorkItem) × Executor
  unfolding from_own
  find_work me ex =
      let ws = ex.workers me in
      let (got, queue) = try_dequeue yield_capacity ws.yield_queue in
      elim got [
        | some item ↦
            (some (from_yield, item), set_worker ex me (record ws { yield_queue = queue }))
        | none ↦ from_own me ex
      ]

  abbrev at_home : ℕ → Executor → Executor
  at_home me ex =
      let ws = ex.workers me in
      record ex {
        wse_tasks = add_word ex.wse_tasks 1;
        workers =
            update ex.workers me
              (record ws { tls_source_queue = some me; tls_source_queue_idx = size_max });
      }

  abbrev count_item : ℕ → WorkItem → Executor → Executor
  count_item me item ex =
      let ws = ex.workers me in
      set_worker ex me (
        if is_func item
        then record ws { tasks_executed = add_word ws.tasks_executed 1 }
        else record ws { coro_resumes = add_word ws.coro_resumes 1 })

  abbrev count_steal : ℕ → Source → Executor → Executor
  count_steal me from_yield ex = ex
  count_steal me from_local ex = ex
  count_steal me from_global ex = ex
  count_steal me (from_peer v) ex =
      let ws = ex.workers me in
      record ex {
        wse_steals = add_word ex.wse_steals 1;
        workers =
            update ex.workers me (record ws { steals_success = add_word ws.steals_success 1 });
      }

  -- The end of a round: an item was executed, or the worker is idle.
  pub data RoundEnd : Type 0 where
    worked : Executor → RoundEnd
    parked : Executor → Idle.Outcome events → RoundEnd

  unfoldable pub worker_round :
      (WorkItem → Executor → Executor) → Config → (ℕ → Bool) → ℕ → Executor → RoundEnd
  unfolding find_work
  worker_round execute idle arrives me ex =
      let (found, ex') = find_work me ex in
      elim found [
        | some (src, item) ↦
            worked (count_steal me src (count_item me item (execute item (at_home me ex'))))
        | none ↦
            let ws = ex'.workers me in
            parked (set_worker ex' me (record ws { parks = add_word ws.parks 1 }))
              (enter_idle events idle arrives ws.park)
      ]
