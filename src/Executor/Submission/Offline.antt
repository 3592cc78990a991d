-- ===== src/Executor/Submission/Offline.antt =====
-- src/runtime/offline_group.h and .cc: the group passes what it is given to its executor. The index of
-- a worker is not checked there; past the end is `none`. The utilization, computed in double, is left out.
use storage_engine.Prelude.{
  ℕ, zero, suc, ◌+◌, ◌<◌, ◌≡◌, refl, ap, true, Option, none, some, ltb, arith, add_word,
  if◌then◌else◌, update_self,
}
use storage_engine.Work.{WorkItem}
use storage_engine.Idle.{EventFd, notify}
use storage_engine.Ring.Mpmc.{enqueue}
use storage_engine.Executor.{WorkerState, Executor, add, set_worker}
use storage_engine.Executor.Queues.{local_of, IsValid}
use storage_engine.Executor.Submission.{Submitted, into_ring}

pub record OfflineGroupStats : Type 0 where
  pub worker_count : ℕ
  pub tasks_completed : ℕ
  pub coro_resumes : ℕ
  pub steals_success : ℕ
  pub steals_failed : ℕ
  pub parks : ℕ

module _ (events : EventFd) where
  abbrev pub submit : Option ℕ → WorkItem → Executor events → Executor events
  submit thread item ex = add events thread item ex

  abbrev given : WorkItem → WorkerState events → WorkerState events
  given item ws = record ws {
    local_deque = (enqueue ws.local_deque item).1;
    park = notify events ws.park;
  }

  unfoldable pub submit_to_worker : ℕ → WorkItem → Executor events → Option (Executor events)
  submit_to_worker worker_id item ex =
      if ltb worker_id ex.num_workers
      then some (set_worker events ex worker_id (given item (ex.workers worker_id)))
      else none

  abbrev counted : WorkerState events → OfflineGroupStats → OfflineGroupStats
  counted ws s = record {
    worker_count = s.worker_count;
    tasks_completed = add_word s.tasks_completed ws.tasks_executed;
    coro_resumes = add_word s.coro_resumes ws.coro_resumes;
    steals_success = add_word s.steals_success ws.steals_success;
    steals_failed = add_word s.steals_failed ws.steals_failed;
    parks = add_word s.parks ws.parks;
  }

  -- The loop from worker `i` on, `left` of them.
  unfoldable pub add_stats : Executor events → (i left : ℕ) → OfflineGroupStats → OfflineGroupStats
  add_stats ex i zero s = s
  add_stats ex i (suc left) s = add_stats ex (i + 1) left (counted (ex.workers i) s)

  unfoldable pub stats : Executor events → OfflineGroupStats
  unfolding add_stats
  stats ex = add_stats ex 0 ex.num_workers (record {
    worker_count = ex.num_workers;
    tasks_completed = 0;
    coro_resumes = 0;
    steals_success = 0;
    steals_failed = 0;
    parks = 0;
  })

  -- An item for a worker of the group goes to the end of that worker's ring, as far as there is room,
  -- and the worker is notified.
  pub submitted_to_worker :
      (worker_id : ℕ) (item : WorkItem) (ex : Executor events)
      → IsValid events ex
      → worker_id < ex.num_workers
      → (ex' : Executor events) × (submit_to_worker worker_id item ex ≡ some ex')
        × Submitted events ex
            (local_of worker_id)
            (ex.workers worker_id).local_deque.capacity
            item
            ex'
        × ((ex'.workers worker_id).park ≡ notify events (ex.workers worker_id).park)
  unfolding submit_to_worker
  submitted_to_worker worker_id item ex valid lt =
      let inside : ltb worker_id ex.num_workers ≡ true = ground (arith, lt) in
      (
        set_worker events ex worker_id (given item (ex.workers worker_id)),
        rw (submit_to_worker, inside) refl,
        into_ring events ex worker_id item (given item (ex.workers worker_id)) valid refl refl,
        ap (λ w. w.park) (update_self ex.workers worker_id (given item (ex.workers worker_id))),
      )
