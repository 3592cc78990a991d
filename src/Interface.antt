-- ===== src/Interface.antt =====
-- The virtual classes of src/runtime/work_queue.h and scheduling_policy.h as the scheduler calls them,
-- what it may rely on, and the rings of ring_work_queue.h as one of the queues.
use storage_engine.Prelude.{ℕ, ◌≡◌, sym, true, List, length, take, drop, All}
use storage_engine.Work.{WorkItem}
use storage_engine.Policy.Types.{QueueType, Priority, QueueSnapshot, ScheduleDecision}
use storage_engine.Ring.Mpmc.{MpmcRing, dequeue_bulk, count}
use storage_engine.Ring.Mpmc.Contents as Mpmc
use storage_engine.Ring.Mpmc.Refine.{dequeue_bulk_refines}

pub record SchedulerStats : Type 0 where
  pub total_polls : ℕ
  pub total_idles : ℕ
  pub total_tasks_executed : ℕ
  pub total_exec_ns : ℕ

-- The virtual members of work_queue.h that the scheduler calls.
pub record WorkQueue (Q : Type 0) : Type 0 where
  pub type : Q → QueueType
  pub base_priority : Q → Priority
  pub approx_count : Q → ℕ
  pub try_dequeue_batch : Q → ℕ → List WorkItem × Q

-- Those of scheduling_policy.h.
pub record SchedulingPolicy (P : Type 0) : Type 0 where
  pub decide : P → List QueueSnapshot → SchedulerStats → ScheduleDecision × P
  pub on_task_completed : QueueType → ℕ → P → P

-- A queue gives its oldest items, at most so many, keeps the others, and counts what it holds.
pub record QueueLaws {Q : Type 0} (ops : WorkQueue Q) : Type 1 where
  pub IsValid : Q → Type 0
  pub contents : Q → List WorkItem
  pub batch :
      (q : Q) (n : ℕ)
      → IsValid q
      → ((ops.try_dequeue_batch q n).0 ≡ take n (contents q))
        × (contents (ops.try_dequeue_batch q n).1 ≡ drop n (contents q))
        × IsValid (ops.try_dequeue_batch q n).1
  pub counts : (q : Q) → IsValid q → ops.approx_count q ≡ length (contents q)

-- A policy rests only when every snapshot counts 0.
pub record PolicyLaws {P : Type 0} (rules : SchedulingPolicy P) : Type 1 where
  pub Ready : P → (queues : ℕ) → Type 0
  pub rests :
      (p : P) (queues : List QueueSnapshot) (stats : SchedulerStats)
      → Ready p (length queues)
      → (rules.decide p queues stats).0.idle ≡ true
      → All (λ snap. snap.approx_count ≡ 0) queues

abbrev pub ring_queue : QueueType → Priority → WorkQueue (MpmcRing WorkItem)
ring_queue type priority = record {
  type = λ r. type;
  base_priority = λ r. priority;
  approx_count = count;
  try_dequeue_batch = dequeue_bulk;
}

abbrev pub ring_laws :
    (type : QueueType) (priority : Priority) → QueueLaws (ring_queue type priority)
ring_laws type priority = record {
  IsValid = λ r. Mpmc.IsValid r;
  contents = λ r. Mpmc.contents r;
  batch = λ r n v. dequeue_bulk_refines r n v;
  counts = λ r v. sym (Mpmc.length-contents r);
}
