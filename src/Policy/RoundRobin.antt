-- ===== src/Policy/RoundRobin.antt =====
-- src/runtime/round_robin_policy.h and .cc.
pub mod Choice
pub mod Turns
use storage_engine.Prelude.{
  ℕ, Bool, true, false, Option, none, some, List, ◌==◌, if◌then◌else◌, length, min,
}
use storage_engine.Policy.Types.{
  QueueSnapshot, ScheduleDecision, all_empty, chosen, queue_at, holds_work,
}
use storage_engine.Policy.Scan.{scan}

pub record RoundRobin : Type 0 where
  pub last_index : ℕ
  pub max_batch : ℕ

-- What `decide` returns, and the policy after it. With no queue the walk has no round.
pub decide : RoundRobin → List QueueSnapshot → ScheduleDecision × RoundRobin
decide p queues =
    let n = length queues in
    if n == 0 then (all_empty, p) else elim (scan (holds_work queues) n p.last_index n 1) [
      | none ↦ (all_empty, p)
      | some idx ↦ (
        chosen idx (min (queue_at queues idx).approx_count p.max_batch),
        record p { last_index = idx },
      )
    ]
