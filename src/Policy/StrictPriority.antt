-- ===== src/Policy/StrictPriority.antt =====
-- src/runtime/strict_priority_policy.h and .cc.
pub mod Choice
use storage_engine.Prelude.{
  ℕ, zero, suc, ◌+◌, Bool, true, false, ◌&&◌, Option, none, some, List, [], ◌∷◌, ◌==◌, ltb, not,
  if◌then◌else◌, length, min, size_max,
}
use storage_engine.Policy.Types.{rank, QueueSnapshot, ScheduleDecision, all_empty, chosen, queue_at}
use storage_engine.Policy.Scan.{scan}

pub record StrictPriority : Type 0 where
  pub max_batch : ℕ
  pub last_prio : ℕ
  pub last_idx : ℕ

unfoldable pub make : ℕ → StrictPriority
make max_batch = record { max_batch = max_batch; last_prio = size_max; last_idx = 0 }

-- queues[i].priority == prio && queues[i].approx_count > 0
abbrev pub at_level : ℕ → QueueSnapshot → Bool
at_level prio q = rank q.priority == prio && ltb 0 q.approx_count

-- The first loop of a level: how many of its queues have work.
unfoldable pub count_level : ℕ → List QueueSnapshot → ℕ
count_level prio [] = 0
count_level prio (q ∷ qs) =
    let rest = count_level prio qs in if at_level prio q then rest + 1 else rest

abbrev enter_level : ℕ → StrictPriority → StrictPriority
enter_level prio p =
    if not (p.last_prio == prio) then record p { last_prio = prio; last_idx = 0 } else p

-- The levels from `prio` on, `levels` of them.
unfoldable pub from_level :
    ℕ → ℕ → StrictPriority → List QueueSnapshot → ScheduleDecision × StrictPriority
from_level zero prio p queues = (all_empty, record p { last_prio = size_max; last_idx = 0 })
from_level (suc levels) prio p queues =
    let lower = from_level levels (prio + 1) p queues in
    let entered = enter_level prio p in
    let none_found = from_level levels (prio + 1) entered queues in
    if count_level prio queues == 0
    then lower
    else elim (scan (λ i. at_level prio (queue_at queues i)) (length queues) entered.last_idx
        (length queues) 1) [
          | none ↦ none_found
          | some idx ↦ (
            chosen idx (min (queue_at queues idx).approx_count p.max_batch),
            record entered { last_idx = idx },
          )
        ]

unfoldable pub decide : StrictPriority → List QueueSnapshot → ScheduleDecision × StrictPriority
decide p queues = if length queues == 0 then (all_empty, p) else from_level 4 0 p queues
