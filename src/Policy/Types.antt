-- ===== src/Policy/Types.antt =====
-- src/runtime/types.h and schedule_types.h.
use storage_engine.Prelude.{ℕ, Bool, true, false, List, get_or, ltb}

pub data QueueType : Type 0 where
  local affine net_io disk_io engine timer background : QueueType

pub data Priority : Type 0 where
  critical high medium low : Priority

-- The enumerators' values.
unfoldable pub rank : Priority → ℕ
rank critical = 0
rank high = 1
rank medium = 2
rank low = 3

pub record QueueSnapshot : Type 0 where
  pub type : QueueType
  pub priority : Priority
  pub approx_count : ℕ
  pub last_poll_ns : ℕ
  pub total_dequeued : ℕ

pub record ScheduleDecision : Type 0 where
  pub queue_index : ℕ
  pub batch_size : ℕ
  pub idle : Bool
  pub idle_fast_recovery : Bool

-- What a policy returns when no queue holds anything.
abbrev pub all_empty : ScheduleDecision
all_empty = record { queue_index = 0; batch_size = 0; idle = true; idle_fast_recovery = true }

abbrev pub chosen : ℕ → ℕ → ScheduleDecision
chosen i n = record { queue_index = i; batch_size = n; idle = false; idle_fast_recovery = true }

-- The snapshot of a vector read at an index; the policies read inside the vector only.
abbrev pub blank : QueueSnapshot
blank = record {
  type = local;
  priority = low;
  approx_count = 0;
  last_poll_ns = 0;
  total_dequeued = 0;
}

abbrev pub queue_at : List QueueSnapshot → ℕ → QueueSnapshot
queue_at queues i = get_or queues i blank

abbrev pub holds_work : List QueueSnapshot → ℕ → Bool
holds_work queues i = ltb 0 (queue_at queues i).approx_count
