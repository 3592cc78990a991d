-- ===== src/Work.antt =====
-- src/runtime/work_item.h. A function or a coroutine handle is a number that stands for it.
use storage_engine.Prelude.{ℕ, Bool, true, false, size_max}

-- The union and its tag.
pub data Work : Type 0 where
  func coro : ℕ → Work

pub record WorkItem : Type 0 where
  pub work : Work
  pub trace_id : ℕ
  pub enqueue_ns : ℕ
  pub source_queue_idx : ℕ

abbrev pub make_func : ℕ → WorkItem
make_func f = record { work = func f; trace_id = 0; enqueue_ns = 0; source_queue_idx = size_max }

abbrev pub make_coro : ℕ → WorkItem
make_coro h = record { work = coro h; trace_id = 0; enqueue_ns = 0; source_queue_idx = size_max }

-- `tag == 0`.
abbrev pub is_func : WorkItem → Bool
is_func item = tag_is_zero item.work
  where
    tag_is_zero : Work → Bool
    tag_is_zero (func f) = true
    tag_is_zero (coro h) = false
