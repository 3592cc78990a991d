-- ===== src/Ring/Local.antt =====
-- src/runtime/local_queue.h, and the work queue that wraps it (local_work_queue.h, .cc).
-- The capacity is a template parameter, by the `static_assert` a power of two, so that
-- `x & (Capacity - 1)` is `x % capacity`. The slots are a store indexed by `items_`'s index.
pub mod Inv
pub mod Refine
use storage_engine.Prelude.{
  ℕ, zero, suc, ◌+◌, ◌-◌, ◌%◌, Bool, true, false, Option, none, some, List, [], ◌∷◌, ◌==◌,
  if◌then◌else◌, add_word, sub_word, update,
}

pub record LocalQueue {ℓ} (A : Type ℓ) : Type ℓ where
  pub items : ℕ → A
  pub head : ℕ
  pub tail : ℕ

module _ {ℓ} {A : Type ℓ} (capacity : ℕ) where
  pub try_enqueue : LocalQueue A → A → Bool × LocalQueue A
  try_enqueue q item =
      let current_tail = q.tail in
      let next_tail = add_word current_tail 1 % capacity in
      if next_tail == q.head
      then (false, q)
      else (true, record q { items = update q.items current_tail item; tail = next_tail })

  abbrev advance : LocalQueue A → LocalQueue A
  advance q = record q { head = add_word q.head 1 % capacity }

  -- What is written through `item`, or `none` where `false` is returned.
  unfoldable pub try_dequeue : LocalQueue A → Option A × LocalQueue A
  try_dequeue q = if q.head == q.tail then (none, q) else (some (q.items q.head), advance q)

  -- The loop runs at most `max` rounds; the list is what it wrote, and its length is `count`.
  pub try_dequeue_batch : LocalQueue A → ℕ → List A × LocalQueue A
  try_dequeue_batch q zero = ([], q)
  try_dequeue_batch q (suc max) =
      let rest = try_dequeue_batch (advance q) max in
      if q.head == q.tail then ([], q) else (q.items q.head ∷ rest.0, rest.1)

  pub size : LocalQueue A → ℕ
  size q = sub_word q.tail q.head % capacity

  pub empty : LocalQueue A → Bool
  empty q = q.head == q.tail

  -- `LocalWorkQueue::enqueue` drops the verdict of `try_enqueue`.
  pub enqueue : LocalQueue A → A → LocalQueue A
  unfolding try_enqueue
  enqueue q item = (try_enqueue q item).1
