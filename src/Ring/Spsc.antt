-- ===== src/Ring/Spsc.antt =====
-- src/runtime/batched_spsc_queue.h, and the work queue that wraps it (batched_spsc_work_queue.h
-- and .cc). The producer's and the consumer's counters are one record; each operation is one step,
-- since it publishes by the single store of `write_head_`. The capacity is a template parameter, a
-- power of two by the `static_assert`, so `x & (Capacity - 1)` is `x % capacity`.
pub mod Refine
pub mod Single
use storage_engine.Prelude.{
  ℕ, zero, suc, ◌%◌, ◌≡◌, Bool, Option, none, some, List, [], ◌∷◌, ◌==◌, if◌then◌else◌, min,
  add_word, sub_word, update, length,
}

pub record SpscQueue {ℓ} (A : Type ℓ) : Type ℓ where
  pub ring : ℕ → A
  pub write_head : ℕ
  pub local_write_tail : ℕ
  pub local_tail : ℕ

module _ {ℓ} {A : Type ℓ} (capacity : ℕ) where
  -- The producer's loop: what it leaves in the ring, and in `write_idx`.
  pub write_all : (ℕ → A) → ℕ → List A → (ℕ → A) × ℕ
  write_all ring write_idx [] = (ring, write_idx)
  write_all ring write_idx (x ∷ items) =
      write_all (update ring (write_idx % capacity) x) (add_word write_idx 1) items

  pub push_batch : SpscQueue A → List A → SpscQueue A
  unfolding write_all
  push_batch q items =
      let (ring, write_idx) = write_all q.ring q.local_write_tail items in
      record q {
        ring = ring;
        local_write_tail = write_idx;
        write_head = add_word q.write_head (length items);
      }

  -- The consumer's loop, for the `n` rounds it runs: the elements, and `local_tail_` after it.
  pub read_all : (ℕ → A) → ℕ → ℕ → List A × ℕ
  read_all ring local_tail zero = ([], local_tail)
  read_all ring local_tail (suc n) =
      let (items, last) = read_all ring (add_word local_tail 1) n in
      (ring (local_tail % capacity) ∷ items, last)

  pub try_dequeue_batch : SpscQueue A → ℕ → List A × SpscQueue A
  unfolding read_all
  try_dequeue_batch q max_count =
      let available = sub_word q.write_head q.local_tail in
      let n = min available max_count in
      let (items, last) = read_all q.ring q.local_tail n in (items, record q { local_tail = last })

  unfoldable pub approx_count : SpscQueue A → ℕ
  approx_count q = sub_word q.write_head q.local_tail

  unfoldable pub enqueue : SpscQueue A → A → SpscQueue A
  unfolding push_batch
  enqueue q item = push_batch q (item ∷ [])

  abbrev first : List A → Option A
  first [] = none
  first (x ∷ xs) = some x

  unfoldable pub try_dequeue : SpscQueue A → Option A × SpscQueue A
  unfolding try_dequeue_batch
  try_dequeue q = let (items, q') = try_dequeue_batch q 1 in (first items, q')
