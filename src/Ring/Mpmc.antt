-- ===== src/Ring/Mpmc.antt =====
-- src/runtime/mpmc_ring.h, and the work queues that wrap it (ring_work_queue.h,
-- affine_work_queue.h and .cc): a call that no other call overlaps. Its compare-exchange then
-- succeeds at once, and the loop that waits for the tail ends at once, since the tails have caught
-- up with the heads (`IsValid`, in Mpmc/Contents.antt). Counters are `size_t` and wrap.
pub mod Sizes
pub mod Contents
pub mod Refine
pub mod Single
use storage_engine.Prelude.{
  ℕ, zero, suc, ◌+◌, ◌*◌, ◌%◌, ◌≡◌, Bool, true, false, Option, none, some, List, [], ◌∷◌, ◌==◌,
  if◌then◌else◌, ltb, min, add_word, sub_word, word, update, length, take,
}

pub record MpmcRing {ℓ} (A : Type ℓ) : Type ℓ where
  pub prod_head : ℕ
  pub prod_tail : ℕ
  pub cons_head : ℕ
  pub cons_tail : ℕ
  pub capacity : ℕ
  pub ring : ℕ → A

-- `while (cap < capacity) cap <<= 1`, with fuel; `none` is fuel run out.
pub round_up : ℕ → ℕ → ℕ → Option ℕ
round_up zero capacity size = none
round_up (suc fuel) capacity size =
    let rest = round_up fuel capacity (size * 2 % word) in
    if ltb size capacity then rest else some size

module _ {ℓ} {A : Type ℓ} where
  -- The constructor; the slots hold `T{}` at first.
  pub make : ℕ → A → Option (MpmcRing A)
  make capacity blank = elim (round_up 65 capacity 1) [
    | none ↦ none
    | some size ↦ some (record {
      prod_head = 0;
      prod_tail = 0;
      cons_head = 0;
      cons_tail = 0;
      capacity = size;
      ring = λ _. blank;
    })
  ]

  -- for (i = 0; i < n; ++i) ring_[(prod_head + i) & mask_] = objs[i]
  pub write_slots : ℕ → (ℕ → A) → ℕ → ℕ → List A → ℕ → A
  write_slots capacity ring prod_head i [] = ring
  write_slots capacity ring prod_head i (x ∷ objs) =
      write_slots capacity (update ring (add_word prod_head i % capacity) x) prod_head (i + 1) objs

  -- for (i = 0; i < n; ++i) objs[i] = ring_[(cons_head + i) & mask_]
  unfoldable pub read_slots : ℕ → (ℕ → A) → ℕ → ℕ → ℕ → List A
  read_slots capacity ring cons_head i zero = []
  read_slots capacity ring cons_head i (suc n) =
      ring (add_word cons_head i % capacity) ∷ read_slots capacity ring cons_head (i + 1) n

  pub enqueue_bulk : MpmcRing A → List A → ℕ × MpmcRing A
  unfolding write_slots
  enqueue_bulk r objs =
      let free_entries = sub_word (add_word r.capacity r.cons_tail) r.prod_head in
      let n = if ltb free_entries (length objs) then free_entries else length objs in
      if n == 0 then (0, r) else (
        n,
        record r {
          prod_head = add_word r.prod_head n;
          prod_tail = add_word r.prod_head n;
          ring = write_slots r.capacity r.ring r.prod_head 0 (take n objs);
        },
      )

  pub enqueue : MpmcRing A → A → Bool × MpmcRing A
  unfolding enqueue_bulk
  enqueue r obj = let (n, r') = enqueue_bulk r (obj ∷ []) in (n == 1, r')

  -- The single-consumer dequeue stores both counters, one after the other.
  unfoldable pub dequeue_bulk : MpmcRing A → ℕ → List A × MpmcRing A
  unfolding read_slots
  dequeue_bulk r max_count =
      let entries = sub_word r.prod_tail r.cons_head in
      let n = min max_count entries in
      if n == 0 then ([], r) else (
        read_slots r.capacity r.ring r.cons_head 0 n,
        record r { cons_head = add_word r.cons_head n; cons_tail = add_word r.cons_head n },
      )

  -- The multi-consumer one reserves by the head, reads, and then moves the tail on.
  unfoldable pub dequeue_bulk_mc : MpmcRing A → ℕ → List A × MpmcRing A
  unfolding read_slots
  dequeue_bulk_mc r max_count =
      let entries = sub_word r.prod_tail r.cons_head in
      let n = min max_count entries in
      if n == 0
      then ([], r)
      else let cons_next = add_word r.cons_head n in
        let reserved = record r { cons_head = cons_next } in
        let objs = read_slots reserved.capacity reserved.ring r.cons_head 0 n in
        (objs, record reserved { cons_tail = cons_next })

  abbrev first : List A → Option A
  first [] = none
  first (x ∷ xs) = some x

  pub dequeue : MpmcRing A → Option A × MpmcRing A
  unfolding dequeue_bulk
  dequeue r = let (objs, r') = dequeue_bulk r 1 in (first objs, r')

  unfoldable pub dequeue_mc : MpmcRing A → Option A × MpmcRing A
  unfolding dequeue_bulk_mc
  dequeue_mc r = let (objs, r') = dequeue_bulk_mc r 1 in (first objs, r')

  unfoldable pub count : MpmcRing A → ℕ
  count r = sub_word r.prod_tail r.cons_head
