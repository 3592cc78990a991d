-- ===== src/Ring/Spsc/Refine.antt =====
-- A batched queue is a FIFO as long as the producer keeps within the free room, which it is not
-- made to do: a batch beyond that overwrites what the consumer has not read.
use mathlib.Core.Path.{ap₂}
use native.Mathlib.Nat.{add-mod_right}
use storage_engine.Prelude.{
  update_self, ℕ, zero, suc, ◌+◌, ◌-◌, ◌%◌, ◌≤◌, ◌<◌, ◌≡◌, refl, sym, ap, ◌∙◌, List, [], ◌∷◌, ◌++◌,
  arith, add_word, sub_word, word, length, take, drop, min, update, take-append_self,
  drop-append_self, take-min-length, drop-min-length,
}
use storage_engine.Prelude.Window.{window, length-window, window-slot, window-add, slot_add}
use storage_engine.Ring.Capacity.{IsCapacity, slot_of_word}
use storage_engine.Ring.Copy.{copy_in, window-copy_in}
use storage_engine.Ring.Spsc.{
  SpscQueue, write_all, push_batch, read_all, try_dequeue_batch, approx_count,
}

pub record IsValid {ℓ} {A : Type ℓ} (capacity : ℕ) (q : SpscQueue A) : Type 0 where
  pub is_capacity : IsCapacity capacity
  pub published : q.write_head ≡ q.local_write_tail
  pub head_word : q.write_head < word
  pub tail_word : q.local_tail < word
  pub fits : sub_word q.write_head q.local_tail ≤ capacity

module _ {ℓ} {A : Type ℓ} (capacity : ℕ) where
  abbrev pub contents : SpscQueue A → List A
  contents q = window capacity q.ring q.local_tail (approx_count capacity q)

module _ {ℓ} {A : Type ℓ} (capacity : ℕ) where
  write_all-copy_in :
      (c : IsCapacity capacity) (f : ℕ → A) (i p : ℕ) (xs : List A)
      → i % capacity ≡ p % capacity
      → i < word
      → (write_all capacity f i xs).0 ≡ copy_in capacity f p xs
  unfolding write_all
  write_all-copy_in c f i p [] e lt = refl
  write_all-copy_in c f i p (x ∷ xs) e lt =
      ap (λ t. (write_all capacity (update f t x) (add_word i 1) xs).0) e
      ∙ write_all-copy_in c (update f (p % capacity) x) (add_word i 1) (p + 1) xs
          (slot_of_word c (i + 1) ∙ slot_add capacity i p 1 e) (omega arith)

  write_all_idx :
      (f : ℕ → A) (i : ℕ) (xs : List A)
      → i < word
      → (write_all capacity f i xs).1 ≡ add_word i (length xs)
  unfolding write_all
  write_all_idx f i [] lt = omega arith
  write_all_idx f i (x ∷ xs) lt =
      write_all_idx (update f (i % capacity) x) (add_word i 1) xs (omega arith) ∙ omega arith

  read_all-window :
      (c : IsCapacity capacity) (f : ℕ → A) (i n : ℕ)
      → (read_all capacity f i n).0 ≡ window capacity f i n
  unfolding read_all
  read_all-window c f i zero = refl
  read_all-window c f i (suc n) =
      ap (λ w. f (i % capacity) ∷ w)
        (read_all-window c f (add_word i 1) n
          ∙ window-slot capacity f (add_word i 1) (i + 1) n (slot_of_word c (i + 1)))

  read_all_idx : (f : ℕ → A) (i n : ℕ) → i < word → (read_all capacity f i n).1 ≡ add_word i n
  unfolding read_all
  read_all_idx f i zero lt = omega arith
  read_all_idx f i (suc n) lt = read_all_idx f (add_word i 1) n (omega arith) ∙ omega arith

  pub length-contents : (q : SpscQueue A) → length (contents capacity q) ≡ approx_count capacity q
  length-contents q = length-window capacity q.ring q.local_tail (approx_count capacity q)

  -- A batch that fits in the free room is appended, in order, and the queue stays valid.
  pub push_batch_refines :
      (q : SpscQueue A) (items : List A)
      → IsValid capacity q
      → capacity < word
      → length items ≤ capacity - approx_count capacity q
      → (contents capacity (push_batch capacity q items) ≡ contents capacity q ++ items)
        × IsValid capacity (push_batch capacity q items)
  unfolding push_batch approx_count
  push_batch_refines q items v narrow room = (
    ap₂ (λ f n. window capacity f q.local_tail n) stored counted
        ∙ window-copy_in capacity q.ring q.local_tail held items (omega arith),
    record {
      is_capacity = v.is_capacity;
      published =
          ap (λ t. add_word t (length items)) v.published
          ∙ sym (write_all_idx q.ring q.local_write_tail items (omega (arith, v.published)));
      head_word = omega arith;
      tail_word = v.tail_word;
      fits = omega arith;
    },
  )
    where
      held : ℕ
      held = sub_word q.write_head q.local_tail

      counted : sub_word (add_word q.write_head (length items)) q.local_tail ≡ held + length items
      counted = omega arith

      start : q.local_write_tail % capacity ≡ (q.local_tail + held) % capacity
      start =
          ap (λ t. t % capacity) {y = (q.local_tail + held) % word} (omega (arith, v.published))
          ∙ slot_of_word v.is_capacity (q.local_tail + held)

      stored :
          (write_all capacity q.ring q.local_write_tail items).0
          ≡ copy_in capacity q.ring (q.local_tail + held) items
      stored =
          write_all-copy_in v.is_capacity q.ring q.local_write_tail (q.local_tail + held) items
            start (omega (arith, v.published))

  -- The queue after the consumer has read `n` elements.
  abbrev popped : SpscQueue A → ℕ → SpscQueue A
  popped q n = record q { local_tail = (read_all capacity q.ring q.local_tail n).1 }

  count-popped :
      (q : SpscQueue A) (n : ℕ)
      → IsValid capacity q
      → n ≤ approx_count capacity q
      → approx_count capacity (popped q n) ≡ approx_count capacity q - n
  unfolding approx_count
  count-popped q n v le = rw (read_all_idx q.ring q.local_tail n v.tail_word) (omega arith)

  contents-popped :
      (q : SpscQueue A) (n : ℕ)
      → IsValid capacity q
      → n ≤ approx_count capacity q
      → contents capacity q
        ≡ (read_all capacity q.ring q.local_tail n).0 ++ contents capacity (popped q n)
  contents-popped q n v le =
      ap (window capacity q.ring q.local_tail) {y = n + (approx_count capacity q - n)} (omega arith)
      ∙ window-add capacity q.ring q.local_tail n (approx_count capacity q - n)
      ∙ ap₂ ◌++◌ (sym (read_all-window v.is_capacity q.ring q.local_tail n)) (
          window-slot capacity q.ring (q.local_tail + n) (read_all capacity q.ring q.local_tail n).1
            (approx_count capacity q - n)
            (sym (
              ap (λ t. t % capacity) (read_all_idx q.ring q.local_tail n v.tail_word)
              ∙ slot_of_word v.is_capacity (q.local_tail + n)))
          ∙ ap (window capacity q.ring (read_all capacity q.ring q.local_tail n).1)
              (sym (count-popped q n v le)))

  popped-IsValid :
      (q : SpscQueue A) (n : ℕ)
      → IsValid capacity q
      → n ≤ approx_count capacity q
      → IsValid capacity (popped q n)
  unfolding approx_count
  popped-IsValid q n v le =
      let e : (read_all capacity q.ring q.local_tail n).1 ≡ add_word q.local_tail n =
        read_all_idx q.ring q.local_tail n v.tail_word in
      record {
        is_capacity = v.is_capacity;
        published = v.published;
        head_word = v.head_word;
        tail_word = omega (arith, e);
        fits = omega (arith, count-popped q n v le, v.fits);
      }

  -- The consumer gets the `max_count` oldest elements, or all, in order, and the rest stays.
  pub spsc_batch_refines :
      (q : SpscQueue A) (max_count : ℕ)
      → IsValid capacity q
      → let (items, q') = try_dequeue_batch capacity q max_count in
        (items ≡ take max_count (contents capacity q))
        × (contents capacity q' ≡ drop max_count (contents capacity q))
        × IsValid capacity q'
  unfolding try_dequeue_batch approx_count
  spsc_batch_refines q max_count v = (
    sym (take-append_self n out rest full)
        ∙ ap (take n) (sym splits)
        ∙ ap (λ k. take k (contents capacity q)) bounded
        ∙ take-min-length max_count (contents capacity q),
    sym (drop-append_self n out rest full)
        ∙ ap (drop n) (sym splits)
        ∙ ap (λ k. drop k (contents capacity q)) bounded
        ∙ drop-min-length max_count (contents capacity q),
    popped-IsValid q n v (omega arith),
  )
    where
      n : ℕ
      n = min (sub_word q.write_head q.local_tail) max_count

      out : List A
      out = (read_all capacity q.ring q.local_tail n).0

      rest : List A
      rest = contents capacity (popped q n)

      splits : contents capacity q ≡ out ++ rest
      splits = contents-popped q n v (omega arith)

      full : length out ≡ n
      full =
          ap length (read_all-window v.is_capacity q.ring q.local_tail n)
          ∙ length-window capacity q.ring q.local_tail n

      bounded : n ≡ min max_count (length (contents capacity q))
      bounded = omega (arith, length-contents q)

  -- The producer is not held back: one element more than fits replaces the oldest unread one, so
  -- that the next element read is the new one, and the oldest is lost.
  pub push_batch_overruns :
      (q : SpscQueue A) (x : A)
      → IsValid capacity q
      → capacity < word - 1
      → approx_count capacity q ≡ capacity
      → (try_dequeue_batch capacity (push_batch capacity q (x ∷ [])) 1).0 ≡ x ∷ []
  unfolding push_batch try_dequeue_batch approx_count write_all read_all
  push_batch_overruns q x v narrow full =
      ap (λ n. (read_all capacity written q.local_tail n).0) {y = 1} (omega (arith, full))
      ∙ ap (λ t. t ∷ [])
          (ap (update q.ring (q.local_write_tail % capacity) x) (sym same)
            ∙ update_self q.ring (q.local_write_tail % capacity) x)
    where
      written : ℕ → A
      written = update q.ring (q.local_write_tail % capacity) x

      same : q.local_write_tail % capacity ≡ q.local_tail % capacity
      same =
          ap (λ t. t % capacity) {y = (q.local_tail + capacity) % word}
            (omega (arith, v.published, full))
          ∙ slot_of_word v.is_capacity (q.local_tail + capacity)
          ∙ add-mod_right q.local_tail capacity
