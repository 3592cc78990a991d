-- ===== src/Ring/Mpmc/Contents.antt =====
-- What the ring of mpmc_ring.h holds, after a batch has been written or taken.
use mathlib.Core.Path.{ap₂}
use storage_engine.Prelude.{
  ℕ, zero, suc, ◌+◌, ◌-◌, ◌%◌, ◌^◌, ◌≤◌, ◌<◌, ◌≡◌, refl, sym, ap, ◌∙◌, List, [], ◌∷◌, ◌++◌, arith,
  add_word, sub_word, word, length, update,
}
use storage_engine.Prelude.Window.{window, length-window, window-slot, window-add, slot_add}
use storage_engine.Ring.Capacity.{IsCapacity, slot_of_word}
use storage_engine.Ring.Copy.{copy_in, window-copy_in}
use storage_engine.Ring.Mpmc.{MpmcRing, write_slots, read_slots, count}

-- No call is under way: every reservation is published, and the counters are words.
pub record IsValid {ℓ} {A : Type ℓ} (r : MpmcRing A) : Type 0 where
  pub is_capacity : IsCapacity r.capacity
  pub small : r.capacity ≤ 2 ^ 63
  pub produced : r.prod_tail ≡ r.prod_head
  pub consumed : r.cons_tail ≡ r.cons_head
  pub prod_word : r.prod_head < word
  pub cons_word : r.cons_head < word
  pub fits : sub_word r.prod_head r.cons_head ≤ r.capacity

module _ {ℓ} {A : Type ℓ} where
  abbrev pub contents : MpmcRing A → List A
  contents r = window r.capacity r.ring r.cons_head (sub_word r.prod_tail r.cons_head)

  pub length-contents : (r : MpmcRing A) → length (contents r) ≡ count r
  unfolding count
  length-contents r = length-window r.capacity r.ring r.cons_head (sub_word r.prod_tail r.cons_head)

  -- The loops of the code are the plain copies.
  write_slots-copy_in :
      {capacity : ℕ} (c : IsCapacity capacity) (f : ℕ → A) (base p i : ℕ) (xs : List A)
      → (base + i) % capacity ≡ p % capacity
      → write_slots capacity f base i xs ≡ copy_in capacity f p xs
  unfolding write_slots
  write_slots-copy_in c f base p i [] e = refl
  write_slots-copy_in {capacity} c f base p i (x ∷ xs) e =
      ap (λ t. write_slots capacity (update f t x) base (i + 1) xs) (slot_of_word c (base + i) ∙ e)
      ∙ write_slots-copy_in c (update f (p % capacity) x) base (p + 1) (i + 1) xs
          (ap (λ t. t % capacity) (omega arith) ∙ slot_add capacity (base + i) p 1 e)

  pub read_slots-window :
      {capacity : ℕ} (c : IsCapacity capacity) (f : ℕ → A) (base i n : ℕ)
      → read_slots capacity f base i n ≡ window capacity f (base + i) n
  unfolding read_slots
  read_slots-window c f base i zero = refl
  read_slots-window {capacity} c f base i (suc n) =
      ap₂ (λ t w. f t ∷ w) (slot_of_word c (base + i))
        (read_slots-window c f base (i + 1) n
          ∙ ap (λ p. window capacity f p n) {x = base + (i + 1)} (omega arith))

  -- What is free, however the counters have wrapped.
  pub free_entries-eq :
      (r : MpmcRing A)
      → IsValid r
      → sub_word (add_word r.capacity r.cons_tail) r.prod_head ≡ r.capacity - count r
  unfolding count
  free_entries-eq r v =
      omega (arith, v.produced, v.consumed, v.fits, v.cons_word, v.prod_word, v.small)

  -- The ring after `xs` have been reserved for, written and published.
  abbrev pub pushed : MpmcRing A → List A → MpmcRing A
  pushed r xs = record r {
    prod_head = add_word r.prod_head (length xs);
    prod_tail = add_word r.prod_head (length xs);
    ring = write_slots r.capacity r.ring r.prod_head 0 xs;
  }

  -- The ring after the `n` oldest elements have been taken.
  abbrev pub popped : MpmcRing A → ℕ → MpmcRing A
  popped r n = record r { cons_head = add_word r.cons_head n; cons_tail = add_word r.cons_head n }

  count-pushed :
      (r : MpmcRing A) (xs : List A)
      → IsValid r
      → length xs ≤ r.capacity - count r
      → count (pushed r xs) ≡ count r + length xs
  unfolding count
  count-pushed r xs v le = omega (arith, v.produced)

  count-popped :
      (r : MpmcRing A) (n : ℕ) → IsValid r → n ≤ count r → count (popped r n) ≡ count r - n
  unfolding count
  count-popped r n v le = omega (arith, v.produced)

  pub contents-pushed :
      (r : MpmcRing A) (xs : List A)
      → IsValid r
      → length xs ≤ r.capacity - count r
      → contents (pushed r xs) ≡ contents r ++ xs
  unfolding count
  contents-pushed r xs v le =
      ap₂ (λ f n. window r.capacity f r.cons_head n)
        (write_slots-copy_in v.is_capacity r.ring r.prod_head (r.cons_head + count r) 0 xs start)
        (count-pushed r xs v le)
      ∙ window-copy_in r.capacity r.ring r.cons_head (count r) xs (omega (arith, v.produced))
    where
      start : (r.prod_head + 0) % r.capacity ≡ (r.cons_head + count r) % r.capacity
      start =
          ap (λ t. t % r.capacity) {y = (r.cons_head + count r) % word} (omega (arith, v.produced))
          ∙ slot_of_word v.is_capacity (r.cons_head + count r)

  -- A ring splits into what is taken and what stays.
  pub contents-popped :
      (r : MpmcRing A) (n : ℕ)
      → IsValid r
      → n ≤ count r
      → contents r ≡ read_slots r.capacity r.ring r.cons_head 0 n ++ contents (popped r n)
  unfolding count
  contents-popped r n v le =
      ap (window r.capacity r.ring r.cons_head) {y = n + (count r - n)} (omega arith)
      ∙ window-add r.capacity r.ring r.cons_head n (count r - n)
      ∙ ap₂ ◌++◌
          (ap (λ p. window r.capacity r.ring p n) {y = r.cons_head + 0} (omega arith)
            ∙ sym (read_slots-window v.is_capacity r.ring r.cons_head 0 n))
          (window-slot r.capacity r.ring (r.cons_head + n) (add_word r.cons_head n) (count r - n)
              (sym (slot_of_word v.is_capacity (r.cons_head + n)))
            ∙ ap (window r.capacity r.ring (add_word r.cons_head n)) (sym (count-popped r n v le)))

  pub pushed-IsValid :
      (r : MpmcRing A) (xs : List A)
      → IsValid r
      → length xs ≤ r.capacity - count r
      → IsValid (pushed r xs)
  unfolding count
  pushed-IsValid r xs v le = record {
    is_capacity = v.is_capacity;
    small = v.small;
    produced = refl;
    consumed = v.consumed;
    prod_word = omega arith;
    cons_word = v.cons_word;
    fits = omega (arith, v.produced);
  }

  pub popped-IsValid : (r : MpmcRing A) (n : ℕ) → IsValid r → n ≤ count r → IsValid (popped r n)
  unfolding count
  popped-IsValid r n v le = record {
    is_capacity = v.is_capacity;
    small = v.small;
    produced = v.produced;
    consumed = refl;
    prod_word = v.prod_word;
    cons_word = omega arith;
    fits = omega (arith, v.produced);
  }
