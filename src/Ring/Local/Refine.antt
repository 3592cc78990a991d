-- ===== src/Ring/Local/Refine.antt =====
-- A local queue behaves as a FIFO of at most `capacity - 1` elements.
use mathlib.Core.Path.{subst, ap₂}
use native.Mathlib.Nat.{mod-lt, mod-eq_of_lt, mod-mod, mod-add-mod, add-mod_right}
use native.Mathlib.Numerals.{add-one}
use native.Mathlib.Decide.{dec_lt, ℕ_discrete}
use storage_engine.Prelude.{
  ℕ, zero, suc, ◌+◌, ◌-◌, ◌%◌, ◌<◌, ◌≡◌, ◌≢◌, refl, sym, ap, ◌∙◌, List, [], ◌∷◌, ◌++◌, arith,
  add_word, length, take, drop, update,
}
use storage_engine.Prelude.Window.{
  window, length-window, window-push, window-pop, window-slot, slot_ne, slot_add,
}
use storage_engine.Ring.Fifo.{push, pop}
use storage_engine.Ring.Local.{LocalQueue, try_enqueue, try_dequeue, try_dequeue_batch, size}
use storage_engine.Ring.Capacity.{IsCapacity}
use storage_engine.Ring.Local.Inv.{IsValid, next_slot, distance-lt, distance_back, distance_of}

module _ {ℓ} {A : Type ℓ} (capacity : ℕ) where
  abbrev pub contents : LocalQueue A → List A
  contents q = window capacity q.items q.head (size capacity q)

module _ {ℓ} {A : Type ℓ} {capacity : ℕ} (c : IsCapacity capacity) where
  pub length-contents : (q : LocalQueue A) → length (contents capacity q) ≡ size capacity q
  length-contents q = length-window capacity q.items q.head (size capacity q)

  next_after :
      (q : LocalQueue A)
      → IsValid capacity q
      → add_word q.tail 1 % capacity ≡ (q.head + (size capacity q + 1)) % capacity
  unfolding size
  next_after q v =
      next_slot c q.tail
      ∙ slot_add capacity q.tail (q.head + size capacity q) 1 mod_tail
      ∙ ap (λ t. t % capacity) (omega arith)
    where
      mod_tail : q.tail % capacity ≡ (q.head + size capacity q) % capacity
      mod_tail = mod-eq_of_lt v.tail_in ∙ distance_back c q.tail q.head v.tail_in v.head_in

  -- One more step past the tail is the head exactly when `capacity - 1` elements are held.
  next_full :
      (q : LocalQueue A)
      → IsValid capacity q
      → size capacity q + 1 ≡ capacity
      → add_word q.tail 1 % capacity ≡ q.head
  next_full q v e =
      next_after q v
      ∙ ap (λ t. (q.head + t) % capacity) e
      ∙ add-mod_right q.head capacity
      ∙ mod-eq_of_lt v.head_in

  next_room :
      (q : LocalQueue A)
      → IsValid capacity q
      → size capacity q + 1 < capacity
      → add_word q.tail 1 % capacity ≢ q.head
  next_room q v lt e =
      slot_ne capacity q.head (size capacity q + 1) (omega arith) lt
        (sym (next_after q v) ∙ e ∙ sym (mod-eq_of_lt v.head_in))

  pub size-lt : (q : LocalQueue A) → size capacity q < capacity
  unfolding size
  size-lt q = distance-lt c q.tail q.head

  contents_pushed :
      (q : LocalQueue A) (x : A)
      → IsValid capacity q
      → size capacity q + 1 < capacity
      → contents capacity
          (record q { items = update q.items q.tail x; tail = add_word q.tail 1 % capacity })
        ≡ contents capacity q ++ (x ∷ [])
  unfolding size
  contents_pushed q x v lt =
      ap (window capacity (update q.items q.tail x) q.head) (
        distance_of c (add_word q.tail 1 % capacity) q.head (size capacity q + 1) v.head_in lt
          (next_after q v)
        ∙ add-one (size capacity q))
      ∙ subst
          (λ t.
            window capacity (update q.items t x) q.head (suc (size capacity q))
            ≡ contents capacity q ++ (x ∷ []))
          (sym (distance_back c q.tail q.head v.tail_in v.head_in))
          (window-push capacity q.items q.head (size capacity q) x (size-lt q))

  -- `try_enqueue` adds at the end, or refuses and changes nothing, as the bounded FIFO does.
  pub try_enqueue_refines :
      (q : LocalQueue A) (x : A)
      → IsValid capacity q
      → let (b, q') = try_enqueue capacity q x in
        (b, contents capacity q') ≡ push (capacity - 1) (contents capacity q) x
  unfolding try_enqueue push
  try_enqueue_refines q x v = elim (dec_lt (size capacity q + 1) capacity) [
    | yes p ↦ ground (arith, next_room q v p, contents_pushed q x v p, length-contents q)
    | no p ↦
        let full : size capacity q + 1 ≡ capacity = omega (arith, size-lt q) in
        ground (arith, next_full q v full, length-contents q)
  ]

  pub size-eq-zero : (q : LocalQueue A) → IsValid capacity q → q.head ≡ q.tail → size capacity q ≡ 0
  unfolding size
  size-eq-zero q v e =
      distance_of c q.tail q.head 0 v.head_in c.positive
        (sym e ∙ sym (mod-eq_of_lt v.head_in) ∙ ap (λ t. t % capacity) (omega arith))

  size-ne-zero : (q : LocalQueue A) → IsValid capacity q → q.head ≢ q.tail → size capacity q ≢ 0
  unfolding size
  size-ne-zero q v ne z = ne (
      sym (mod-eq_of_lt v.head_in)
      ∙ ap (λ t. t % capacity) {x = q.head} (omega (arith, z))
      ∙ sym (distance_back c q.tail q.head v.tail_in v.head_in))

  abbrev advanced : LocalQueue A → LocalQueue A
  advanced q = record q { head = add_word q.head 1 % capacity }

  size-advanced :
      (q : LocalQueue A)
      → IsValid capacity q
      → q.head ≢ q.tail
      → size capacity (advanced q) ≡ size capacity q - 1
  unfolding size
  size-advanced q v ne =
      distance_of c q.tail (add_word q.head 1 % capacity) (size capacity q - 1)
        (mod-lt (add_word q.head 1) c.positive) (omega (arith, size-lt q))
        (distance_back c q.tail q.head v.tail_in v.head_in
          ∙ ap (λ t. t % capacity) {y = q.head + 1 + (size capacity q - 1)}
              (omega (arith, size-ne-zero q v ne))
          ∙ sym (mod-add-mod (q.head + 1) capacity (size capacity q - 1))
          ∙ ap (λ t. (t + (size capacity q - 1)) % capacity) (sym (next_slot c q.head)))

  contents-advanced :
      (q : LocalQueue A)
      → IsValid capacity q
      → q.head ≢ q.tail
      → contents capacity q ≡ q.items q.head ∷ contents capacity (advanced q)
  contents-advanced q v ne =
      window-pop capacity q.items q.head (size capacity q) (size-ne-zero q v ne)
      ∙ ap₂ (λ i n. q.items i ∷ window capacity q.items (q.head + 1) n) (mod-eq_of_lt v.head_in)
          (sym (size-advanced q v ne))
      ∙ ap (λ w. q.items q.head ∷ w)
          (window-slot capacity q.items (q.head + 1) (add_word q.head 1 % capacity)
            (size capacity (advanced q))
            (sym (mod-mod (q.head + 1) capacity)
              ∙ ap (λ t. t % capacity) (sym (next_slot c q.head))))

  -- `try_dequeue` takes the oldest element, and fails exactly on the empty queue.
  pub try_dequeue_refines :
      (q : LocalQueue A)
      → IsValid capacity q
      → let (o, q') = try_dequeue capacity q in
        (o, contents capacity q') ≡ pop (contents capacity q)
  unfolding try_dequeue pop
  try_dequeue_refines q v = elim (ℕ_discrete q.head q.tail) [
    | yes e ↦ ground (arith, size-eq-zero q v e)
    | no ne ↦ ground (arith, contents-advanced q v ne)
  ]

  -- `try_dequeue_batch` hands out the `max` oldest elements, or all, in order, and keeps the rest.
  pub local_batch_refines :
      (q : LocalQueue A) (max : ℕ)
      → IsValid capacity q
      → let (out, q') = try_dequeue_batch capacity q max in
        (out ≡ take max (contents capacity q))
        × (contents capacity q' ≡ drop max (contents capacity q))
        × IsValid capacity q'
  unfolding try_dequeue_batch
  local_batch_refines q zero v = (refl, refl, v)
  local_batch_refines q (suc max) v = elim (ℕ_discrete q.head q.tail) [
    | yes e ↦ ground (arith, size-eq-zero q v e)
    | no ne ↦ ground (
      arith,
      contents-advanced q v ne,
      local_batch_refines (advanced q) max
          (record { head_in = mod-lt (add_word q.head 1) c.positive; tail_in = v.tail_in }),
    )
  ]
