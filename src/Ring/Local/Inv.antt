-- ===== src/Ring/Local/Inv.antt =====
-- The indices of a local queue stay inside its array, and `size` is the distance between them.
use native.Mathlib.Nat.{mod-lt, mod-eq_of_lt, mod-eq-sub-mod, add-mod_right}
use native.Mathlib.Decide.{dec_lt}
use storage_engine.Prelude.{ℕ, ◌+◌, ◌-◌, ◌%◌, ◌<◌, ◌≡◌, sym, ◌∙◌, arith, add_word, sub_word}
use storage_engine.Ring.Capacity.{IsCapacity, slot_of_word, distance}
use storage_engine.Ring.Local.{LocalQueue, try_enqueue, try_dequeue}

pub record IsValid {ℓ} {A : Type ℓ} (capacity : ℕ) (q : LocalQueue A) : Type 0 where
  pub head_in : q.head < capacity
  pub tail_in : q.tail < capacity

module _ {capacity : ℕ} (c : IsCapacity capacity) where
  pub next_slot : (i : ℕ) → add_word i 1 % capacity ≡ (i + 1) % capacity
  next_slot i = slot_of_word c (i + 1)

  pub distance-lt : (t h : ℕ) → sub_word t h % capacity < capacity
  distance-lt t h = mod-lt (sub_word t h) c.positive

  -- Stepping the distance on from `h` leads to `t`.
  pub distance_back :
      (t h : ℕ) → t < capacity → h < capacity → t ≡ (h + sub_word t h % capacity) % capacity
  distance_back t h lt lh = elim (dec_lt t h) [
    | yes p ↦
        rw (distance c t h lh, mod-eq_of_lt {n = t + capacity - h} {m = capacity} (omega arith))
          (let e : h + (t + capacity - h) ≡ t + capacity = omega arith in
            rw (e, add-mod_right) (sym (mod-eq_of_lt lt)))
    | no p ↦
        rw
          (
            distance c t h lh,
            mod-eq-sub-mod {n = t + capacity - h} {m = capacity} (omega arith),
            mod-eq_of_lt {n = t + capacity - h - capacity} {m = capacity} (omega arith),
          )
          (let e : h + (t + capacity - h - capacity) ≡ t = omega arith in
            rw e (sym (mod-eq_of_lt lt)))
  ]

  -- And it is the only number of steps below the capacity that does.
  pub distance_of :
      (t h n : ℕ)
      → h < capacity
      → n < capacity
      → t ≡ (h + n) % capacity
      → sub_word t h % capacity ≡ n
  distance_of t h n lh ln e = elim (dec_lt (h + n) capacity) [
    | yes p ↦
        let q : t ≡ h + n = e ∙ mod-eq_of_lt p in
        rw
          (
            distance c t h lh,
            mod-eq-sub-mod {n = t + capacity - h} {m = capacity} (omega arith),
            mod-eq_of_lt {n = t + capacity - h - capacity} {m = capacity} (omega arith),
          )
          (omega arith)
    | no p ↦
        let q : t ≡ h + n - capacity =
          e
          ∙ mod-eq-sub-mod {n = h + n} {m = capacity} (omega arith)
          ∙ mod-eq_of_lt {n = h + n - capacity} {m = capacity} (omega arith) in
        rw (distance c t h lh, mod-eq_of_lt {n = t + capacity - h} {m = capacity} (omega arith))
          (omega arith)
  ]

  module _ {ℓ} {A : Type ℓ} where
    pub try_enqueue-IsValid :
        (q : LocalQueue A) (x : A)
        → IsValid capacity q
        → IsValid capacity (try_enqueue capacity q x).1
    unfolding try_enqueue
    try_enqueue-IsValid q x v = ground (arith, mod-lt (add_word q.tail 1) c.positive)

    pub try_dequeue-IsValid :
        (q : LocalQueue A) → IsValid capacity q → IsValid capacity (try_dequeue capacity q).1
    unfolding try_dequeue
    try_dequeue-IsValid q v = ground (arith, mod-lt (add_word q.head 1) c.positive)
