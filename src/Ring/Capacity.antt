-- ===== src/Ring/Capacity.antt =====
-- Capacities of the rings: powers of two, so that masks are remainders and `size_t` wraps evenly.
use native.Mathlib.Nat.{mul-add-mod_self_left}
use storage_engine.Prelude.{ℕ, suc, ◌+◌, ◌-◌, ◌*◌, ◌%◌, ◌<◌, ◌≡◌, ap, ◌∙◌, arith, word, sub_word}
use storage_engine.Prelude.Window.{slot_wrap}

-- At least 1, and a divisor of the range of `size_t`.
pub record IsCapacity (capacity : ℕ) : Type 0 where
  pub positive : 0 < capacity
  pub times : ℕ
  pub divides : word ≡ capacity * times

module _ {capacity : ℕ} (c : IsCapacity capacity) where
  pub slot_of_word : (i : ℕ) → i % word % capacity ≡ i % capacity
  slot_of_word i = slot_wrap word capacity c.times i c.divides

  -- A difference that wraps, reduced to the ring.
  pub distance : (t h : ℕ) → h < capacity → sub_word t h % capacity ≡ (t + capacity - h) % capacity
  distance t h lt =
      slot_of_word (t + word - h)
      ∙ ap (λ x. x % capacity) whole
      ∙ mul-add-mod_self_left capacity (c.times - 1) (t + capacity - h)
    where
      one_more : word ≡ capacity * (c.times - 1) + capacity
      one_more = omega (
        arith,
        c.divides,
        ap (λ x. capacity * x)
            (let e : c.times ≡ suc (c.times - 1) = ground (arith, c.divides) in e),
      )

      whole : t + word - h ≡ capacity * (c.times - 1) + (t + capacity - h)
      whole = omega (arith, one_more)
