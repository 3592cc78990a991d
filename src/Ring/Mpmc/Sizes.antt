-- ===== src/Ring/Mpmc/Sizes.antt =====
-- The constructor of mpmc_ring.h: the loop that rounds the capacity up to a power of two.
use native.Mathlib.Nat.{pow-suc, pow-le-pow_right, mul_assoc, one-le-pow}
use native.Mathlib.Decide.{dec_lt}
use storage_engine.Prelude.{
  ℕ, zero, suc, ◌+◌, ◌-◌, ◌*◌, ◌%◌, ◌^◌, ◌≤◌, ◌<◌, ◌≡◌, refl, sym, ap, ◌∙◌, ◌⊎◌, inl, inr, none,
  some, arith, word, Bool-cases, ltb, ltb→lt, lt→ltb, [],
}
use storage_engine.Ring.Capacity.{IsCapacity}
use storage_engine.Ring.Mpmc.{MpmcRing, round_up, make}
use storage_engine.Ring.Mpmc.Contents.{IsValid, contents}

power_split : (j k : ℕ) → 2 ^ (j + k) ≡ 2 ^ j * 2 ^ k
power_split j zero = ap (λ t. 2 ^ t) {x = j + 0} {y = j} (omega arith) ∙ omega arith
power_split j (suc k) =
    ap (λ t. 2 ^ t) {x = j + suc k} {y = suc (j + k)} (omega arith)
    ∙ pow-suc 2 (j + k)
    ∙ ap (λ t. t * 2) (power_split j k)
    ∙ mul_assoc (2 ^ j) (2 ^ k) 2
    ∙ ap (λ t. 2 ^ j * t) (sym (pow-suc 2 k))

power_bound : (k : ℕ) → k ≤ 63 → 2 ^ k ≤ 2 ^ 63
power_bound k h = pow-le-pow_right {n = 2} (omega arith) {i = k} {j = 63} h

-- A power of two that a `size_t` holds is a capacity.
pub power-IsCapacity : (k : ℕ) → k ≤ 63 → IsCapacity (2 ^ k)
power-IsCapacity k h = record {
  positive = one-le-pow k 2 (omega arith);
  times = 2 ^ (64 - k);
  divides = ap (λ t. 2 ^ t) {x = 64} {y = k + (64 - k)} (omega arith) ∙ power_split k (64 - k);
}

-- What the loop returns, from the size 2 ^ j on.
pub record Rounded (capacity from size : ℕ) : Type 0 where
  pub exponent : ℕ
  pub power : size ≡ 2 ^ exponent
  pub small : exponent ≤ 63
  pub enough : capacity ≤ size
  pub least : (size ≡ from) ⊎ (size < 2 * capacity)

round_up-Rounded :
    (fuel capacity j : ℕ)
    → capacity ≤ 2 ^ 63
    → j ≤ 63
    → 64 ≤ fuel + j
    → (size : ℕ) × (round_up fuel capacity (2 ^ j) ≡ some size) × Rounded capacity (2 ^ j) size
unfolding round_up
round_up-Rounded zero capacity j small top fuelled = absurd (omega arith)
round_up-Rounded (suc fuel) capacity j small top fuelled =
    elim (Bool-cases (ltb (2 ^ j) capacity)) [
      | inl more ↦
          let below : 2 ^ j < capacity = ltb→lt (2 ^ j) capacity more in
          let room : suc j ≤ 63 = elim (dec_lt j 63) [
            | yes p ↦ omega arith
            | no p ↦ absurd (omega (arith, ap (λ t. 2 ^ t) {x = j} {y = 63} (omega arith)))
          ] in
          let twice : 2 ^ suc j ≡ 2 ^ j * 2 = pow-suc 2 j in
          let exact : 2 ^ j * 2 % word ≡ 2 ^ suc j = omega (arith, power_bound (suc j) room) in
          let (size, e, r) = round_up-Rounded fuel capacity (suc j) small room (omega arith) in
          (
            size,
            rw (more, exact) e,
            record {
              exponent = r.exponent;
              power = r.power;
              small = r.small;
              enough = r.enough;
              least = inr (omega (arith, r.least));
            },
          )
      | inr done ↦ (
        2 ^ j,
        rw done,
        record { exponent = j; power = refl; small = top; enough = ground arith; least = inl refl },
      )
    ]

-- A capacity up to 2 ^ 63 gives, within the 65 rounds of fuel, an empty valid ring whose size is
-- the least power of two that is not below it.
pub mpmc_ring_made {ℓ} :
    {A : Type ℓ} (capacity : ℕ) (blank : A)
    → capacity ≤ 2 ^ 63
    → (r : MpmcRing A) × (make capacity blank ≡ some r)
      × Rounded capacity 1 r.capacity
      × IsValid r
      × (contents r ≡ [])
unfolding make
mpmc_ring_made capacity blank small =
    let (size, e, r) = round_up-Rounded 65 capacity 0 small (omega arith) (omega arith) in
    (
      record {
        prod_head = 0;
        prod_tail = 0;
        cons_head = 0;
        cons_tail = 0;
        capacity = size;
        ring = λ _. blank;
      },
      rw (e, make),
      r,
      record {
        is_capacity = rw r.power (power-IsCapacity r.exponent r.small);
        small = rw r.power (power_bound r.exponent r.small);
        produced = refl;
        consumed = refl;
        prod_word = omega arith;
        cons_word = omega arith;
        fits = omega arith;
      },
      refl,
    )

stuck_at_zero : (fuel capacity : ℕ) → 0 < capacity → round_up fuel capacity 0 ≡ none
unfolding round_up
stuck_at_zero zero capacity pos = refl
stuck_at_zero (suc fuel) capacity pos = rw (lt→ltb 0 capacity pos) (stuck_at_zero fuel capacity pos)

diverges_from :
    (fuel capacity j : ℕ) → 2 ^ 63 < capacity → j ≤ 63 → round_up fuel capacity (2 ^ j) ≡ none
unfolding round_up
diverges_from zero capacity j large top = refl
diverges_from (suc fuel) capacity j large top =
    rw (lt→ltb (2 ^ j) capacity (omega (arith, power_bound j top))) (elim (dec_lt j 63) [
      | yes p ↦
          let exact : 2 ^ j * 2 % word ≡ 2 ^ suc j =
            omega (arith, pow-suc 2 j, power_bound (suc j) p) in
          rw exact (diverges_from fuel capacity (suc j) large p)
      | no p ↦
          let last : 2 ^ j * 2 % word ≡ 0 =
            omega (arith, ap (λ t. 2 ^ t) {x = j} {y = 63} (omega arith)) in
          rw last (stuck_at_zero fuel capacity (omega arith))
    ])

-- Above 2 ^ 63 the size wraps to 0 and the loop never ends: no amount of fuel is enough.
pub round_up_diverges : (fuel capacity : ℕ) → 2 ^ 63 < capacity → round_up fuel capacity 1 ≡ none
round_up_diverges fuel capacity large = diverges_from fuel capacity 0 large (omega arith)
