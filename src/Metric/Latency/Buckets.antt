-- ===== src/Metric/Latency/Buckets.antt =====
-- What a bucket of metric_histogram.h holds.
use mathlib.Core.Path.{subst}
use native.Mathlib.Nat.{pow-le-pow_right}
use native.Mathlib.Decide.{ℕ_discrete}
use storage_engine.Prelude.{
  ℕ, zero, suc, ◌+◌, ◌-◌, ◌/◌, ◌^◌, ◌≤◌, ◌<◌, ◌≡◌, ◌≢◌, ◌↔◌, refl, sym, ap, inl, inr, true, false,
  ◌==◌, ==_iff, leb, if◌then◌else◌, word, arith, Bool-cases,
}
use storage_engine.Metric.Latency.{num_buckets, leading_zeros, bucket_index}

leb→le : (a b : ℕ) → leb a b ≡ true → a ≤ b
leb→le a b e = ground (arith, e)

not_leb→lt : (a b : ℕ) → leb a b ≡ false → b < a
not_leb→lt a b e = ground (arith, e)

-- A positive number of at most `bits` bits starts behind its leading zeros.
pub leading_zeros_lem :
    (bits x : ℕ)
    → 0 < x
    → x < 2 ^ bits
    → (leading_zeros bits x < bits)
      × (2 ^ (bits - 1 - leading_zeros bits x) ≤ x)
      × (x < 2 ^ (bits - leading_zeros bits x))
unfolding leading_zeros
leading_zeros_lem zero x pos small = absurd (omega (arith, pos, small))
leading_zeros_lem (suc bits) x pos small = elim (Bool-cases (leb (2 ^ bits) x)) [
  | inl e ↦ rw e (
    omega arith,
    omega (
      arith,
      leb→le (2 ^ bits) x e,
      ap (λ k. 2 ^ k) {x = suc bits - 1 - 0} {y = bits} (omega arith),
    ),
    omega (arith, small, ap (λ k. 2 ^ k) {x = suc bits - 0} {y = suc bits} (omega arith)),
  )
  | inr e ↦
      let z = leading_zeros bits x in
      let (in_range, low, high) = leading_zeros_lem bits x pos (not_leb→lt (2 ^ bits) x e) in
      rw e (
        omega (arith, in_range),
        omega (
          arith,
          low,
          ap (λ k. 2 ^ k) {x = suc bits - 1 - suc z} {y = bits - 1 - z} (omega arith),
        ),
        omega (arith, high, ap (λ k. 2 ^ k) {x = suc bits - suc z} {y = bits - z} (omega arith)),
      )
]

-- In microseconds: bucket 0 is below 1, bucket `i` from 2 ^ (i - 1) to below 2 ^ i, and the last one has
-- no upper end.
pub Holds : ℕ → ℕ → Type 0
Holds us i =
    (i < num_buckets)
    × ((i ≡ 0) ↔ (us ≡ 0))
    × (i ≢ 0 → 2 ^ (i - 1) ≤ us)
    × (i < num_buckets - 1 → us < 2 ^ i)

Holds-zero : (us : ℕ) → us ≡ 0 → Holds us 0
unfolding Holds
Holds-zero us e = (omega arith, (λ h. e, λ h. refl), λ ne. absurd (ne refl), λ lt. omega (arith, e))

index_zero : (ns : ℕ) → ns / 1000 ≡ 0 → bucket_index ns ≡ 0
unfolding bucket_index
index_zero ns e = elim (Bool-cases (ns == 0)) [
  | inl z ↦ rw z refl
  | inr z ↦ rw (z, (==_iff (ns / 1000) 0).1 e) refl
]

index_clamped :
    (ns : ℕ)
    → ns / 1000 ≢ 0
    → bucket_index ns ≡ (
        let idx = 63 - leading_zeros 64 (ns / 1000) + 1 in
        if leb num_buckets idx then num_buckets - 1 else idx)
unfolding bucket_index
index_clamped ns ne = rw (not_zero ns (omega (arith, ne)), not_zero (ns / 1000) ne) refl
  where
    not_zero : (n : ℕ) → n ≢ 0 → (n == 0) ≡ false
    not_zero n ne = ground (arith, ne)

-- Every sample goes to a bucket whose range holds it.
pub sample_in_bucket : (ns : ℕ) → ns < word → Holds (ns / 1000) (bucket_index ns)
unfolding Holds
sample_in_bucket ns fits = elim (ℕ_discrete (ns / 1000) 0) [
  | yes e ↦ subst (Holds (ns / 1000)) (sym (index_zero ns e)) (Holds-zero (ns / 1000) e)
  | no ne ↦
      let us = ns / 1000 in
      let z = leading_zeros 64 us in
      let (in_range, low, high) =
        leading_zeros_lem 64 us (omega (arith, ne)) (omega (arith, fits)) in
      subst (Holds us) (sym (index_clamped ns ne))
        (elim (Bool-cases (leb num_buckets (63 - z + 1))) [
          | inl e ↦
              let big : 2 ^ 31 ≤ 2 ^ (64 - 1 - z) =
                pow-le-pow_right {n = 2} (omega arith) {i = 31} {j = 64 - 1 - z}
                  (omega (arith, leb→le num_buckets (63 - z + 1) e)) in
              rw e (
                omega arith,
                (λ h. absurd (omega (arith, h)), λ h. absurd (ne h)),
                λ h. omega (arith, big, low),
                λ h. absurd (omega (arith, h)),
              )
          | inr e ↦ rw e (
            not_leb→lt num_buckets (63 - z + 1) e,
            (λ h. absurd (omega (arith, h)), λ h. absurd (ne h)),
            λ h.
                omega
                  (arith, low, ap (λ k. 2 ^ k) {x = 63 - z + 1 - 1} {y = 64 - 1 - z} (omega arith)),
            λ h. omega (
              arith,
              high,
              ap (λ k. 2 ^ k) {x = 63 - z + 1} {y = 64 - z} (omega (arith, in_range)),
            ),
          )
        ])
]
