-- ===== src/Metric/Perf/Buckets.antt =====
-- What a bucket and a percentile of perf_histogram.h say.
use mathlib.Core.Path.{subst}
use storage_engine.Prelude.{
  ℕ, zero, suc, ◌+◌, ◌-◌, ◌^◌, ◌≤◌, ◌<◌, ◌≡◌, ◌≢◌, refl, ap, ◌⊎◌, inl, inr, false, ◌==◌, leb,
  if◌then◌else◌, add_word, word, arith, Bool-cases, max,
}
use storage_engine.Metric.Latency.{leading_zeros}
use storage_engine.Metric.Latency.Buckets.{leading_zeros_lem}
use storage_engine.Metric.Perf.{Histogram, num_buckets, bucket, percentile_from, percentile}

-- A value of 64 bits goes to one of the 64 buckets, the one of its highest bit; 0 counts as 1.
pub value_in_bucket :
    (value : ℕ)
    → value < word
    → (bucket value < num_buckets)
      × (2 ^ bucket value ≤ max value 1)
      × (max value 1 < 2 ^ (bucket value + 1))
unfolding bucket
value_in_bucket value small =
    let v = if value == 0 then 1 else value in
    let e : v ≡ max value 1 = ground arith in
    let (z, low, high) = leading_zeros_lem 64 v (omega (arith, e)) (omega (arith, e, small)) in
    (
      omega (arith, z),
      omega (arith, e, low),
      omega (
        arith,
        e,
        high,
        ap (λ k. 2 ^ k) {x = 63 - leading_zeros 64 v + 1} {y = 64 - leading_zeros 64 v}
            (omega (arith, z)),
      ),
    )

-- How many values the first `n` buckets count.
abbrev pub below : (ℕ → ℕ) → ℕ → ℕ
below buckets zero = 0
below buckets (suc n) = below buckets n + buckets n

below_mono : (buckets : ℕ → ℕ) (n m : ℕ) → below buckets n ≤ below buckets (n + m)
below_mono buckets n zero = omega (arith, ap (below buckets) {x = n + 0} {y = n} (omega arith))
below_mono buckets n (suc m) = omega (
  arith,
  below_mono buckets n m,
  ap (below buckets) {x = n + suc m} {y = suc (n + m)} (omega arith),
)

pub record Reached (buckets : ℕ → ℕ) (target i : ℕ) : Type 0 where
  pub one_of : i < num_buckets
  pub before : (below buckets i < target) ⊎ (i ≡ 0)
  pub reached : (target ≤ below buckets (suc i)) ⊎ (i ≡ num_buckets - 1)

percentile_from-Reached :
    (buckets : ℕ → ℕ) (target i left : ℕ)
    → i + left ≡ num_buckets
    → below buckets num_buckets < word
    → (below buckets i < target) ⊎ (i ≡ 0)
    → Reached buckets target (percentile_from buckets target (below buckets i) i left)
unfolding percentile_from
percentile_from-Reached buckets target i zero e small before = record {
  one_of = omega arith;
  before = elim before [
    | inl less ↦ inl (
        omega (
          arith,
          less,
          ap (below buckets) {x = i} {y = 63 + 1} (omega (arith, e)),
          below_mono buckets 63 1,
        ))
    | inr q ↦ absurd (omega (arith, e, q))
  ];
  reached = inr refl;
}
percentile_from-Reached buckets target i (suc left) e small before =
    let total : below buckets (suc i) ≤ below buckets num_buckets = omega (
      arith,
      below_mono buckets (suc i) left,
      ap (below buckets) {x = suc i + left} {y = num_buckets} (omega (arith, e)),
    ) in
    let sum_word : add_word (below buckets i) (buckets i) ≡ below buckets (suc i) =
      omega (arith, total, small) in
    let next : suc i ≡ i + 1 = omega arith in
    elim (Bool-cases (leb target (below buckets (suc i)))) [
      | inl q ↦
          rw (percentile_from, sum_word, q)
            (record {
              one_of = omega (arith, e);
              before = before;
              reached = inl (ground (arith, q));
            })
      | inr q ↦
          rw (percentile_from, sum_word, q)
            (subst
              (λ k.
                Reached buckets target
                  (percentile_from buckets target (below buckets (suc i)) k left))
              next
              (percentile_from-Reached buckets target (suc i) left (omega (arith, e)) small
                (inl (ground (arith, q)))))
    ]

-- Where the counts do not overflow: the bucket of a percentile is the first at which as many values
-- are counted as the target asks for, or the last.
pub percentile-Reached :
    (target : ℕ) (h : Histogram)
    → below h.buckets num_buckets < word
    → h.count ≢ 0
    → (i : ℕ) × (percentile target h ≡ 2 ^ i) × Reached h.buckets target i
unfolding percentile
percentile-Reached target h small some_values =
    let counted : (h.count == 0) ≡ false = ground (arith, some_values) in
    (
      percentile_from h.buckets target 0 0 num_buckets,
      rw (percentile, counted) refl,
      percentile_from-Reached h.buckets target 0 num_buckets (omega arith) small (inr refl),
    )
