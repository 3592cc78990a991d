-- ===== src/Metric/Latency/Counting.antt =====
-- What the counters of metric_histogram.h say after a series of samples.
use storage_engine.Prelude.{
  ℕ, ◌+◌, ◌%◌, ◌<◌, ◌≡◌, ap, ◌∙◌, inl, inr, List, [], ◌∷◌, ◌==◌, ==_iff, if◌then◌else◌, add_word,
  word, arith, Bool-cases, length,
}
use storage_engine.Metric.Latency.{MetricLatency, no_samples, bucket_index, add_sample}

abbrev pub add_samples : List ℕ → MetricLatency → MetricLatency
add_samples [] m = m
add_samples (ns ∷ samples) m = add_samples samples (add_sample ns m)

abbrev hits : ℕ → ℕ → ℕ
hits i ns = if bucket_index ns == i then 1 else 0

-- How many samples belong to a bucket.
abbrev pub members : ℕ → List ℕ → ℕ
members i [] = 0
members i (ns ∷ samples) = hits i ns + members i samples

abbrev pub sum : List ℕ → ℕ
sum [] = 0
sum (ns ∷ samples) = ns + sum samples

one_bucket :
    (ns i : ℕ) (m : MetricLatency)
    → m.buckets i < word
    → (add_sample ns m).buckets i ≡ (m.buckets i + hits i ns) % word
unfolding add_sample
one_bucket ns i m fits = elim (Bool-cases (bucket_index ns == i)) [
  | inl e ↦ rw e (ap (λ k. add_word (m.buckets k) 1) ((==_iff (bucket_index ns) i).0 e))
  | inr e ↦ rw e (omega (arith, fits))
]

buckets_from :
    (samples : List ℕ) (m : MetricLatency) (i : ℕ)
    → m.buckets i < word
    → (add_samples samples m).buckets i ≡ (m.buckets i + members i samples) % word
buckets_from [] m i fits = omega (arith, fits)
buckets_from (ns ∷ samples) m i fits =
    let e : (add_sample ns m).buckets i ≡ (m.buckets i + hits i ns) % word =
      one_bucket ns i m fits in
    buckets_from samples (add_sample ns m) i (omega (arith, e)) ∙ omega (arith, e)

count_from :
    (samples : List ℕ) (m : MetricLatency)
    → m.total_count < word
    → m.total_sum < word
    → ((add_samples samples m).total_count ≡ (m.total_count + length samples) % word)
      × ((add_samples samples m).total_sum ≡ (m.total_sum + sum samples) % word)
unfolding add_sample
count_from [] m fits sums = (omega (arith, fits), omega (arith, sums))
count_from (ns ∷ samples) m fits sums =
    let (a, b) = count_from samples (add_sample ns m) (omega arith) (omega arith) in
    (a ∙ omega arith, b ∙ omega arith)

-- From no samples on, up to the counters' 2 ^ 64, each bucket holds the number of the samples that
-- belong to it, and the totals are the samples' number and sum.
pub samples_counted :
    (samples : List ℕ) (i : ℕ)
    → let m = add_samples samples no_samples in
      (m.buckets i ≡ members i samples % word)
      × (m.total_count ≡ length samples % word)
      × (m.total_sum ≡ sum samples % word)
samples_counted samples i =
    let (a, b) = count_from samples no_samples (omega arith) (omega arith) in
    (
      buckets_from samples no_samples i (omega arith) ∙ omega arith,
      a ∙ omega arith,
      b ∙ omega arith,
    )
