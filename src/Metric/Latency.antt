-- ===== src/Metric/Latency.antt =====
-- src/runtime/metric_histogram.h without the percentiles, which it computes with `double`, and the
-- export.
pub mod Buckets
pub mod Counting
use storage_engine.Prelude.{
  ℕ, zero, suc, ◌+◌, ◌-◌, ◌/◌, ◌^◌, List, [], ◌∷◌, ◌==◌, leb, ltb, if◌then◌else◌, add_word, update,
}

pub record MetricLatency : Type 0 where
  pub buckets : ℕ → ℕ
  pub total_count : ℕ
  pub total_sum : ℕ

abbrev pub num_buckets : ℕ
num_buckets = 32

-- MetricLatency() and reset().
abbrev pub no_samples : MetricLatency
no_samples = record { buckets = λ i. 0; total_count = 0; total_sum = 0 }

-- The leading zeros of a number of so many bits.
unfoldable pub leading_zeros : ℕ → ℕ → ℕ
leading_zeros zero x = 0
leading_zeros (suc bits) x =
    let rest = leading_zeros bits x in if leb (2 ^ bits) x then 0 else suc rest

unfoldable pub bucket_index : ℕ → ℕ
bucket_index ns =
    let us = ns / 1000 in
    let idx = 63 - leading_zeros 64 us + 1 in
    if ns == 0
    then 0
    else (if us == 0 then 0 else (if leb num_buckets idx then num_buckets - 1 else idx))

-- `operator<<`.
unfoldable pub add_sample : ℕ → MetricLatency → MetricLatency
add_sample ns m = record {
  buckets = update m.buckets (bucket_index ns) (add_word (m.buckets (bucket_index ns)) 1);
  total_count = add_word m.total_count 1;
  total_sum = add_word m.total_sum ns;
}

unfoldable pub avg_ns : MetricLatency → ℕ
avg_ns m = if ltb 0 m.total_count then m.total_sum / m.total_count else 0
