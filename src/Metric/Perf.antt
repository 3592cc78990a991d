-- ===== src/Metric/Perf.antt =====
-- src/runtime/perf_histogram.h and worker_perf.h. A percentile's target count, `count_ * p` in double,
-- is a parameter; the time-stamp counter's readings are arguments.
pub mod Buckets
use storage_engine.Prelude.{
  ℕ, zero, suc, ◌+◌, ◌-◌, ◌/◌, ◌^◌, Bool, true, false, ◌&&◌, List, [], ◌∷◌, ◌==◌, leb, ltb,
  if◌then◌else◌, add_word, sub_word, update,
}
use storage_engine.Policy.Types.{
  QueueType, local, affine, net_io, disk_io, engine, timer, background,
}
use storage_engine.Metric.Latency.{leading_zeros}

pub record Histogram : Type 0 where
  pub buckets : ℕ → ℕ
  pub count : ℕ
  pub sum : ℕ

abbrev pub num_buckets : ℕ
num_buckets = 64

abbrev pub empty_histogram : Histogram
empty_histogram = record { buckets = λ i. 0; count = 0; sum = 0 }

-- 63 - __builtin_clzll(value), with 1 in the place of 0.
unfoldable pub bucket : ℕ → ℕ
bucket value = 63 - leading_zeros 64 (if value == 0 then 1 else value)

unfoldable pub record_value : ℕ → Histogram → Histogram
unfolding bucket
record_value value h = record h {
  buckets = update h.buckets (bucket value) (add_word (h.buckets (bucket value)) 1);
  count = add_word h.count 1;
  sum = add_word h.sum (if value == 0 then 1 else value);
}

-- The loop of `percentile` from bucket `i` on, `left` to come: the bucket at which the accumulated
-- count reaches the target, or the last.
unfoldable pub percentile_from : (buckets : ℕ → ℕ) (target accum i left : ℕ) → ℕ
percentile_from buckets target accum i zero = num_buckets - 1
percentile_from buckets target accum i (suc left) =
    let accum' = add_word accum (buckets i) in
    let rest = percentile_from buckets target accum' (i + 1) left in
    if leb target accum' then i else rest

unfoldable pub percentile : ℕ → Histogram → ℕ
unfolding percentile_from
percentile target h =
    if h.count == 0 then 0 else 2 ^ percentile_from h.buckets target 0 0 num_buckets

pub data PerfLevel : Type 0 where
  no_perf counting tracing : PerfLevel

pub record QueuePerf : Type 0 where
  pub enqueued_count : ℕ
  pub total_wait_ns : ℕ
  pub max_wait_ns : ℕ
  pub total_exec_ns : ℕ
  pub wait_hist : Histogram
  pub exec_hist : Histogram

pub record WorkerPerf : Type 0 where
  pub level : PerfLevel
  pub queues : ℕ → QueuePerf

-- The enumerators' values.
unfoldable pub queue_index : QueueType → ℕ
queue_index local = 0
queue_index affine = 1
queue_index net_io = 2
queue_index disk_io = 3
queue_index engine = 4
queue_index timer = 5
queue_index background = 6

abbrev at_queue : QueueType → QueuePerf → WorkerPerf → WorkerPerf
at_queue q qp p = record p { queues = update p.queues (queue_index q) qp }

-- The timestamp, or 0, and the new counters.
unfoldable pub record_enqueue : QueueType → (now : ℕ) → WorkerPerf → ℕ × WorkerPerf
unfolding queue_index
record_enqueue q now p =
    let qp = p.queues (queue_index q) in
    let counted = at_queue q (record qp { enqueued_count = add_word qp.enqueued_count 1 }) p in
    elim p.level [ no_perf ↦ (0, p) | counting ↦ (0, counted) | tracing ↦ (now, counted) ]

abbrev wait_of : (now enqueue_ns : ℕ) → ℕ
wait_of now enqueue_ns = if ltb 0 enqueue_ns then sub_word now enqueue_ns else 0

abbrev waited : ℕ → QueuePerf → QueuePerf
waited wait qp = record qp {
  total_wait_ns = add_word qp.total_wait_ns wait;
  max_wait_ns = if ltb qp.max_wait_ns wait then wait else qp.max_wait_ns;
}

unfoldable pub record_dequeue : QueueType → (now enqueue_ns : ℕ) → WorkerPerf → WorkerPerf
unfolding queue_index record_value
record_dequeue q now enqueue_ns p =
    let wait = wait_of now enqueue_ns in
    let qp = waited wait (p.queues (queue_index q)) in
    elim p.level [
      | no_perf ↦ p
      | counting ↦ at_queue q qp p
      | tracing ↦
          at_queue q
            (record qp {
              wait_hist = if ltb 0 wait then record_value wait qp.wait_hist else qp.wait_hist;
            })
            p
    ]

unfoldable pub record_exec : QueueType → (exec_ns : ℕ) → WorkerPerf → WorkerPerf
unfolding queue_index record_value
record_exec q exec_ns p =
    let old = p.queues (queue_index q) in
    let qp = record old { total_exec_ns = add_word old.total_exec_ns exec_ns } in
    elim p.level [
      | no_perf ↦ p
      | counting ↦ at_queue q qp p
      | tracing ↦ at_queue q (record qp { exec_hist = record_value exec_ns qp.exec_hist }) p
    ]
