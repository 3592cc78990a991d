-- ===== src/Feedback/Decider.antt =====
-- src/runtime/strategy_decider.h. The source computes with double: the numbers, their operations and
-- comparisons are a parameter. Of the capacity estimate and of the topology only what is read is kept.
use storage_engine.Prelude.{ℕ, Bool, ◌&&◌, Option, none, some, leb, if◌then◌else◌, add_word}
use storage_engine.Feedback.{DispatchPlan, direct_all, dispatch_single}

-- `less a b` is `a < b`, `is_zero a` is `a == 0`.
pub record Doubles : Type 1 where
  pub Num : Type 0
  pub zero_num : Num
  pub add : Num → Num → Num
  pub sub : Num → Num → Num
  pub mul : Num → Num → Num
  pub less : Num → Num → Bool
  pub is_zero : Num → Bool

module _ (doubles : Doubles) where
  open doubles use {Num, zero_num, add, sub, mul, less, is_zero}

  pub record DeciderConfig : Type 0 where
    pub utilization_high : Num
    pub utilization_low : Num
    pub latency_p99_degrade : Num
    pub hysteresis : Num

  pub record StrategyDecider : Type 0 where
    pub cfg : DeciderConfig
    pub baseline_latency_us : Num

  -- RealTimeCapacity, as far as `decide` reads it.
  pub record Capacity : Type 0 where
    pub utilization : Num
    pub avg_latency_us : Num

  abbrev pub direct_plan : (nic_queues : ℕ) → DispatchPlan
  direct_plan nic_queues = record {
    strategy = direct_all;
    direct_workers = nic_queues;
    dispatch_threads = 0;
    consumers_per_dispatch = 1;
  }

  abbrev pub single_plan : (nic_queues : ℕ) → DispatchPlan
  single_plan nic_queues = record {
    strategy = dispatch_single;
    direct_workers = 0;
    dispatch_threads = 1;
    consumers_per_dispatch = nic_queues;
  }

  -- The first measured latency becomes the baseline.
  abbrev pub with_baseline : Capacity → StrategyDecider → StrategyDecider
  with_baseline cap d = record d {
    baseline_latency_us =
        if is_zero d.baseline_latency_us && less zero_num cap.avg_latency_us
        then cap.avg_latency_us
        else d.baseline_latency_us;
  }

  abbrev pub limit : StrategyDecider → Num
  limit d = mul d.baseline_latency_us d.cfg.latency_p99_degrade

  abbrev pub healthy : Capacity → StrategyDecider → Bool
  healthy cap d =
      less (add d.cfg.utilization_low d.cfg.hysteresis) cap.utilization
      && less cap.utilization (sub d.cfg.utilization_high d.cfg.hysteresis)
      && less cap.avg_latency_us (limit d)

  abbrev overloaded : DispatchPlan → (nic_queues : ℕ) → Option DispatchPlan
  overloaded current nic_queues =
      if leb (add_word (add_word current.direct_workers current.dispatch_threads) 1) nic_queues
      then some (direct_plan nic_queues)
      else none

  abbrev slow : Capacity → StrategyDecider → Bool
  slow cap d = less zero_num d.baseline_latency_us && less (limit d) cap.avg_latency_us

  unfoldable pub decide :
      Capacity
      → DispatchPlan
      → (nic_queues : ℕ) → StrategyDecider
      → Option DispatchPlan × StrategyDecider
  decide cap current nic_queues d0 =
      let d = with_baseline cap d0 in
      let plan =
        if healthy cap d
        then none
        else (if less d.cfg.utilization_high cap.utilization
            then overloaded current nic_queues
            else (if less cap.utilization d.cfg.utilization_low
                then some (single_plan nic_queues)
                else (if slow cap d then some (direct_plan nic_queues) else none))) in
      (plan, d)
