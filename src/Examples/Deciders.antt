-- ===== src/Examples/Deciders.antt =====
-- The decider of strategy_decider.h with the feedback loop at concrete states; percentages as whole
-- numbers in the place of double.
use storage_engine.Prelude.{ℕ, ◌+◌, ◌-◌, ◌*◌, ◌==◌, ltb, refl, some, none, [], ◌∷◌, arith}
use storage_engine.Feedback.{FeedbackLoop, direct_queue}
use storage_engine.Feedback.Decider.{Doubles, StrategyDecider, Capacity, single_plan}
use storage_engine.Feedback.Switching.{ticks, Switched, sample_of, low_load_switches_again}

abbrev percents : Doubles
percents = record {
  Num = ℕ;
  zero_num = 0;
  add = λ a b. a + b;
  sub = λ a b. a - b;
  mul = λ a b. a * b;
  less = ltb;
  is_zero = λ a. a == 0;
}

abbrev decider : StrategyDecider percents
decider = record {
  cfg = record {
    utilization_high = 85;
    utilization_low = 30;
    latency_p99_degrade = 2;
    hysteresis = 10;
  };
  baseline_latency_us = 0;
}

abbrev quiet_machine : Capacity percents
quiet_machine = record { utilization = 5; avg_latency_us = 20 }

abbrev bound_loop : FeedbackLoop
bound_loop = record {
  workers = some (direct_queue ∷ direct_queue ∷ []);
  consecutive_samples = 3;
  current_plan = single_plan percents 4;
  pending_plan = none;
  consecutive_same = 0;
  tick_count = 0;
  history = [];
}

low_load_switches_again_example :
    Switched
      (single_plan percents 4)
      3
      (ticks 2 (sample_of percents quiet_machine 4 decider) bound_loop)
    × Switched (single_plan percents 4) 3 (
        ticks 2
          (sample_of percents quiet_machine 4 decider)
          (ticks 2 (sample_of percents quiet_machine 4 decider) bound_loop).1)
low_load_switches_again_example =
    low_load_switches_again percents quiet_machine 4 2 decider bound_loop refl refl refl
      (omega arith)
      (record {
        queues = direct_queue ∷ direct_queue ∷ [];
        bound = refl;
        needed = refl;
        none_pending = refl;
      })
