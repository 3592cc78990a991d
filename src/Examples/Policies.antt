-- ===== src/Examples/Policies.antt =====
-- The scheduling policies of round_robin_policy.cc, strict_priority_policy.cc and
-- weighted_fair_policy.cc at concrete snapshots.
use storage_engine.Prelude.{ℕ, ◌+◌, ◌≡◌, refl, ◌⊎◌, true, false, ltb, List, [], ◌∷◌, arith}
use storage_engine.Policy.Types.{QueueType, Priority, critical, low, QueueSnapshot}
use storage_engine.Policy.RoundRobin.{RoundRobin}
use storage_engine.Policy.RoundRobin.Turns.{served_within_round, ServedIn}
use storage_engine.Policy.StrictPriority.{StrictPriority}
use storage_engine.Policy.StrictPriority as Strict
use storage_engine.Policy.StrictPriority.Choice.{strict_priority-Picks, level_change_skips_first}
use storage_engine.Policy.StrictPriority.Choice as StrictChoice
use storage_engine.Policy.WeightedFair.{Numbers, WeightedFair}
use storage_engine.Policy.WeightedFair.Choice.{weighted_fair_choice}
use storage_engine.Policy.WeightedFair.Choice as WeightedChoice

abbrev queue : Priority → ℕ → QueueSnapshot
queue priority count = record {
  type = QueueType.local;
  priority = priority;
  approx_count = count;
  last_poll_ns = 0;
  total_dequeued = 0;
}

abbrev busy : List QueueSnapshot
busy = queue critical 3 ∷ queue critical 5 ∷ queue low 40 ∷ []

abbrev turns : RoundRobin
turns = record { last_index = 1; max_batch = 16 }

served_within_round_example : ServedIn 0 turns (busy ∷ busy ∷ busy ∷ [])
served_within_round_example =
    served_within_round 3 0 turns (busy ∷ busy ∷ busy ∷ []) refl (omega arith) (omega arith)
      (omega arith) ((refl, refl), ((refl, refl), ((refl, refl), tt)))

abbrev strict : StrictPriority
strict = record { max_batch = 16; last_prio = 3; last_idx = 2 }

strict_priority-Picks_example :
    ((i : ℕ) × StrictChoice.Picks busy 16 i (Strict.decide strict busy))
    ⊎ StrictChoice.Rests busy (Strict.decide strict busy)
strict_priority-Picks_example = strict_priority-Picks strict busy (omega arith)

-- Whole numbers, of which a batch over its weight is counted in full.
abbrev whole : Numbers
whole = record {
  Num = ℕ;
  zero_num = 0;
  one_num = 1;
  of_count = λ n. n;
  add = λ a b. a + b;
  divide = λ a b. a;
  less = λ a b. ltb a b;
  less_trans = λ a b c e f. chained a b c e f;
  less_irrefl = λ a. not_below a;
}
  where
    chained : (a b c : ℕ) → ltb a b ≡ true → ltb b c ≡ true → ltb a c ≡ true
    chained a b c e f = ground (arith, e, f)

    not_below : (a : ℕ) → ltb a a ≡ false
    not_below a = ground arith

abbrev fair : WeightedFair whole
fair = record { virtual_time = 7 ∷ 4 ∷ 9 ∷ []; weights = []; max_batch = 16 }

weighted_fair_choice_example :
    ((i : ℕ) × WeightedChoice.Serves whole fair busy i) ⊎ WeightedChoice.Rests whole fair busy
weighted_fair_choice_example = weighted_fair_choice whole fair busy
