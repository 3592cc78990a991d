-- ===== src/Policy/WeightedFair.antt =====
-- src/runtime/weighted_fair_policy.h and .cc. The source computes with `double`; the numbers and
-- their operations are a parameter, of which only that `<` is transitive and irreflexive is used, which
-- holds for floating-point numbers, NaN included.
pub mod Choice
use storage_engine.Prelude.{
  ℕ, zero, suc, ◌+◌, ◌≡◌, Bool, true, false, not, ◌&&◌, ◌||◌, Option, none, some, List, [], ◌∷◌,
  ◌==◌, ltb, if◌then◌else◌, length, min, get_or, set, replicate,
}
use storage_engine.Policy.Types.{
  QueueSnapshot, ScheduleDecision, all_empty, chosen, queue_at, holds_work,
}

pub record Numbers : Type 1 where
  pub Num : Type 0
  pub zero_num : Num
  pub one_num : Num
  pub of_count : ℕ → Num
  pub add : Num → Num → Num
  pub divide : Num → Num → Num
  pub less : Num → Num → Bool
  pub less_trans : (a b c : Num) → less a b ≡ true → less b c ≡ true → less a c ≡ true
  pub less_irrefl : (a : Num) → less a a ≡ false

module _ (numbers : Numbers) where
  open numbers use {Num, zero_num, one_num, of_count, add, divide, less}

  pub record WeightedFair : Type 0 where
    pub virtual_time : List Num
    pub weights : List Num
    pub max_batch : ℕ

  -- `assign(n, x)` where the size differs.
  abbrev sized : ℕ → Num → List Num → List Num
  sized n x xs = if length xs == n then xs else replicate n x

  -- One round of the loop: a queue with work is better if nothing was found yet or its virtual time
  -- is below that of the best so far.
  abbrev better : List Num → List QueueSnapshot → Option ℕ → ℕ → Option ℕ
  better times queues none i = if holds_work queues i then some i else none
  better times queues (some best) i =
      if holds_work queues i && less (get_or times i zero_num) (get_or times best zero_num)
      then some i
      else some best

  -- `rounds` rounds are left, the next one for queue `i`.
  pub best_from : List Num → List QueueSnapshot → ℕ → ℕ → Option ℕ → Option ℕ
  best_from times queues zero i best = best
  best_from times queues (suc rounds) i best =
      best_from times queues rounds (i + 1) (better times queues best i)

  pub decide : WeightedFair → List QueueSnapshot → ScheduleDecision × WeightedFair
  decide p queues =
      let n = length queues in
      let times = sized n zero_num p.virtual_time in
      let weights = sized n one_num p.weights in
      let ready = record p { virtual_time = times; weights = weights } in
      elim (best_from times queues n 0 none) [
        | none ↦ (all_empty, ready)
        | some best_idx ↦
            let batch = min (queue_at queues best_idx).approx_count p.max_batch in
            (
              chosen best_idx batch,
              record ready {
                virtual_time = set times best_idx (
                    add (get_or times best_idx zero_num)
                      (divide (of_count batch) (get_or weights best_idx one_num)));
              },
            )
      ]
