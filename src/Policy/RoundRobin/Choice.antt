-- ===== src/Policy/RoundRobin/Choice.antt =====
-- Which queue the round robin serves.
use native.Mathlib.Nat.{mod-lt}
use storage_engine.Prelude.{
  ℕ, ◌+◌, ◌<◌, ◌≡◌, refl, sym, ap, ◌∙◌, ◌⊎◌, inl, inr, false, List, [], ◌∷◌, length, min, arith,
  word, Option-cases, add_word,
}
use storage_engine.Policy.Types.{QueueSnapshot, all_empty, chosen, queue_at, holds_work}
use storage_engine.Policy.Scan.{scan, Stops, scan-Stops, scan-eq-none, meets}
use storage_engine.Policy.RoundRobin.{RoundRobin, decide}

-- The first queue with work behind the last one served, in a batch no larger than its content.
pub record Serves (p : RoundRobin) (queues : List QueueSnapshot) (i : ℕ) : Type 0 where
  pub decided :
      decide p queues
      ≡ (chosen i (min (queue_at queues i).approx_count p.max_batch), record p { last_index = i })
  pub inside : i < length queues
  pub turn : Stops (holds_work queues) (length queues) p.last_index (length queues) 1 i

-- Nothing is chosen, and no queue has work.
pub record Rests (p : RoundRobin) (queues : List QueueSnapshot) : Type 0 where
  pub decided : decide p queues ≡ (all_empty, p)
  pub empty : (j : ℕ) → j < length queues → holds_work queues j ≡ false

-- The policy serves the first queue with work behind the last one it served, or, when no queue has
-- work, reports idle and stays as it is.
pub round_robin-Serves :
    (p : RoundRobin) (queues : List QueueSnapshot)
    → p.last_index + length queues < word
    → ((i : ℕ) × Serves p queues i) ⊎ Rests p queues
unfolding decide
round_robin-Serves p [] narrow =
    inr (record { decided = refl; empty = λ j lt. absurd (omega (arith, lt)) })
round_robin-Serves p (q ∷ qs) narrow =
    elim (Option-cases
      (scan (holds_work (q ∷ qs)) (length (q ∷ qs)) p.last_index (length (q ∷ qs)) 1)) [
        | inl e ↦ inr (record {
          decided = ground (arith, e);
          empty = λ j lt.
              let (k, below, at) = meets (length (q ∷ qs)) p.last_index j lt narrow in
              ap (holds_work (q ∷ qs)) (sym at)
              ∙ scan-eq-none (holds_work (q ∷ qs)) (length (q ∷ qs)) p.last_index (length (q ∷ qs))
                  1 e k below;
        })
        | inr (i, e) ↦
            let turn : Stops (holds_work (q ∷ qs)) (length (q ∷ qs)) p.last_index (length (q ∷ qs))
                1 i =
              scan-Stops (holds_work (q ∷ qs)) (length (q ∷ qs)) p.last_index (length (q ∷ qs)) 1 i
                e in
            inl (
              i,
              record {
                decided = ground (arith, e);
                inside = omega (
                  arith,
                  turn.there,
                  mod-lt (add_word p.last_index (1 + turn.step)) {m = length (q ∷ qs)}
                      (omega arith),
                );
                turn = turn;
              },
            )
      ]
