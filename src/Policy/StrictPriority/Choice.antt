-- ===== src/Policy/StrictPriority/Choice.antt =====
-- Which queue the strict policy serves.
use native.Mathlib.Nat.{mod-lt, mod-eq_of_lt}
use native.Mathlib.Decide.{ℕ_discrete}
use storage_engine.Prelude.{
  ℕ, zero, suc, ◌+◌, ◌%◌, ◌<◌, ◌≤◌, ◌≡◌, ◌≢◌, refl, ap, ◌∙◌, ◌⊎◌, inl, inr, Bool, true, false, some,
  List, [], ◌∷◌, length, min, arith, word, Bool-cases, ◌==◌, add_word,
}
use storage_engine.Policy.Types.{
  rank, Priority, QueueSnapshot, ScheduleDecision, all_empty, chosen, queue_at, holds_work,
}
use storage_engine.Policy.Scan.{scan_finds, scan, place, Stops, scan-Stops}
use storage_engine.Policy.StrictPriority.{
  StrictPriority, at_level, count_level, enter_level, from_level, decide,
}

abbrev level_of : List QueueSnapshot → ℕ → ℕ
level_of queues i = rank (queue_at queues i).priority

-- The choice of queue `i`: it has work, no queue with work has a higher priority, and the batch is
-- no larger than its content.
pub record Picks (queues : List QueueSnapshot) (max_batch i : ℕ)
    (out : ScheduleDecision × StrictPriority) : Type 0 where
  pub decided : out.0 ≡ chosen i (min (queue_at queues i).approx_count max_batch)
  pub remembered : (out.1.last_idx ≡ i) × (out.1.last_prio ≡ level_of queues i)
  pub inside : i < length queues
  pub busy : holds_work queues i ≡ true
  pub highest :
      (j : ℕ)
      → j < length queues
      → holds_work queues j ≡ true
      → level_of queues i ≤ level_of queues j

pub record Rests (queues : List QueueSnapshot) (out : ScheduleDecision × StrictPriority)
    : Type 0 where
  pub decided : out.0 ≡ all_empty
  pub empty : (j : ℕ) → j < length queues → holds_work queues j ≡ false

abbrev level_test : ℕ → List QueueSnapshot → ℕ → Bool
level_test prio queues i = at_level prio (queue_at queues i)

count_zero :
    (prio : ℕ) (queues : List QueueSnapshot)
    → count_level prio queues ≡ 0
    → (j : ℕ) → j < length queues
    → level_test prio queues j ≡ false
unfolding count_level
count_zero prio [] e j lt = absurd (omega (arith, lt))
count_zero prio (q ∷ qs) e zero lt = ground arith
count_zero prio (q ∷ qs) e (suc j) lt =
    let none_left : count_level prio qs ≡ 0 = ground arith in
    count_zero prio qs none_left j (omega arith)

count_first :
    (q r : QueueSnapshot) (rest : List QueueSnapshot)
    → at_level 0 q ≡ true
    → count_level 0 (q ∷ r ∷ rest) ≢ 0
unfolding count_level
count_first q r rest bq = ground arith

count_some :
    (prio : ℕ) (queues : List QueueSnapshot)
    → count_level prio queues ≢ 0
    → (j : ℕ) × (j < length queues) × (level_test prio queues j ≡ true)
unfolding count_level
count_some prio [] ne = absurd (ne refl)
count_some prio (q ∷ qs) ne = elim (Bool-cases (at_level prio q)) [
  | inl hit ↦ (0, omega arith, hit)
  | inr miss ↦ let (j, lt, e) = count_some prio qs (ground arith) in (suc j, omega arith, e)
]

rank-lt : (p : Priority) → rank p < 4
unfolding rank
rank-lt Priority.critical = omega arith
rank-lt p = omega arith

narrow_entered :
    (prio n : ℕ) (p : StrictPriority)
    → p.last_idx + n < word
    → (enter_level prio p).last_idx + n < word
narrow_entered prio n p h = ground arith

-- No queue with work stands above the level `prio`.
abbrev Reached : ℕ → List QueueSnapshot → Type 0
Reached prio queues =
    (j : ℕ) → j < length queues → holds_work queues j ≡ true → prio ≤ level_of queues j

below_level :
    (prio : ℕ) (queues : List QueueSnapshot)
    → count_level prio queues ≡ 0
    → Reached prio queues
    → Reached (prio + 1) queues
below_level prio queues e above j lt busy =
    ground (arith, count_zero prio queues e j lt, above j lt busy)

level_outcome :
    (prio levels i : ℕ) (p : StrictPriority) (queues : List QueueSnapshot)
    → count_level prio queues ≢ 0
    → scan (level_test prio queues) (length queues) (enter_level prio p).last_idx (length queues) 1
      ≡ some i
    → from_level (suc levels) prio p queues ≡ (
      chosen i (min (queue_at queues i).approx_count p.max_batch),
      record (enter_level prio p) { last_idx = i },
    )
unfolding from_level
level_outcome prio levels i p queues ne e = rw (not_zero, e)
  where
    not_zero : (count_level prio queues == 0) ≡ false
    not_zero = ground arith

level_skipped :
    (prio levels : ℕ) (p : StrictPriority) (queues : List QueueSnapshot)
    → count_level prio queues ≡ 0
    → from_level (suc levels) prio p queues ≡ from_level levels (prio + 1) p queues
unfolding from_level
level_skipped prio levels p queues e = rw e

level_served :
    (prio levels i : ℕ) (p : StrictPriority) (queues : List QueueSnapshot)
    → count_level prio queues ≢ 0
    → Reached prio queues
    → scan (level_test prio queues) (length queues) (enter_level prio p).last_idx (length queues) 1
      ≡ some i
    → 0 < length queues
    → Picks queues p.max_batch i (from_level (suc levels) prio p queues)
level_served prio levels i p queues ne above e pos = rw outcome (record {
  decided = refl;
  remembered = (refl, ground (arith, turn.passes));
  inside = omega (
    arith,
    turn.there,
    mod-lt (add_word (enter_level prio p).last_idx (1 + turn.step)) {m = length queues} pos,
  );
  busy = ground (arith, turn.passes);
  highest = λ j lt busy. ground (arith, turn.passes, above j lt busy);
})
  where
    turn :
        Stops
          (level_test prio queues)
          (length queues)
          (enter_level prio p).last_idx
          (length queues)
          1
          i
    turn =
        scan-Stops (level_test prio queues) (length queues) (enter_level prio p).last_idx
          (length queues) 1 i e

    outcome : from_level (suc levels) prio p queues ≡ (
      chosen i (min (queue_at queues i).approx_count p.max_batch),
      record (enter_level prio p) { last_idx = i },
    )
    outcome = level_outcome prio levels i p queues ne e

nothing_left :
    (prio : ℕ) (p : StrictPriority) (queues : List QueueSnapshot)
    → prio ≡ 4
    → Reached prio queues
    → Rests queues (from_level 0 prio p queues)
unfolding from_level
nothing_left prio p queues e above = record {
  decided = refl;
  empty = λ j lt. elim (Bool-cases (holds_work queues j)) [
    | inl busy ↦ absurd (omega (arith, e, above j lt busy, rank-lt (queue_at queues j).priority))
    | inr idle ↦ idle
  ];
}

from_level_cases :
    (levels prio : ℕ) (p : StrictPriority) (queues : List QueueSnapshot)
    → prio + levels ≡ 4
    → p.last_idx + length queues < word
    → Reached prio queues
    → ((i : ℕ) × Picks queues p.max_batch i (from_level levels prio p queues))
      ⊎ Rests queues (from_level levels prio p queues)
from_level_cases zero prio p queues e narrow above =
    inr (nothing_left prio p queues (omega arith) above)
from_level_cases (suc levels) prio p queues e narrow above =
    elim (ℕ_discrete (count_level prio queues) 0) [
      | yes none_here ↦ rw (level_skipped prio levels p queues none_here) (
          from_level_cases levels (prio + 1) p queues (omega arith) narrow
            (below_level prio queues none_here above))
      | no some_here ↦
          let (j, lt, busy) = count_some prio queues some_here in
          let (i, found) =
            scan_finds (level_test prio queues) (length queues) (enter_level prio p).last_idx j lt
              busy (narrow_entered prio (length queues) p narrow) in
          inl (i, level_served prio levels i p queues some_here above found (omega (arith, lt)))
    ]

-- The strict policy serves a queue with work that no other queue with work precedes in priority,
-- in a batch no larger than its content, or, when no queue has work, reports idle.
pub strict_priority-Picks :
    (p : StrictPriority) (queues : List QueueSnapshot)
    → p.last_idx + length queues < word
    → ((i : ℕ) × Picks queues p.max_batch i (decide p queues)) ⊎ Rests queues (decide p queues)
unfolding decide
strict_priority-Picks p [] narrow =
    inr (record { decided = refl; empty = λ j lt. absurd (omega (arith, lt)) })
strict_priority-Picks p (q ∷ qs) narrow =
    let more : decide p (q ∷ qs) ≡ from_level 4 0 p (q ∷ qs) = ground arith in
    rw more (from_level_cases 4 0 p (q ∷ qs) refl narrow (λ j lt busy. omega arith))

-- When the level served changes to the highest, the walk starts behind queue 0, so that of two
-- leading critical queues with work the second is served first.
pub level_change_skips_first :
    (p : StrictPriority) (q r : QueueSnapshot) (rest : List QueueSnapshot)
    → p.last_prio ≢ 0
    → at_level 0 q ≡ true
    → at_level 0 r ≡ true
    → (decide p (q ∷ r ∷ rest)).0.queue_index ≡ 1
unfolding decide scan
level_change_skips_first p q r rest changed bq br =
    rw more (rw (level_outcome 0 3 1 p (q ∷ r ∷ rest) counted found) refl)
  where
    more : decide p (q ∷ r ∷ rest) ≡ from_level 4 0 p (q ∷ r ∷ rest)
    more = ground arith

    counted : count_level 0 (q ∷ r ∷ rest) ≢ 0
    counted = count_first q r rest bq

    at_one : place (length (q ∷ r ∷ rest)) (enter_level 0 p).last_idx 1 ≡ 1
    at_one =
        let e : (enter_level 0 p).last_idx ≡ 0 = ground (arith, changed) in
        ap (λ t. add_word t 1 % length (q ∷ r ∷ rest)) e ∙ mod-eq_of_lt (omega arith)

    found :
        scan
          (level_test 0 (q ∷ r ∷ rest))
          (length (q ∷ r ∷ rest))
          (enter_level 0 p).last_idx
          (length (q ∷ r ∷ rest))
          1
        ≡ some 1
    found = rw at_one (rw br refl)
