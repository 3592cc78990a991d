-- ===== src/Policy/WeightedFair/Choice.antt =====
-- Which queue the weighted policy serves.
use mathlib.Core.Bool.{false≢true}
use mathlib.Core.Path.{subst}
use native.Mathlib.Decide.{ℕ_discrete}
use storage_engine.Prelude.{
  ℕ, zero, suc, ◌+◌, ◌<◌, ◌≡◌, sym, ◌∙◌, ap, ◌⊎◌, inl, inr, Bool, true, false, Option, none, some,
  List, set, ◌&&◌, if◌then◌else◌, length, min, get_or, arith, Option-cases, and_left, and_right,
  Bool-cases,
}
use storage_engine.Policy.Types.{QueueSnapshot, all_empty, chosen, queue_at, holds_work}
use storage_engine.Policy.WeightedFair.{Numbers, WeightedFair, sized, better, best_from, decide}

module _ (numbers : Numbers) where
  open numbers use {Num, zero_num, less, less_trans, less_irrefl, one_num, of_count, add, divide}

  -- Among the queues before `i`: none with work, or the best has work and none with work is below.
  abbrev BestOf : List Num → List QueueSnapshot → ℕ → Option ℕ → Type 0
  BestOf times queues i none = (j : ℕ) → j < i → holds_work queues j ≡ false
  BestOf times queues i (some b) =
      (b < i)
      × (holds_work queues b ≡ true)
      × ((j : ℕ)
          → j < i
          → holds_work queues j ≡ true
          → less (get_or times j zero_num) (get_or times b zero_num) ≡ false)

  -- Below the next index: below this one, or this one.
  up_to : {P : ℕ → Type 0} (i : ℕ) → ((j : ℕ) → j < i → P j) → P i → (j : ℕ) → j < i + 1 → P j
  up_to {P} i below here j lt = elim (ℕ_discrete j i) [
    | yes e ↦ subst P (sym e) here
    | no ne ↦ below j (omega (arith, lt, ne))
  ]

  abbrev NotBelow : List Num → List QueueSnapshot → ℕ → ℕ → Type 0
  NotBelow times queues b j =
      holds_work queues j ≡ true → less (get_or times j zero_num) (get_or times b zero_num) ≡ false

  -- The queue that is now the best.
  taken :
      (times : List Num) (queues : List QueueSnapshot) (i : ℕ)
      → holds_work queues i ≡ true
      → ((j : ℕ) → j < i → NotBelow times queues i j)
      → BestOf times queues (i + 1) (some i)
  taken times queues i work others = (
    omega arith,
    work,
    up_to {P = NotBelow times queues i} i others (λ w. less_irrefl (get_or times i zero_num)),
  )

  better-BestOf :
      (times : List Num) (queues : List QueueSnapshot) (i : ℕ) (best : Option ℕ)
      → BestOf times queues i best
      → BestOf times queues (i + 1) (better numbers times queues best i)
  better-BestOf times queues i none h = elim (Bool-cases (holds_work queues i)) [
    | inl work ↦
        subst (BestOf times queues (i + 1)) (ap (λ t. if t then some i else none) (sym work))
          (taken times queues i work (λ j lt w. absurd (false≢true (sym (h j lt) ∙ w))))
    | inr empty ↦
        subst (BestOf times queues (i + 1)) (ap (λ t. if t then some i else none) (sym empty))
          (up_to {P = λ j. holds_work queues j ≡ false} i h empty)
  ]
  better-BestOf times queues i (some b) (lt, work, least) =
      elim (Bool-cases
        (holds_work queues i && less (get_or times i zero_num) (get_or times b zero_num))) [
          | inl t ↦
              subst (BestOf times queues (i + 1)) (ap (λ t. if t then some i else some b) (sym t)) (
                taken times queues i (and_left (holds_work queues i) _ t) (λ j lt w.
                  elim (Bool-cases (less (get_or times j zero_num) (get_or times i zero_num))) [
                    | inl under ↦ absurd (
                        false≢true (
                          sym (least j lt w)
                          ∙ less_trans (get_or times j zero_num) (get_or times i zero_num)
                              (get_or times b zero_num) under
                              (and_right (holds_work queues i) _ t)))
                    | inr over ↦ over
                  ]))
          | inr f ↦
              subst (BestOf times queues (i + 1)) (ap (λ t. if t then some i else some b) (sym f)) (
                omega (arith, lt),
                work,
                up_to {P = NotBelow times queues b} i least (λ w. rest (holds_work queues i) _ w f),
              )
        ]
    where
      rest : (x y : Bool) → x ≡ true → (x && y) ≡ false → y ≡ false
      rest true y w e = e
      rest false y w e = absurd (false≢true w)

  best_from-BestOf :
      (times : List Num) (queues : List QueueSnapshot) (rounds i n : ℕ) (best : Option ℕ)
      → i + rounds ≡ n
      → BestOf times queues i best
      → BestOf times queues n (best_from numbers times queues rounds i best)
  unfolding best_from
  best_from-BestOf times queues zero i n best e h =
      subst (λ m. BestOf times queues m best) {x = i} {y = n} (omega (arith, e)) h
  best_from-BestOf times queues (suc rounds) i n best e h =
      best_from-BestOf times queues rounds (i + 1) n (better numbers times queues best i)
        (omega arith) (better-BestOf times queues i best h)

  abbrev times_of : WeightedFair numbers → List QueueSnapshot → List Num
  times_of p queues = sized numbers (length queues) zero_num p.virtual_time

  -- The queue served is charged for its batch, and no queue with work has a smaller virtual time.
  pub record Serves (p : WeightedFair numbers) (queues : List QueueSnapshot) (i : ℕ) : Type 0 where
    pub decision :
        (decide numbers p queues).0 ≡ chosen i (min (queue_at queues i).approx_count p.max_batch)
    pub charged :
        (decide numbers p queues).1.virtual_time
        ≡ set (times_of p queues) i (
            add (get_or (times_of p queues) i zero_num) (
              divide
                (of_count (min (queue_at queues i).approx_count p.max_batch))
                (get_or (sized numbers (length queues) one_num p.weights) i one_num)))
    pub inside : i < length queues
    pub has_work : holds_work queues i ≡ true
    pub least : (j : ℕ) → j < length queues → NotBelow (times_of p queues) queues i j

  pub record Rests (p : WeightedFair numbers) (queues : List QueueSnapshot) : Type 0 where
    pub decision : (decide numbers p queues).0 ≡ all_empty
    pub kept : (decide numbers p queues).1.virtual_time ≡ times_of p queues
    pub empty : (j : ℕ) → j < length queues → holds_work queues j ≡ false

  -- The policy serves a queue with work than which no queue with work has a smaller virtual time, at
  -- most `max_batch` of what it holds, and adds that batch over its weight to its virtual time; or no
  -- queue has work, it idles, and the times stay.
  pub weighted_fair_choice :
      (p : WeightedFair numbers) (queues : List QueueSnapshot)
      → ((i : ℕ) × Serves p queues i) ⊎ Rests p queues
  unfolding decide
  weighted_fair_choice p queues =
      elim (Option-cases (best_from numbers (times_of p queues) queues (length queues) 0 none)) [
        | inl e ↦
            let rests : BestOf (times_of p queues) queues (length queues) none =
              subst (BestOf (times_of p queues) queues (length queues)) e (found p queues) in
            inr (record { decision = ground (arith, e); kept = ground (arith, e); empty = rests })
        | inr (i, e) ↦
            let (lt, work, least) : BestOf (times_of p queues) queues (length queues) (some i) =
              subst (BestOf (times_of p queues) queues (length queues)) e (found p queues) in
            inl (
              i,
              record {
                decision = ground (arith, e);
                charged = ground (arith, e);
                inside = lt;
                has_work = work;
                least = least;
              },
            )
      ]
    where
      found :
          (p : WeightedFair numbers) (queues : List QueueSnapshot)
          → BestOf
              (times_of p queues)
              queues
              (length queues)
              (best_from numbers (times_of p queues) queues (length queues) 0 none)
      found p queues =
          best_from-BestOf (times_of p queues) queues (length queues) 0 (length queues) none
            (omega arith) (λ j lt. absurd (omega (arith, lt)))
