-- ===== src/Policy/Factory.antt =====
-- src/runtime/policy_factory.h and .cc, and the policies it makes as instances of the interface of
-- scheduling_policy.h, whose virtual call is the case of the policy. The exception that it throws is a
-- result.
use Prim.Native.String.{String}
use mathlib.Core.Bool.{true≢false}
use text.Mathlib.Text.{◌==◌ as same_text}
use text.Mathlib.TextEquality.{eq_iff}
use storage_engine.Prelude.{
  ℕ, suc, ◌+◌, ◌<◌, ◌≡◌, ◌≢◌, refl, sym, ap, ◌∙◌, inl, inr, true, false, List, [], ◌∷◌, length, All,
  arith, word, Bool-cases, if◌then◌else◌,
}
use storage_engine.Policy.Types.{QueueSnapshot, ScheduleDecision, holds_work}
use storage_engine.Policy.StrictPriority.{StrictPriority, make}
use storage_engine.Policy.StrictPriority as Strict
use storage_engine.Policy.StrictPriority.Choice.{strict_priority-Picks}
use storage_engine.Policy.RoundRobin.{RoundRobin}
use storage_engine.Policy.RoundRobin as Round
use storage_engine.Policy.RoundRobin.Choice.{round_robin-Serves}
use storage_engine.Policy.WeightedFair.{Numbers, WeightedFair}
use storage_engine.Policy.WeightedFair as Fair
use storage_engine.Policy.WeightedFair.Choice.{weighted_fair_choice}
use storage_engine.Interface.{SchedulingPolicy, PolicyLaws}

module _ (numbers : Numbers) where
  open numbers use {Num}

  pub record PolicyConfig : Type 0 where
    pub name : String
    pub weights : List Num
    pub max_batch : ℕ

  pub data Policy : Type 0 where
    strict_priority : StrictPriority → Policy
    weighted_fair : WeightedFair numbers → Policy
    round_robin : RoundRobin → Policy

  pub data Made : Type 0 where
    made : Policy → Made
    unknown_policy : (name : String) → Made

  unfoldable pub make_policy : PolicyConfig → Made
  make_policy cfg =
      if same_text cfg.name "strict_priority"
      then made (strict_priority (make cfg.max_batch))
      else (if same_text cfg.name "weighted_fair"
          then made (
              weighted_fair
                (record { virtual_time = []; weights = cfg.weights; max_batch = cfg.max_batch }))
          else (if same_text cfg.name "round_robin"
              then made (round_robin (record { last_index = 0; max_batch = cfg.max_batch }))
              else unknown_policy cfg.name))

  unfoldable pub decide : Policy → List QueueSnapshot → ScheduleDecision × Policy
  decide (strict_priority p) queues =
      let (d, p') = Strict.decide p queues in (d, strict_priority p')
  decide (weighted_fair p) queues =
      let (d, p') = Fair.decide numbers p queues in (d, weighted_fair p')
  decide (round_robin p) queues = let (d, p') = Round.decide p queues in (d, round_robin p')

  -- None of the policies overrides on_task_completed.
  abbrev pub policies : SchedulingPolicy Policy
  policies = record { decide = λ p queues stats. decide p queues; on_task_completed = λ q ns p. p }

  -- What `name` of the policy returns.
  abbrev pub name_of : Policy → String
  name_of (strict_priority p) = "strict_priority"
  name_of (weighted_fair p) = "weighted_fair"
  name_of (round_robin p) = "round_robin"

  abbrev pub max_batch_of : Policy → ℕ
  max_batch_of (strict_priority p) = p.max_batch
  max_batch_of (weighted_fair p) = p.max_batch
  max_batch_of (round_robin p) = p.max_batch

  -- The outcome that the configuration calls for.
  abbrev pub AsConfigured : PolicyConfig → Made → Type 0
  AsConfigured cfg (made p) = (name_of p ≡ cfg.name) × (max_batch_of p ≡ cfg.max_batch)
  AsConfigured cfg (unknown_policy name) = (name ≡ cfg.name) × ((p : Policy) → name_of p ≢ cfg.name)

  -- The factory makes a policy that has the name and the batch size it was asked for, or throws an
  -- exception with the name, and then no policy has that name.
  pub policy_made-AsConfigured : (cfg : PolicyConfig) → AsConfigured cfg (make_policy cfg)
  unfolding make_policy make
  policy_made-AsConfigured cfg = elim (Bool-cases (same_text cfg.name "strict_priority")) [
    | inl e ↦ rw e (sym ((eq_iff cfg.name "strict_priority").0 e), refl)
    | inr strict ↦ elim (Bool-cases (same_text cfg.name "weighted_fair")) [
      | inl e ↦ rw (strict, e) (sym ((eq_iff cfg.name "weighted_fair").0 e), refl)
      | inr fair ↦ elim (Bool-cases (same_text cfg.name "round_robin")) [
        | inl e ↦ rw (strict, fair, e) (sym ((eq_iff cfg.name "round_robin").0 e), refl)
        | inr round ↦ rw (strict, fair, round) (refl, nobody strict fair round)
      ]
    ]
  ]
    where
      nobody :
          same_text cfg.name "strict_priority" ≡ false
          → same_text cfg.name "weighted_fair" ≡ false
          → same_text cfg.name "round_robin" ≡ false
          → (p : Policy) → name_of p ≢ cfg.name
      nobody strict fair round (strict_priority p) e =
          true≢false (sym ((eq_iff cfg.name "strict_priority").1 (sym e)) ∙ strict)
      nobody strict fair round (weighted_fair p) e =
          true≢false (sym ((eq_iff cfg.name "weighted_fair").1 (sym e)) ∙ fair)
      nobody strict fair round (round_robin p) e =
          true≢false (sym ((eq_iff cfg.name "round_robin").1 (sym e)) ∙ round)

  empty_queues :
      (queues : List QueueSnapshot)
      → ((j : ℕ) → j < length queues → holds_work queues j ≡ false)
      → All (λ snap. snap.approx_count ≡ 0) queues
  empty_queues [] e = tt
  empty_queues (q ∷ queues) e = (
    ground (arith, e 0 (omega arith)),
    empty_queues queues (λ j lt. e (suc j) (omega (arith, lt))),
  )

  abbrev pub Ready : Policy → ℕ → Type 0
  Ready (strict_priority p) n = p.last_idx + n < word
  Ready (weighted_fair p) n = Unit
  Ready (round_robin p) n = p.last_index + n < word

  pub rests :
      (p : Policy) (queues : List QueueSnapshot)
      → Ready p (length queues)
      → (decide p queues).0.idle ≡ true
      → All (λ snap. snap.approx_count ≡ 0) queues
  unfolding decide
  rests (strict_priority p) queues ready e = elim (strict_priority-Picks p queues ready) [
    | inl (i, picks) ↦ absurd (ground (arith, e, ap (λ d. d.idle) picks.decided))
    | inr r ↦ empty_queues queues r.empty
  ]
  rests (weighted_fair p) queues ready e = elim (weighted_fair_choice numbers p queues) [
    | inl (i, serves) ↦ absurd (ground (arith, e, ap (λ d. d.idle) serves.decision))
    | inr r ↦ empty_queues queues r.empty
  ]
  rests (round_robin p) queues ready e = elim (round_robin-Serves p queues ready) [
    | inl (i, serves) ↦ absurd (ground (arith, e, ap (λ out. out.0.idle) serves.decided))
    | inr r ↦ empty_queues queues r.empty
  ]

  abbrev pub policy_laws : PolicyLaws policies
  policy_laws = record { Ready = Ready; rests = λ p queues stats ready e. rests p queues ready e }
