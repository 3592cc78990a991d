-- ===== src/Feedback/Switching.antt =====
-- When the loop of feedback_loop.cc does switch, and the decider of strategy_decider.h that makes it
-- switch again.
use mathlib.Core.Path.{subst}
use storage_engine.Prelude.{
  ℕ, zero, suc, ◌+◌, ◌≤◌, ◌<◌, ◌≡◌, refl, sym, ap, ◌∙◌, Bool, true, false, none, some, List, leb,
  add_word, word, arith,
}
use storage_engine.Feedback.{
  DispatchPlan, EngineQueue, FeedbackLoop, Sample, same_plan, debounce, counted, swap_queues,
  apply_plan, execute, consider, tick,
}
use storage_engine.Feedback.Decider.{Doubles, StrategyDecider, Capacity, single_plan, decide}

-- So many ticks, one at least, of the same sample: the verdict of the last one, and the loop.
abbrev pub ticks : ℕ → Sample → FeedbackLoop → Bool × FeedbackLoop
ticks zero sample s = tick sample s
ticks (suc more) sample s = ticks more sample (tick sample s).1

-- The sample calls for the plan whatever the current one is.
pub record Calls (sample : Sample) (plan : DispatchPlan) : Type 0 where
  pub long : sample.too_short ≡ false
  pub decided : (current : DispatchPlan) → sample.decide current ≡ some plan

-- Workers are bound, and nothing is pending.
pub record Settled (n : ℕ) (s : FeedbackLoop) : Type 0 where
  pub queues : List EngineQueue
  pub bound : s.workers ≡ some queues
  pub needed : s.consecutive_samples ≡ n
  pub none_pending : s.pending_plan ≡ none

-- The plan has been heard `k` times in a row.
record Heard (plan : DispatchPlan) (n k : ℕ) (s : FeedbackLoop) : Type 0 where
  queues : List EngineQueue
  bound : s.workers ≡ some queues
  needed : s.consecutive_samples ≡ n
  next : debounce s.pending_plan s.consecutive_same plan ≡ (plan, suc k)

pub record Switched (plan : DispatchPlan) (n : ℕ) (res : Bool × FeedbackLoop) : Type 0 where
  pub verdict : res.0 ≡ true
  pub plan_now : res.1.current_plan ≡ plan
  pub settled : Settled n res.1

same_plan_self : (p : DispatchPlan) → same_plan p p ≡ true
unfolding same_plan
same_plan_self p = ground arith

considered :
    (sample : Sample) (plan : DispatchPlan) (s : FeedbackLoop)
    → Calls sample plan
    → tick sample s ≡ consider plan (counted s)
unfolding tick
considered sample plan s c = rw (tick, c.long, c.decided s.current_plan) refl

execute-Switched :
    (plan : DispatchPlan) (n : ℕ) (s : FeedbackLoop) (queues : List EngineQueue)
    → s.workers ≡ some queues
    → s.consecutive_samples ≡ n
    → Switched plan n (execute plan s)
unfolding execute apply_plan
execute-Switched plan n s queues bound needed =
    rw (execute, apply_plan, bound)
      (record {
        verdict = refl;
        plan_now = refl;
        settled = record {
          queues = swap_queues plan 0 queues;
          bound = refl;
          needed = needed;
          none_pending = refl;
        };
      })

last_tick :
    (sample : Sample) (plan : DispatchPlan) (n k : ℕ) (s : FeedbackLoop)
    → Calls sample plan
    → Heard plan n k s
    → n ≤ suc k
    → Switched plan n (tick sample s)
unfolding consider
last_tick sample plan n k s c h enough =
    let yes_now : leb s.consecutive_samples (suc k) ≡ true = ground (arith, enough, h.needed) in
    let runs : tick sample s ≡ execute plan (counted s) =
      considered sample plan s c ∙ rw (consider, h.next, yes_now) refl in
    subst (Switched plan n) (sym runs)
      (execute-Switched plan n (counted s) h.queues h.bound h.needed)

next_tick :
    (sample : Sample) (plan : DispatchPlan) (n k : ℕ) (s : FeedbackLoop)
    → Calls sample plan
    → Heard plan n k s
    → suc k < n
    → n < word
    → Heard plan n (suc k) (tick sample s).1
unfolding consider debounce
next_tick sample plan n k s c h more small =
    let not_yet : leb s.consecutive_samples (suc k) ≡ false = ground (arith, more, h.needed) in
    let waits : FeedbackLoop = record (counted s) {
      pending_plan = some plan;
      consecutive_same = suc k;
    } in
    let runs : tick sample s ≡ (false, waits) =
      considered sample plan s c ∙ rw (consider, h.next, not_yet) refl in
    subst (λ t. Heard plan n (suc k) t.1) (sym runs)
      (record {
        queues = h.queues;
        bound = h.bound;
        needed = h.needed;
        next =
            rw (debounce, same_plan_self plan)
              (ap (λ t. (plan, t)) {x = add_word (suc k) 1} (omega (arith, more, small)));
      })

all_ticks :
    (sample : Sample) (plan : DispatchPlan) (n m k : ℕ) (s : FeedbackLoop)
    → Calls sample plan
    → suc (k + m) ≡ n
    → n < word
    → Heard plan n k s
    → Switched plan n (ticks m sample s)
all_ticks sample plan n zero k s c e small h = last_tick sample plan n k s c h (omega (arith, e))
all_ticks sample plan n (suc m) k s c e small h =
    all_ticks sample plan n m (suc k) (tick sample s).1 c (omega (arith, e)) small
      (next_tick sample plan n k s c h (omega (arith, e)) small)

-- A plan that each of `n` samples in a row calls for is in force after the last of them, where `n` is
-- the number that the loop is made to wait for, nothing was pending before and workers are bound; and
-- the loop is then as before them.
pub insistence-Switched :
    (sample : Sample) (plan : DispatchPlan) (m : ℕ) (s : FeedbackLoop)
    → Calls sample plan
    → suc m < word
    → Settled (suc m) s
    → Switched plan (suc m) (ticks m sample s)
unfolding debounce
insistence-Switched sample plan m s c small settled =
    all_ticks sample plan (suc m) m 0 s c (omega arith) small (record {
      queues = settled.queues;
      bound = settled.bound;
      needed = settled.needed;
      next = rw (debounce, settled.none_pending) refl;
    })

module _ (doubles : Doubles) where
  open doubles use {Num, add, less}

  -- What a tick makes of a capacity, whatever the decider's baseline.
  abbrev pub sample_of : Capacity doubles → ℕ → StrategyDecider doubles → Sample
  sample_of cap nic_queues d = record {
    too_short = false;
    decide = λ current. (decide doubles cap current nic_queues d).0;
  }

  -- While the load stays below the low mark, the loop switches to the single dispatcher once every so
  -- many samples, also when that plan is already in force.
  pub low_load_switches_again :
      (cap : Capacity doubles) (nic_queues m : ℕ) (d : StrategyDecider doubles) (s : FeedbackLoop)
      → less (add d.cfg.utilization_low d.cfg.hysteresis) cap.utilization ≡ false
      → less d.cfg.utilization_high cap.utilization ≡ false
      → less cap.utilization d.cfg.utilization_low ≡ true
      → suc m < word
      → Settled (suc m) s
      → Switched (single_plan doubles nic_queues) (suc m) (ticks m (sample_of cap nic_queues d) s)
        × Switched
            (single_plan doubles nic_queues)
            (suc m)
            (ticks m (sample_of cap nic_queues d) (ticks m (sample_of cap nic_queues d) s).1)
  unfolding decide
  low_load_switches_again cap nic_queues m d s below_band below_high low small settled =
      let calls : Calls (sample_of cap nic_queues d) (single_plan doubles nic_queues) = record {
        long = refl;
        decided = λ current. rw (decide, below_band, below_high, low) refl;
      } in
      let first =
        insistence-Switched (sample_of cap nic_queues d) (single_plan doubles nic_queues) m s calls
          small settled in
      (
        first,
        insistence-Switched (sample_of cap nic_queues d) (single_plan doubles nic_queues) m
            (ticks m (sample_of cap nic_queues d) s).1 calls small first.settled,
      )
