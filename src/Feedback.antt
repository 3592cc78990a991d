-- ===== src/Feedback.antt =====
-- src/runtime/feedback_loop.h and .cc, with DispatchPlan of dispatch_types.h and the record of
-- decisions of strategy_executor.h (without its time and figures). What a tick measures and what the
-- decider makes of it are the tick's input.
pub mod Debounce
pub mod Decider
pub mod Switching
use storage_engine.Prelude.{
  ℕ, zero, suc, ◌+◌, Bool, true, false, ◌&&◌, Option, none, some, List, [], ◌∷◌, ◌++◌, ◌==◌, ltb,
  leb, if◌then◌else◌, add_word, length,
}

pub data DispatchStrategy : Type 0 where
  direct_all dispatch_single dispatch_multiple mixed : DispatchStrategy

unfoldable pub code : DispatchStrategy → ℕ
code direct_all = 0
code dispatch_single = 1
code dispatch_multiple = 2
code mixed = 3

pub record DispatchPlan : Type 0 where
  pub strategy : DispatchStrategy
  pub direct_workers : ℕ
  pub dispatch_threads : ℕ
  pub consumers_per_dispatch : ℕ

unfoldable pub same_plan : DispatchPlan → DispatchPlan → Bool
same_plan p q =
    (code p.strategy == code q.strategy)
    && (p.direct_workers == q.direct_workers)
    && (p.dispatch_threads == q.dispatch_threads)
    && (p.consumers_per_dispatch == q.consumers_per_dispatch)

-- The engine queue of a worker: a local queue, which is asked for with 200000 and always has 1024
-- slots, or a ring of 65536.
pub data EngineQueue : Type 0 where
  direct_queue dispatch_queue : EngineQueue

pub record Decision : Type 0 where
  pub from : DispatchPlan
  pub to : DispatchPlan

pub record FeedbackLoop : Type 0 where
  pub workers : Option (List EngineQueue)
  pub consecutive_samples : ℕ
  pub current_plan : DispatchPlan
  pub pending_plan : Option DispatchPlan
  pub consecutive_same : ℕ
  pub tick_count : ℕ
  pub history : List Decision

unfoldable pub make : ℕ → FeedbackLoop
make samples = record {
  workers = none;
  consecutive_samples = samples;
  current_plan = record {
    strategy = direct_all;
    direct_workers = 4;
    dispatch_threads = 0;
    consumers_per_dispatch = 0;
  };
  pending_plan = none;
  consecutive_same = 0;
  tick_count = 0;
  history = [];
}

unfoldable pub bind_workers : Option (List EngineQueue) → FeedbackLoop → FeedbackLoop
bind_workers none s = record s { workers = none }
bind_workers (some queues) s = record s {
  workers = some queues;
  current_plan = record s.current_plan {
    direct_workers = 0;
    consumers_per_dispatch = length queues;
  };
}

-- The queues of the workers from number `i` on.
unfoldable pub swap_queues : DispatchPlan → ℕ → List EngineQueue → List EngineQueue
swap_queues plan i [] = []
swap_queues plan i (queue ∷ queues) =
    (if ltb i plan.direct_workers then direct_queue else dispatch_queue)
    ∷ swap_queues plan (i + 1) queues

unfoldable pub apply_plan : DispatchPlan → FeedbackLoop → Bool × FeedbackLoop
apply_plan plan s = elim s.workers [
  | none ↦ (false, s)
  | some queues ↦ (true, record s { workers = some (swap_queues plan 0 queues) })
]

-- What a tick finds: whether less than a second passed since the last sample, and the plan that the
-- decider proposes against a current one, if any.
pub record Sample : Type 0 where
  pub too_short : Bool
  pub decide : DispatchPlan → Option DispatchPlan

-- The debouncing: the pending plan and how often it was proposed in a row.
unfoldable pub debounce : Option DispatchPlan → ℕ → DispatchPlan → DispatchPlan × ℕ
debounce none same plan = (plan, 1)
debounce (some pending) same plan =
    if same_plan pending plan then (pending, add_word same 1) else (plan, 1)

abbrev pub counted : FeedbackLoop → FeedbackLoop
counted s = record s { tick_count = add_word s.tick_count 1 }

abbrev pub cleared : FeedbackLoop → FeedbackLoop
cleared s = record s { pending_plan = none; consecutive_same = 0 }

-- The plan was proposed often enough.
unfoldable pub execute : DispatchPlan → FeedbackLoop → Bool × FeedbackLoop
execute plan s =
    let (ok, s') = apply_plan plan s in
    if ok
    then (
      true,
      cleared (record s' {
        history = s'.history ++ (record { from = s'.current_plan; to = plan } ∷ []);
        current_plan = plan;
      }),
    )
    else (false, cleared s')

unfoldable pub consider : DispatchPlan → FeedbackLoop → Bool × FeedbackLoop
consider plan s =
    let (pending, same) = debounce s.pending_plan s.consecutive_same plan in
    if leb s.consecutive_samples same
    then execute pending s
    else (false, record s { pending_plan = some pending; consecutive_same = same })

unfoldable pub tick : Sample → FeedbackLoop → Bool × FeedbackLoop
tick sample s =
    if sample.too_short then (false, counted s) else elim (sample.decide s.current_plan) [
      | none ↦ (false, cleared (counted s))
      | some plan ↦ consider plan (counted s)
    ]
