-- ===== src/Feedback/Debounce.antt =====
-- The feedback loop switches plans only after the same plan was proposed in a row often enough.
use mathlib.Core.Bool.{false≢true}
use mathlib.Core.Path.{ap₂, subst}
use storage_engine.Prelude.{
  ℕ, zero, suc, ◌+◌, ◌≤◌, ◌<◌, ◌≡◌, refl, sym, ap, ◌∙◌, inl, inr, Bool, true, false, ◌&&◌, Option,
  none, some, List, [], ◌∷◌, ◌==◌, ==_iff, leb, if◌then◌else◌, add_word, word, take, drop, get_or,
  replicate, arith, Bool-cases, Option-cases, and_left, and_right,
}
use storage_engine.Feedback.{
  DispatchStrategy, direct_all, dispatch_single, dispatch_multiple, mixed, code, DispatchPlan,
  same_plan, FeedbackLoop, apply_plan, Sample, debounce, counted, execute, consider, tick, make,
  bind_workers, EngineQueue,
}

code-injective : (a b : DispatchStrategy) → code a ≡ code b → a ≡ b
unfolding code
code-injective direct_all direct_all e = refl
code-injective dispatch_single dispatch_single e = refl
code-injective dispatch_multiple dispatch_multiple e = refl
code-injective mixed mixed e = refl
code-injective a b e = absurd (omega (arith, e))

same_plan-≡ : (p q : DispatchPlan) → same_plan p q ≡ true → p ≡ q
unfolding same_plan
same_plan-≡ p q e =
    let strategies = code p.strategy == code q.strategy in
    let direct = p.direct_workers == q.direct_workers in
    let threads = p.dispatch_threads == q.dispatch_threads in
    let consumers = p.consumers_per_dispatch == q.consumers_per_dispatch in
    let e3 : (strategies && direct && threads) ≡ true =
      and_left (strategies && direct && threads) consumers e in
    let e2 : (strategies && direct) ≡ true = and_left (strategies && direct) threads e3 in
    let same_strategy : p.strategy ≡ q.strategy =
      code-injective p.strategy q.strategy
        ((==_iff (code p.strategy) (code q.strategy)).0 (and_left strategies direct e2)) in
    let same_direct : p.direct_workers ≡ q.direct_workers =
      (==_iff p.direct_workers q.direct_workers).0 (and_right strategies direct e2) in
    let same_threads : p.dispatch_threads ≡ q.dispatch_threads =
      (==_iff p.dispatch_threads q.dispatch_threads).0
        (and_right (strategies && direct) threads e3) in
    let same_consumers : p.consumers_per_dispatch ≡ q.consumers_per_dispatch =
      (==_iff p.consumers_per_dispatch q.consumers_per_dispatch).0
        (and_right (strategies && direct && threads) consumers e) in
    λ i. record {
      strategy = same_strategy i;
      direct_workers = same_direct i;
      dispatch_threads = same_threads i;
      consumers_per_dispatch = same_consumers i;
    }

-- What the decider said at the ticks that were not too short, the newest first.
abbrev pub Log : Type 0
Log = List (Option DispatchPlan)

unfoldable pub heard : Sample → FeedbackLoop → Log → Log
heard sample s log = if sample.too_short then log else sample.decide s.current_plan ∷ log

-- The newest `n` verdicts are the plan.
abbrev pub Streak : DispatchPlan → ℕ → Log → Type 0
Streak p n log = take n log ≡ replicate n (some p)

abbrev pub Tracks : Option DispatchPlan → ℕ → Log → Type 0
Tracks none n log = n ≡ 0
Tracks (some p) n log = Streak p n log

pub record IsValid (s : FeedbackLoop) (log : Log) : Type 0 where
  pub tracks : Tracks s.pending_plan s.consecutive_same log
  pub bounded : s.consecutive_same ≤ s.consecutive_samples

cons_head : {A : Type 0} {x y : A} {xs ys : List A} → x ∷ xs ≡ y ∷ ys → x ≡ y
cons_head {A = A} {x = x} {xs = xs} e = ap (λ l. get_or l 0 x) e

cons_tail : {A : Type 0} {x y : A} {xs ys : List A} → x ∷ xs ≡ y ∷ ys → xs ≡ ys
cons_tail e = ap (drop 1) e

shorter : (m n : ℕ) (p : DispatchPlan) (log : Log) → m ≤ n → Streak p n log → Streak p m log
shorter zero n p log le e = refl
shorter (suc m) zero p log le e = absurd (omega (arith, le))
shorter (suc m) (suc n) p [] le e = cc
shorter (suc m) (suc n) p (v ∷ log) le e =
    ap₂ ◌∷◌ (cons_head e) (shorter m n p log (omega (arith, le)) (cons_tail e))

debounce-Streak :
    (pending : Option DispatchPlan) (n : ℕ) (plan : DispatchPlan) (log : Log)
    → Tracks pending n log
    → n + 1 < word
    → Streak (debounce pending n plan).0 (debounce pending n plan).1 (some plan ∷ log)
unfolding debounce
debounce-Streak none n plan log e bound = refl
debounce-Streak (some p) n plan log e bound = elim (Bool-cases (same_plan p plan)) [
  | inl same ↦ rw same (
      let next : add_word n 1 ≡ suc n = omega (arith, bound) in
      rw next (ap₂ ◌∷◌ (ap some (sym (same_plan-≡ p plan same))) e))
  | inr other ↦ rw other refl
]

-- What a tick does, the verdicts being `log` before and `heard sample s log` behind.
pub record Ticked (s : FeedbackLoop) (log' : Log) (res : Bool × FeedbackLoop) : Type 0 where
  pub valid : IsValid res.1 log'
  pub samples : res.1.consecutive_samples ≡ s.consecutive_samples
  pub streak : res.0 ≡ true → Streak res.1.current_plan s.consecutive_samples log'
  pub kept : res.0 ≡ false → res.1.current_plan ≡ s.current_plan

execute-Ticked :
    (plan : DispatchPlan) (s : FeedbackLoop) (log : Log)
    → Streak plan s.consecutive_samples log
    → Ticked s log (execute plan s)
unfolding execute apply_plan
execute-Ticked plan s log streak = elim (Option-cases s.workers) [
  | inl e ↦ rw e (record {
    valid = record { tracks = refl; bounded = omega arith };
    samples = refl;
    streak = λ q. absurd (false≢true q);
    kept = λ q. refl;
  })
  | inr (queues, e) ↦ rw e (record {
    valid = record { tracks = refl; bounded = omega arith };
    samples = refl;
    streak = λ q. streak;
    kept = λ q. absurd (false≢true (sym q));
  })
]

consider-Ticked :
    (plan : DispatchPlan) (s : FeedbackLoop) (log : Log)
    → IsValid s log
    → s.consecutive_samples + 1 < word
    → Ticked s (some plan ∷ log) (consider plan s)
unfolding consider
consider-Ticked plan s log v bound =
    let n = (debounce s.pending_plan s.consecutive_same plan).1 in
    let p = (debounce s.pending_plan s.consecutive_same plan).0 in
    let streak : Streak p n (some plan ∷ log) =
      debounce-Streak s.pending_plan s.consecutive_same plan log v.tracks
        (omega (arith, v.bounded, bound)) in
    elim (Bool-cases (leb s.consecutive_samples n)) [
      | inl e ↦ rw e (
          execute-Ticked p s (some plan ∷ log)
            (shorter s.consecutive_samples n p (some plan ∷ log) (ground (arith, e)) streak))
      | inr e ↦ rw e (record {
        valid = record { tracks = streak; bounded = ground (arith, e) };
        samples = refl;
        streak = λ q. absurd (false≢true q);
        kept = λ q. refl;
      })
    ]

tick-Ticked :
    (sample : Sample) (s : FeedbackLoop) (log : Log)
    → IsValid s log
    → s.consecutive_samples + 1 < word
    → Ticked s (heard sample s log) (tick sample s)
unfolding tick heard
tick-Ticked sample s log v bound = elim (Bool-cases sample.too_short) [
  | inl e ↦ rw e (record {
    valid = record { tracks = v.tracks; bounded = v.bounded };
    samples = refl;
    streak = λ q. absurd (false≢true q);
    kept = λ q. refl;
  })
  | inr e ↦ elim (Option-cases (sample.decide s.current_plan)) [
    | inl f ↦
        rw (e, f)
          (record {
            valid = record { tracks = refl; bounded = omega arith };
            samples = refl;
            streak = λ q. absurd (false≢true q);
            kept = λ q. refl;
          })
    | inr (plan, f) ↦
        let t : Ticked (counted s) (some plan ∷ log) (consider plan (counted s)) =
          consider-Ticked plan (counted s) log (record { tracks = v.tracks; bounded = v.bounded })
            bound in
        rw (e, f)
          (record { valid = t.valid; samples = t.samples; streak = t.streak; kept = t.kept })
  ]
]

-- A loop's ticks, each with what was heard before it.
unfoldable pub run : List Sample → FeedbackLoop → Log → FeedbackLoop × Log
run [] s log = (s, log)
run (sample ∷ samples) s log = run samples (tick sample s).1 (heard sample s log)

run-IsValid :
    (samples : List Sample) (s : FeedbackLoop) (log : Log)
    → IsValid s log
    → s.consecutive_samples + 1 < word
    → IsValid (run samples s log).0 (run samples s log).1
      × ((run samples s log).0.consecutive_samples ≡ s.consecutive_samples)
unfolding run
run-IsValid [] s log v bound = (v, refl)
run-IsValid (sample ∷ samples) s log v bound =
    let t : Ticked s (heard sample s log) (tick sample s) = tick-Ticked sample s log v bound in
    let (valid, same) =
      run-IsValid samples (tick sample s).1 (heard sample s log) t.valid
        (omega (arith, t.samples, bound)) in
    (valid, same ∙ t.samples)

started :
    (count : ℕ) (queues : Option (List EngineQueue))
    → IsValid (bind_workers queues (make count)) []
      × ((bind_workers queues (make count)).consecutive_samples ≡ count)
unfolding bind_workers make
started count none = (record { tracks = refl; bounded = omega arith }, refl)
started count (some queues) = (record { tracks = refl; bounded = omega arith }, refl)

-- From a new loop on, with workers bound or not, a tick that reports a switch has just heard the plan
-- it switched to, for the `consecutive_samples`-th time in a row, from the ticks that were not too
-- short; and a tick that reports none leaves the current plan.
pub switch_needs-Streak :
    (count : ℕ) (queues : Option (List EngineQueue)) (samples : List Sample) (sample : Sample)
    → count + 1 < word
    → (let (s, log) = run samples (bind_workers queues (make count)) [] in
        ((tick sample s).0 ≡ true
          → Streak (tick sample s).1.current_plan count (heard sample s log))
        × ((tick sample s).0 ≡ false → (tick sample s).1.current_plan ≡ s.current_plan))
switch_needs-Streak count queues samples sample bound =
    let (valid, samples_0) = started count queues in
    let (v, same) =
      run-IsValid samples (bind_workers queues (make count)) [] valid
        (omega (arith, samples_0, bound)) in
    let s = (run samples (bind_workers queues (make count)) []).0 in
    let log = (run samples (bind_workers queues (make count)) []).1 in
    let t : Ticked s (heard sample s log) (tick sample s) =
      tick-Ticked sample s log v (omega (arith, same, samples_0, bound)) in
    (
      λ e.
          subst (λ n. Streak (tick sample s).1.current_plan n (heard sample s log))
            (same ∙ samples_0) (t.streak e),
      t.kept,
    )
