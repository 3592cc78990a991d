-- ===== src/Scheduler/PolicyRound.antt =====
-- When a round of run in scheduler.cc goes idle.
use mathlib.Core.Path.{subst}
use storage_engine.Prelude.{
  ℕ, zero, suc, ◌+◌, ◌<◌, ◌≡◌, ◌≢◌, refl, sym, ap, ◌∙◌, inl, inr, Bool, true, false, some, List, [],
  ◌∷◌, ◌==◌, length, get_elem?, All, arith, Bool-cases,
}
use storage_engine.Work.{WorkItem}
use storage_engine.Interface.{WorkQueue, SchedulingPolicy, QueueLaws, PolicyLaws}
use storage_engine.Policy.Types.{QueueSnapshot, ScheduleDecision}
use storage_engine.Idle.{EventFd, Config}
use storage_engine.Scheduler.{
  Scheduler, drain_p0, level_of, snapshots, RoundEnd, next, idles, idle_without_waiter,
  serve_decision, decide_round, policy_round, polls_once,
}
use storage_engine.Scheduler.Drain.{Quiet, Served, drain_empties}
use storage_engine.Scheduler.BusyRound.{Holds}

module _ (events : EventFd) (Q P W : Type 0) (ops : WorkQueue Q) (rules : SchedulingPolicy P)
    (execute : WorkItem → Scheduler events Q P W → Scheduler events Q P W)
    (exec_time : WorkItem → ℕ) (touch : WorkItem → W → W) (quiet : Quiet events Q P W execute touch)
    (laws : QueueLaws ops) (policy_laws : PolicyLaws rules) where
  open laws use {IsValid, contents, counts}
  open policy_laws use {Ready, rests}

  abbrev snaps : Scheduler events Q P W → ℕ → List Q → List QueueSnapshot
  snaps s i qs = snapshots events Q P W ops rules execute exec_time s i qs

  length-snapshots :
      (s : Scheduler events Q P W) (i : ℕ) (qs : List Q) → length (snaps s i qs) ≡ length qs
  unfolding snapshots
  length-snapshots s i [] = refl
  length-snapshots s i (q ∷ qs) = ap suc (length-snapshots s (i + 1) qs)

  snapshot_zero :
      (s : Scheduler events Q P W) (i k : ℕ) (qs : List Q) (q : Q)
      → All (λ snap. snap.approx_count ≡ 0) (snaps s i qs)
      → get_elem? qs k ≡ some q
      → s.affine_idx ≢ i + k
      → ops.approx_count q ≡ 0
  unfolding snapshots
  snapshot_zero s i k [] q all e ne = absurd (ground (arith, e))
  snapshot_zero s i zero (x ∷ qs) q (here, all) e ne =
      let other : (i == s.affine_idx) ≡ false = ground (arith, ne) in
      let same : x ≡ q = cc (e) in ap ops.approx_count (sym same) ∙ sym (rw other refl) ∙ here
  snapshot_zero s i (suc k) (x ∷ qs) q (here, all) e ne =
      snapshot_zero s (i + 1) k qs q all e (λ q. ne (q ∙ omega arith))

  -- The round is over by enter_idle, on whatever outcome of it.
  abbrev pub WentIdle : RoundEnd events Q P W ops rules execute exec_time → Type 0
  WentIdle (next s) = ⊥
  WentIdle (idles s out) = Unit
  WentIdle idle_without_waiter = Unit

  module _ (now : ℕ → ℕ) (fuel : ℕ) (cfg : Config) (arrives : ℕ → Bool) where
    abbrev decides : Scheduler events Q P W → RoundEnd events Q P W ops rules execute exec_time
    decides s = decide_round events Q P W ops rules execute exec_time now fuel cfg arrives s

    abbrev choice : Scheduler events Q P W → ScheduleDecision × P
    choice s = rules.decide s.policy (snaps s 0 s.queues) s.stats

    idle_decided : (s : Scheduler events Q P W) → WentIdle (decides s) → (choice s).0.idle ≡ true
    unfolding decide_round
    idle_decided s w = elim (Bool-cases (choice s).0.idle) [
      | inl e ↦ e
      | inr e ↦
          let on : decides s
              ≡ next (
                  serve_decision events Q P W ops rules execute exec_time now fuel (choice s).0
                    (polls_once events Q P W ops rules execute exec_time (choice s) s)) =
            rw (decide_round, e) refl in
          absurd (subst WentIdle on w)
    ]

    none_held : (items : List WorkItem) → length items ≡ 0 → items ≡ []
    none_held [] e = refl
    none_held (x ∷ items) e = absurd (omega (arith, e))

    idle_means_empty :
        (s : Scheduler events Q P W)
        → Ready s.policy (length s.queues)
        → WentIdle (decides s)
        → (j : ℕ) (other : List WorkItem) → s.affine_idx ≢ j
        → Holds events Q P W ops rules execute exec_time touch quiet laws j other s
        → other ≡ []
    idle_means_empty s ready w j other ne h =
        let all =
          rests s.policy (snaps s 0 s.queues) s.stats
            (subst (Ready s.policy) (sym (length-snapshots s 0 s.queues)) ready)
            (idle_decided s w) in
        let zero_count =
          snapshot_zero s 0 j s.queues h.queue all h.at (λ e. ne (e ∙ omega arith)) in
        none_held other (ap length (sym h.held) ∙ sym (counts h.queue h.valid) ∙ zero_count)

    -- With tasks that touch only the world outside, and fuel for what the affine queue holds: a round of
    -- the policy loop ends in idle only if every queue but the affine one is empty, and the affine one
    -- has been drained.
    pub idles_only_when_empty :
        (s : Scheduler events Q P W) (items : List WorkItem)
        → Holds events Q P W ops rules execute exec_time touch quiet laws s.affine_idx items s
        → length items < fuel
        → Ready s.policy (length s.queues)
        → WentIdle (policy_round events Q P W ops rules execute exec_time now fuel cfg arrives s)
        → ((j : ℕ) (other : List WorkItem)
            → s.affine_idx ≢ j
            → Holds events Q P W ops rules execute exec_time touch quiet laws j other s
            → other ≡ [])
          × ((s1 : Scheduler events Q P W) × (drain_p0 events Q P W ops rules execute exec_time now
                  fuel s
                ≡ some s1)
              × Served events Q P W ops rules execute exec_time touch quiet laws s.affine_idx items
                  [] s s1)
    unfolding policy_round
    idles_only_when_empty s items h enough ready w =
        let (s1, runs, v) =
          drain_empties events Q P W ops rules execute exec_time touch quiet laws now
            (level_of events Q P W ops rules execute exec_time s.perf) fuel s h.queue h.at h.valid
            (omega (arith, enough, ap length h.held)) in
        let on : policy_round events Q P W ops rules execute exec_time now fuel cfg arrives s
            ≡ decides s1 =
          rw (policy_round, runs) refl in
        let ready1 : Ready s1.policy (length s1.queues) =
          subst (λ p. Ready p (length s1.queues)) (sym v.ran.policy)
            (subst (Ready s.policy) (sym v.many) ready) in
        (
          (λ j other ne o.
              idle_means_empty s1 ready1 (subst WentIdle on w) j other
                (λ e. ne (sym v.ran.affine ∙ e))
                (record {
                  queue = o.queue;
                  at = v.others j ne ∙ o.at;
                  held = o.held;
                  valid = o.valid;
                })),
          (
            s1,
            runs,
            subst
                (λ xs.
                  Served events Q P W ops rules execute exec_time touch quiet laws s.affine_idx xs
                    [] s s1)
                h.held v,
          ),
        )
