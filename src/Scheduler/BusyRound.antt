-- ===== src/Scheduler/BusyRound.antt =====
-- A round of run_busy in scheduler.cc serves every queue.
use mathlib.Core.Path.{subst}
use mathlib.Core.Bool.{true≢false}
use native.Mathlib.Decide.{ℕ_discrete}
use storage_engine.Prelude.{
  ℕ, zero, suc, ◌+◌, ◌≤◌, ◌<◌, ◌≡◌, ◌≢◌, refl, sym, ap, ◌∙◌, ◌⊎◌, inl, inr, Bool, true, false, ◌||◌,
  Option, none, some, List, [], ◌∷◌, ◌==◌, length, length-set, get_elem?, drop, arith, Bool-cases,
}
use storage_engine.Work.{WorkItem}
use storage_engine.Interface.{WorkQueue, SchedulingPolicy, QueueLaws}
use storage_engine.Metric.Perf.{PerfLevel}
use storage_engine.Idle.{EventFd}
use storage_engine.Scheduler.{
  Scheduler, max_batch_size, set_queue, drain_p0, level_of, serve, serve_others, served_all,
  busy_round,
}
use storage_engine.Scheduler.Drain.{
  Quiet, run_batch-Ran, drain_empties, get_elem?-set_self, get_elem?-set_ne,
}

module _ (events : EventFd) (Q P W : Type 0) (ops : WorkQueue Q) (rules : SchedulingPolicy P)
    (execute : WorkItem → Scheduler events Q P W → Scheduler events Q P W)
    (exec_time : WorkItem → ℕ) (touch : WorkItem → W → W) (quiet : Quiet events Q P W execute touch)
    (laws : QueueLaws ops) where
  open laws use {IsValid, contents, batch}

  -- Queue `j` is there and holds `items`.
  pub record Holds (j : ℕ) (items : List WorkItem) (s : Scheduler events Q P W) : Type 0 where
    pub queue : Q
    pub at : get_elem? s.queues j ≡ some queue
    pub held : contents queue ≡ items
    pub valid : IsValid queue

  -- The queues are where they were.
  pub record InPlace (s s' : Scheduler events Q P W) : Type 0 where
    pub affine : s'.affine_idx ≡ s.affine_idx
    pub disk : s'.disk_io_idx ≡ s.disk_io_idx
    pub many : length s'.queues ≡ length s.queues

  pub record Serves (idx : ℕ) (s s' : Scheduler events Q P W) : Type 0 where
    pub in_place : InPlace s s'
    pub own : (items : List WorkItem) → Holds idx items s → Holds idx (drop max_batch_size items) s'
    pub others : (j : ℕ) (items : List WorkItem) → idx ≢ j → Holds j items s → Holds j items s'

  some_eq : (a b : Q) → ◌≡◌ {A = Option Q} (some a) (some b) → a ≡ b
  some_eq a b e = cc (e)

  serve-Serves :
      (lv : PerfLevel) (idx : ℕ) (s : Scheduler events Q P W)
      → Serves idx s (serve events Q P W ops rules execute exec_time lv idx s)
  unfolding serve
  serve-Serves lv idx s = look (get_elem? s.queues idx) refl
    where
      look :
          (o : Option Q)
          → get_elem? s.queues idx ≡ o
          → Serves idx s (serve events Q P W ops rules execute exec_time lv idx s)
      look none e =
          rw (serve, e)
            (record {
              in_place = record { affine = refl; disk = refl; many = refl };
              own = λ items h. absurd (ground (arith, e, h.at));
              others = λ j items ne h. h;
            })
      look (some q) e =
          let q' = (ops.try_dequeue_batch q max_batch_size).1 in
          let items' = (ops.try_dequeue_batch q max_batch_size).0 in
          let (r, same) =
            run_batch-Ran events Q P W ops rules execute exec_time touch quiet lv (ops.type q) idx
              items' (set_queue events Q P W ops rules execute exec_time idx q' s) in
          rw (serve, e)
            (record {
              in_place = record {
                affine = r.affine;
                disk = r.disk;
                many = ap length same ∙ length-set s.queues idx q';
              };
              own = λ items h.
                  let here : h.queue ≡ q = some_eq h.queue q (sym h.at ∙ e) in
                  let (t, d, v) = batch q max_batch_size (subst IsValid here h.valid) in
                  record {
                    queue = q';
                    at = ap (λ qs. get_elem? qs idx) same ∙ get_elem?-set_self s.queues idx q q' e;
                    held = d ∙ ap (drop max_batch_size) (sym (ap contents here) ∙ h.held);
                    valid = v;
                  };
              others = λ j items ne h. record {
                queue = h.queue;
                at = ap (λ qs. get_elem? qs j) same ∙ get_elem?-set_ne s.queues idx j q' ne ∙ h.at;
                held = h.held;
                valid = h.valid;
              };
            })

  InPlace-trans : (s s1 s2 : Scheduler events Q P W) → InPlace s s1 → InPlace s1 s2 → InPlace s s2
  InPlace-trans s s1 s2 a b = record {
    affine = b.affine ∙ a.affine;
    disk = b.disk ∙ a.disk;
    many = b.many ∙ a.many;
  }

  abbrev skips : ℕ → Scheduler events Q P W → Bool
  skips qi s = (qi == s.affine_idx) || (qi == s.disk_io_idx)

  -- What the loop over the others does to queue `j`.
  pub record Rest (qi left : ℕ) (s s' : Scheduler events Q P W) : Type 0 where
    pub in_place : InPlace s s'
    pub served :
        (j : ℕ) (items : List WorkItem)
        → qi ≤ j
        → j < qi + left
        → skips j s ≡ false
        → Holds j items s
        → Holds j (drop max_batch_size items) s'
    pub passed :
        (j : ℕ) (items : List WorkItem)
        → (j < qi) ⊎ (skips j s ≡ true)
        → Holds j items s
        → Holds j items s'

  skips_kept : (j : ℕ) (s s' : Scheduler events Q P W) → InPlace s s' → skips j s' ≡ skips j s
  skips_kept j s s' p = rw (p.affine, p.disk) refl

  serve_others-Rest :
      (lv : PerfLevel) (qi left : ℕ) (s : Scheduler events Q P W)
      → Rest qi left s (serve_others events Q P W ops rules execute exec_time lv qi left s)
  unfolding serve_others
  serve_others-Rest lv qi zero s = record {
    in_place = record { affine = refl; disk = refl; many = refl };
    served = λ j items le lt q h. absurd (omega (arith, le, lt));
    passed = λ j items q h. h;
  }
  serve_others-Rest lv qi (suc left) s = elim (Bool-cases (skips qi s)) [
    | inl skip ↦
        rw (serve_others, skip)
          (let r = serve_others-Rest lv (qi + 1) left s in
            record {
              in_place = r.in_place;
              served = λ j items le lt q h. elim (ℕ_discrete qi j) [
                | yes e ↦ absurd (true≢false (sym skip ∙ ap (λ k. skips k s) e ∙ q))
                | no ne ↦ r.served j items (omega (arith, le, ne)) (omega (arith, lt)) q h
              ];
              passed = λ j items q h. elim q [
                | inl lt ↦ r.passed j items (inl (omega (arith, lt))) h
                | inr sk ↦ r.passed j items (inr sk) h
              ];
            })
    | inr mine ↦
        rw (serve_others, mine)
          (let s1 = serve events Q P W ops rules execute exec_time lv qi s in
            let one = serve-Serves lv qi s in
            let r = serve_others-Rest lv (qi + 1) left s1 in
            record {
              in_place =
                  InPlace-trans s s1
                    (serve_others events Q P W ops rules execute exec_time lv (qi + 1) left s1)
                    one.in_place r.in_place;
              served = λ j items le lt q h. elim (ℕ_discrete qi j) [
                | yes e ↦
                    subst
                      (λ k.
                        Holds k (drop max_batch_size items) (
                          serve_others events Q P W ops rules execute exec_time lv (qi + 1) left
                            s1))
                      e
                      (r.passed qi (drop max_batch_size items) (inl (omega arith))
                        (one.own items (subst (λ k. Holds k items s) (sym e) h)))
                | no ne ↦
                    r.served j items (omega (arith, le, ne)) (omega (arith, lt))
                      (skips_kept j s s1 one.in_place ∙ q) (one.others j items ne h)
              ];
              passed = λ j items q h. elim q [
                | inl lt ↦
                    r.passed j items (inl (omega (arith, lt)))
                      (one.others j items (λ e. absurd (omega (arith, lt, e))) h)
                | inr sk ↦ r.passed j items (inr (skips_kept j s s1 one.in_place ∙ sk)) (
                    one.others j items
                      (λ e. true≢false (sym sk ∙ sym (ap (λ k. skips k s) e) ∙ mine)) h)
              ];
            })
  ]

  get-lt : (xs : List Q) (j : ℕ) (q : Q) → get_elem? xs j ≡ some q → j < length xs
  get-lt [] j q e = absurd (ground (arith, e))
  get-lt (x ∷ xs) zero q e = omega arith
  get-lt (x ∷ xs) (suc j) q e = omega (arith, get-lt xs j q e)

  -- The disk queue and the others.
  abbrev all_of : PerfLevel → Scheduler events Q P W → Scheduler events Q P W
  all_of lv s = served_all events Q P W ops rules execute exec_time lv s

  all_served :
      (lv : PerfLevel) (s : Scheduler events Q P W)
      → InPlace s (all_of lv s)
        × ((j : ℕ) (items : List WorkItem)
            → s.affine_idx ≢ j
            → Holds j items s
            → Holds j (drop max_batch_size items) (all_of lv s))
        × (Holds s.affine_idx [] s → Holds s.affine_idx [] (all_of lv s))
  all_served lv s =
      let s1 = serve events Q P W ops rules execute exec_time lv s.disk_io_idx s in
      let one = serve-Serves lv s.disk_io_idx s in
      let r = serve_others-Rest lv 0 (length s1.queues) s1 in
      (
        InPlace-trans s s1 (all_of lv s) one.in_place r.in_place,
        (λ j items ne h. elim (ℕ_discrete s.disk_io_idx j) [
          | yes e ↦
              let disk : skips j s1 ≡ true = skips_kept j s s1 one.in_place ∙ ground (arith, e) in
              r.passed j (drop max_batch_size items) (inr disk) (
                subst (λ k. Holds k (drop max_batch_size items) s1) e
                  (one.own items (subst (λ k. Holds k items s) (sym e) h)))
          | no ned ↦
              let other : skips j s1 ≡ false =
                skips_kept j s s1 one.in_place ∙ ground (arith, ne, ned) in
              let h1 = one.others j items ned h in
              r.served j items (omega arith) (omega (arith, get-lt s1.queues j h1.queue h1.at))
                other h1
        ]),
        λ h.
            let affine : skips s.affine_idx s1 ≡ true =
              skips_kept s.affine_idx s s1 one.in_place ∙ ground arith in
            r.passed s.affine_idx [] (inr affine) (elim (ℕ_discrete s.disk_io_idx s.affine_idx) [
              | yes e ↦
                  subst (λ k. Holds k [] s1) e (one.own [] (subst (λ k. Holds k [] s) (sym e) h))
              | no ned ↦ one.others s.affine_idx [] ned h
            ]),
      )

  -- A drain, in the terms of this file.
  drained :
      (now : ℕ → ℕ) (fuel : ℕ) (s : Scheduler events Q P W) (items : List WorkItem)
      → Holds s.affine_idx items s
      → length items < fuel
      → (s' : Scheduler events Q P W) × (drain_p0 events Q P W ops rules execute exec_time now fuel
            s
          ≡ some s')
        × (s'.affine_idx ≡ s.affine_idx)
        × Holds s.affine_idx [] s'
        × ((j : ℕ) (other : List WorkItem) → s.affine_idx ≢ j → Holds j other s → Holds j other s')
  drained now fuel s items h enough =
      let (s', runs, v) =
        drain_empties events Q P W ops rules execute exec_time touch quiet laws now
          (level_of events Q P W ops rules execute exec_time s.perf) fuel s h.queue h.at h.valid
          (omega (arith, enough, ap length h.held)) in
      (
        s',
        runs,
        v.ran.affine,
        record { queue = v.left; at = v.at; held = v.holds; valid = v.valid },
        λ j other ne o. record {
          queue = o.queue;
          at = v.others j ne ∙ o.at;
          held = o.held;
          valid = o.valid;
        },
      )

  -- With tasks that touch only the world outside, and fuel for what the affine queue holds, a busy round
  -- ends with the affine queue empty and every other queue without its oldest 64 items, or empty.
  pub busy_round_serves_all :
      (now : ℕ → ℕ) (fuel : ℕ) (s : Scheduler events Q P W) (items : List WorkItem)
      → Holds s.affine_idx items s
      → length items < fuel
      → (s' : Scheduler events Q P W) × (busy_round events Q P W ops rules execute exec_time now
            fuel s
          ≡ some s')
        × Holds s.affine_idx [] s'
        × ((j : ℕ) (other : List WorkItem)
            → s.affine_idx ≢ j
            → Holds j other s
            → Holds j (drop max_batch_size other) s')
  unfolding busy_round
  busy_round_serves_all now fuel s items h enough =
      let (s1, runs, a, h1, keeps) = drained now fuel s items h enough in
      let lv = level_of events Q P W ops rules execute exec_time s1.perf in
      let s2 = all_of lv s1 in
      let (p, serves, stays) = all_served lv s1 in
      let h2 : Holds s2.affine_idx [] s2 =
        subst (λ k. Holds k [] s2) (sym p.affine) (stays (subst (λ k. Holds k [] s1) (sym a) h1)) in
      let (s3, runs', a', h3, keeps') = drained now fuel s2 [] h2 (omega (arith, enough)) in
      let same : s2.affine_idx ≡ s.affine_idx = p.affine ∙ a in
      (
        s3,
        rw (busy_round, runs) runs',
        subst (λ k. Holds k [] s3) same h3,
        λ j other ne o.
            keeps' j (drop max_batch_size other) (λ e. ne (sym same ∙ e))
              (serves j other (λ e. ne (sym a ∙ e)) (keeps j other ne o)),
      )
