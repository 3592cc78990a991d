-- ===== src/Scheduler/Drain.antt =====
-- drain_p0 of scheduler.cc: what is left, and what has been executed.
use mathlib.Core.Path.{subst}
use storage_engine.Prelude.{
  ℕ, zero, suc, ◌+◌, ◌%◌, ◌<◌, ◌≡◌, ◌≢◌, refl, sym, ap, ◌∙◌, some, List, [], ◌∷◌, ◌++◌, length,
  get_elem?, set, take, drop, word, arith, take-append-drop, length-append, length-set, length-drop,
  length-take,
}
use storage_engine.Work.{WorkItem}
use storage_engine.Interface.{WorkQueue, SchedulingPolicy, QueueLaws}
use storage_engine.Policy.Types.{QueueType}
use storage_engine.Metric.Perf.{PerfLevel, no_perf, counting, tracing}
use storage_engine.Idle.{EventFd}
use storage_engine.Scheduler.{
  Scheduler, max_batch_size, run_item, run_batch, account, set_queue, polled, dequeued, drain_loop,
}

module _ {A : Type 0} where
  pub get_elem?-set_self :
      (xs : List A) (i : ℕ) (x v : A) → get_elem? xs i ≡ some x → get_elem? (set xs i v) i ≡ some v
  get_elem?-set_self [] i x v e = absurd (ground (arith, e))
  get_elem?-set_self (y ∷ xs) zero x v e = refl
  get_elem?-set_self (y ∷ xs) (suc i) x v e = get_elem?-set_self xs i x v e

  pub get_elem?-set_ne :
      (xs : List A) (i j : ℕ) (v : A) → i ≢ j → get_elem? (set xs i v) j ≡ get_elem? xs j
  get_elem?-set_ne [] i j v ne = refl
  get_elem?-set_ne (x ∷ xs) zero zero v ne = absurd (ne refl)
  get_elem?-set_ne (x ∷ xs) zero (suc j) v ne = refl
  get_elem?-set_ne (x ∷ xs) (suc i) zero v ne = refl
  get_elem?-set_ne (x ∷ xs) (suc i) (suc j) v ne = get_elem?-set_ne xs i j v (λ e. ne (ap suc e))

-- The effects of the items, one after the other.
abbrev pub touched : {W : Type 0} → (WorkItem → W → W) → List WorkItem → W → W
touched touch [] w = w
touched touch (item ∷ items) w = touched touch items (touch item w)

touched-append :
    {W : Type 0}
    → (touch : WorkItem → W → W) (xs ys : List WorkItem) (w : W)
    → touched touch (xs ++ ys) w ≡ touched touch ys (touched touch xs w)
touched-append touch [] ys w = refl
touched-append touch (x ∷ xs) ys w = touched-append touch xs ys (touch x w)

module _ (events : EventFd) (Q P W : Type 0) where
  -- An item that touches the world and leaves the scheduler alone.
  pub record Quiet (execute : WorkItem → Scheduler events Q P W → Scheduler events Q P W)
      (touch : WorkItem → W → W) : Type 0 where
    pub only_world :
        (item : WorkItem) (s : Scheduler events Q P W)
        → execute item s ≡ record s { world = touch item s.world }

  -- What a step leaves of the queues other than one, with the items it executed.
  pub record Ran (touch : WorkItem → W → W) (items : List WorkItem) (s s' : Scheduler events Q P W)
      : Type 0 where
    pub world : s'.world ≡ touched touch items s.world
    pub counted :
        s.stats.total_tasks_executed < word
        → s'.stats.total_tasks_executed ≡ (s.stats.total_tasks_executed + length items) % word
    pub affine : s'.affine_idx ≡ s.affine_idx
    pub disk : s'.disk_io_idx ≡ s.disk_io_idx
    pub policy : s'.policy ≡ s.policy

  module _ (ops : WorkQueue Q) (rules : SchedulingPolicy P)
      (execute : WorkItem → Scheduler events Q P W → Scheduler events Q P W)
      (exec_time : WorkItem → ℕ) (touch : WorkItem → W → W) (quiet : Quiet execute touch) where
    run_item-Ran :
        (lv : PerfLevel) (q : QueueType) (idx : ℕ) (item : WorkItem) (s : Scheduler events Q P W)
        → let s' = run_item events Q P W ops rules execute exec_time lv q idx item s in
          Ran touch (item ∷ []) s s' × (s'.queues ≡ s.queues)
    unfolding run_item
    run_item-Ran lv q idx item s =
        rw (run_item, quiet.only_world item (record s { tls_source_queue_idx = idx }))
          (accounted lv)
      where
        accounted :
            (lv : PerfLevel)
            → let s' =
                account events Q P W ops rules execute exec_time lv q
                  (exec_time item)
                  (record s { tls_source_queue_idx = idx; world = touch item s.world }) in
              Ran touch (item ∷ []) s s' × (s'.queues ≡ s.queues)
        accounted no_perf = (
          record {
            world = refl;
            counted = λ small. refl;
            affine = refl;
            disk = refl;
            policy = refl;
          },
          refl,
        )
        accounted counting = (
          record {
            world = refl;
            counted = λ small. refl;
            affine = refl;
            disk = refl;
            policy = refl;
          },
          refl,
        )
        accounted tracing = (
          record {
            world = refl;
            counted = λ small. refl;
            affine = refl;
            disk = refl;
            policy = refl;
          },
          refl,
        )

    Ran-append :
        (xs ys : List WorkItem) (s s1 s2 : Scheduler events Q P W)
        → Ran touch xs s s1
        → Ran touch ys s1 s2
        → Ran touch (xs ++ ys) s s2
    Ran-append xs ys s s1 s2 a b = record {
      world = b.world ∙ ap (touched touch ys) a.world ∙ sym (touched-append touch xs ys s.world);
      counted = λ small.
          let one = a.counted small in
          b.counted (omega (arith, one)) ∙ omega (arith, one, length-append xs ys);
      affine = b.affine ∙ a.affine;
      disk = b.disk ∙ a.disk;
      policy = b.policy ∙ a.policy;
    }

    pub run_batch-Ran :
        (lv : PerfLevel) (q : QueueType) (idx : ℕ) (items : List WorkItem)
        (s : Scheduler events Q P W)
        → let s' = run_batch events Q P W ops rules execute exec_time lv q idx items s in
          Ran touch items s s' × (s'.queues ≡ s.queues)
    unfolding run_batch
    run_batch-Ran lv q idx [] s = (
      record {
        world = refl;
        counted = λ small. omega (arith, small);
        affine = refl;
        disk = refl;
        policy = refl;
      },
      refl,
    )
    run_batch-Ran lv q idx (item ∷ items) s =
        let s1 = run_item events Q P W ops rules execute exec_time lv q idx item s in
        let (a, e) = run_item-Ran lv q idx item s in
        let (b, f) = run_batch-Ran lv q idx items s1 in
        (
          Ran-append (item ∷ []) items s s1
              (run_batch events Q P W ops rules execute exec_time lv q idx items s1) a b,
          f ∙ e,
        )

    module _ (laws : QueueLaws ops) where
      open laws use {IsValid, contents, batch}

      -- Queue `idx` holds `rest` now, the others are as they were, and the items have been executed.
      pub record Served (idx : ℕ) (items rest : List WorkItem) (s s' : Scheduler events Q P W)
          : Type 0 where
        pub ran : Ran touch items s s'
        pub left : Q
        pub at : get_elem? s'.queues idx ≡ some left
        pub holds : contents left ≡ rest
        pub valid : IsValid left
        pub others : (j : ℕ) → idx ≢ j → get_elem? s'.queues j ≡ get_elem? s.queues j
        pub many : length s'.queues ≡ length s.queues

      take_none : (n : ℕ) (xs : List WorkItem) → take (suc n) xs ≡ [] → xs ≡ []
      take_none n [] e = refl
      take_none n (x ∷ xs) e = absurd (ground (arith, e))

      -- The state behind one batch of `drain_loop`.
      abbrev batch_done :
          (now idx : ℕ)
          → PerfLevel
          → QueueType
          → List WorkItem
          → Q
          → Scheduler events Q P W
          → Scheduler events Q P W
      batch_done now idx lv q items q' s =
          dequeued events Q P W ops rules execute exec_time (length items) idx (
            run_batch events Q P W ops rules execute exec_time lv q idx items (
              polled events Q P W ops rules execute exec_time now idx
                (set_queue events Q P W ops rules execute exec_time idx q' s)))

      batch_done-Served :
          (now idx : ℕ) (lv : PerfLevel) (ty : QueueType) (items : List WorkItem) (q q' : Q)
          (s : Scheduler events Q P W)
          → get_elem? s.queues idx ≡ some q
          → IsValid q'
          → Served idx items (contents q') s (batch_done now idx lv ty items q' s)
      batch_done-Served now idx lv ty items q q' s at ok =
          let (r, e) = run_batch-Ran lv ty idx items (
            polled events Q P W ops rules execute exec_time now idx
              (set_queue events Q P W ops rules execute exec_time idx q' s)) in
          record {
            ran = record {
              world = r.world;
              counted = r.counted;
              affine = r.affine;
              disk = r.disk;
              policy = r.policy;
            };
            left = q';
            at = ap (λ qs. get_elem? qs idx) e ∙ get_elem?-set_self s.queues idx q q' at;
            holds = refl;
            valid = ok;
            others = λ j ne. ap (λ qs. get_elem? qs j) e ∙ get_elem?-set_ne s.queues idx j q' ne;
            many = ap length e ∙ length-set s.queues idx q';
          }

      Served-then :
          (idx : ℕ) (xs ys rest rest' : List WorkItem) (s s1 s2 : Scheduler events Q P W)
          → Served idx xs rest s s1
          → Served idx ys rest' s1 s2
          → Served idx (xs ++ ys) rest' s s2
      Served-then idx xs ys rest rest' s s1 s2 a b = record {
        ran = Ran-append xs ys s s1 s2 a.ran b.ran;
        left = b.left;
        at = b.at;
        holds = b.holds;
        valid = b.valid;
        others = λ j ne. b.others j ne ∙ a.others j ne;
        many = b.many ∙ a.many;
      }

      abbrev pub Drains : (ℕ → ℕ) → PerfLevel → ℕ → Scheduler events Q P W → Q → Type 0
      Drains now lv fuel s q =
          (s' : Scheduler events Q P W) × (drain_loop events Q P W ops rules execute exec_time now
              lv fuel s
            ≡ some s')
          × Served s.affine_idx (contents q) [] s s'

      -- With fuel for the items of the affine queue, and tasks that touch only the world outside, the
      -- drain ends with that queue empty; each of its items was executed once, the oldest first, and
      -- counted, and the other queues are as before.
      pub drain_empties :
          (now : ℕ → ℕ) (lv : PerfLevel) (fuel : ℕ) (s : Scheduler events Q P W) (q : Q)
          → get_elem? s.queues s.affine_idx ≡ some q
          → IsValid q
          → length (contents q) < fuel
          → Drains now lv fuel s q
      unfolding drain_loop
      drain_empties now lv zero s q at ok enough = absurd (omega (arith, enough))
      drain_empties now lv (suc fuel) s q at ok enough =
          round (ops.try_dequeue_batch q max_batch_size) refl (batch q max_batch_size ok)
            (drain_empties now lv fuel)
        where
          round :
              (res : List WorkItem × Q)
              → ops.try_dequeue_batch q max_batch_size ≡ res
              → (res.0 ≡ take max_batch_size (contents q))
                × (contents res.1 ≡ drop max_batch_size (contents q))
                × IsValid res.1
              → ((s1 : Scheduler events Q P W) (q1 : Q)
                  → get_elem? s1.queues s1.affine_idx ≡ some q1
                  → IsValid q1
                  → length (contents q1) < fuel
                  → Drains now lv fuel s1 q1)
              → Drains now lv (suc fuel) s q
          round ([], q') e (t, d, v) again =
              let nothing : contents q ≡ [] = take_none 63 (contents q) (sym t) in
              (
                set_queue events Q P W ops rules execute exec_time s.affine_idx q' s,
                rw (drain_loop, at, e, e) refl,
                record {
                  ran = record {
                    world = ap (λ xs. touched touch xs s.world) (sym nothing);
                    counted = λ small. omega (arith, small, ap length nothing);
                    affine = refl;
                    disk = refl;
                    policy = refl;
                  };
                  left = q';
                  at = get_elem?-set_self s.queues s.affine_idx q q' at;
                  holds = d ∙ ap (drop max_batch_size) nothing;
                  valid = v;
                  others = λ j ne. get_elem?-set_ne s.queues s.affine_idx j q' ne;
                  many = length-set s.queues s.affine_idx q';
                },
              )
          round (item ∷ more, q') e (t, d, v) again =
              let s1 = batch_done (now fuel) s.affine_idx lv (ops.type q) (item ∷ more) q' s in
              let a =
                batch_done-Served (now fuel) s.affine_idx lv (ops.type q) (item ∷ more) q q' s at
                  v in
              let (s', runs, b) =
                again s1 a.left (ap (get_elem? s1.queues) a.ran.affine ∙ a.at) a.valid (
                  omega (
                    arith,
                    enough,
                    ap length (a.holds ∙ d),
                    length-drop max_batch_size (contents q),
                    ap length t,
                    length-take max_batch_size (contents q),
                  )) in
              let whole : (item ∷ more) ++ contents a.left ≡ contents q =
                ap (λ xs. xs ++ contents a.left) t
                ∙ ap (λ xs. take max_batch_size (contents q) ++ xs) (a.holds ∙ d)
                ∙ take-append-drop max_batch_size (contents q) in
              (
                s',
                rw (drain_loop, at, e, e) runs,
                subst (λ xs. Served s.affine_idx xs [] s s') whole
                    (Served-then s.affine_idx (item ∷ more) (contents a.left) (contents q') [] s s1
                      s' a (subst (λ i. Served i (contents a.left) [] s1 s') a.ran.affine b)),
              )
