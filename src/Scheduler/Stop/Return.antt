-- ===== src/Scheduler/Stop/Return.antt =====
-- That run of scheduler.cc returns once request_stop is done.
use mathlib.Core.Path.{subst}
use mathlib.Core.Bool.{true≢false}
use storage_engine.Prelude.{
  ℕ, zero, suc, ◌+◌, ◌-◌, ◌≤◌, ◌<◌, ◌≡◌, refl, sym, ap, inl, inr, Bool, true, false, List, [], ◌∷◌,
  length, arith, Bool-cases, word,
}
use storage_engine.Idle.{
  IdleLevel, active, spin, yielding, park, EventFd, Config, AdaptiveIdle, idle_park, wait_over,
  from_active,
}
use storage_engine.Scheduler.Stop.{
  RunAt, entering, testing, leaving, telling, looping, working, idling, parking, ended, polling,
  asleep, done, Flags, idle_step, poll_step, park_step, run_step, stop_step, FlagEvent, of_run,
  of_stop, of_other, flag_step, flag_run, at_start,
}
use storage_engine.Scheduler.Stop.Seen.{
  is_done, is_cleared, is_asked, inside, waits_next, Slept, Seen,
}
use storage_engine.Scheduler.Stop.Steps.{step-Seen}
use storage_engine.Scheduler.Stop.Bound.{left_steps, run_bound, Within, step-Within}

module _ (events : EventFd) where
  abbrev pub run_steps : List (FlagEvent events) → ℕ
  run_steps [] = 0
  run_steps (of_run goes_idle ∷ later) = suc (run_steps later)
  run_steps (of_stop ∷ later) = run_steps later
  run_steps (of_other ∷ later) = run_steps later

  -- After a step of `run`, one fewer is left.
  abbrev Closer : Config → RunAt → Flags events → Type 0
  Closer cfg at f' = (f'.stop_at ≡ done) × (left_steps cfg f'.run_at ≤ left_steps cfg at - 1)

  idle-Closer :
      (cfg : Config) (f : Flags events)
      → f.stop_at ≡ done
      → Closer cfg idling (idle_step events cfg f)
  unfolding idle_step
  idle-Closer cfg f d = (d, short (from_active events f.idle.level))
    where
      short :
          (level : IdleLevel)
          → left_steps cfg (elim level [
            | active ↦ looping
            | spin ↦ polling yielding cfg.spin_iterations
            | yielding ↦ polling park cfg.yield_rounds
            | park ↦ parking
          ])
            ≤ cfg.spin_iterations + cfg.yield_rounds + 3 - 1
      short active = omega arith
      short spin = omega arith
      short yielding = omega arith
      short park = omega arith

  poll-Closer :
      (cfg : Config) (next : IdleLevel) (left : ℕ) (f : Flags events)
      → f.stop_at ≡ done
      → Closer cfg (polling next left) (poll_step events next left f)
  unfolding poll_step
  poll-Closer cfg next zero f d = (d, omega arith)
  poll-Closer cfg next (suc left) f d = elim (Bool-cases (events.read f.idle.event_fd).0) [
    | inl e ↦ rw (poll_step, e) (d, omega arith)
    | inr e ↦ rw (poll_step, e) (d, omega arith)
  ]

  park-Closer :
      (cfg : Config) (f : Flags events)
      → f.stop_at ≡ done
      → f.idle.pending_notify ≡ true
      → Closer cfg parking (park_step events f)
  unfolding park_step idle_park
  park-Closer cfg f d told = rw (park_step, told) (d, omega arith)

  run-Closer :
      (room : ℕ) (cfg : Config) (goes_idle : Bool) (f : Flags events)
      → Seen events room f
      → f.stop_at ≡ done
      → Closer cfg f.run_at (run_step events cfg goes_idle f)
  unfolding run_step wait_over
  run-Closer room cfg goes_idle f s d = go f.run_at refl
    where
      halted : inside f.run_at ≡ true → f.running ≡ false
      halted = s.halted (ap is_cleared d)

      told : waits_next f.run_at ≡ true → f.idle.pending_notify ≡ true
      told = s.told (ap is_done d)

      go : (at : RunAt) → f.run_at ≡ at → Closer cfg f.run_at (run_step events cfg goes_idle f)
      go entering e = rw (run_step, e) (d, omega arith)
      go testing e = rw (run_step, e, s.request (ap is_asked d)) (d, omega arith)
      go leaving e = rw (run_step, e) (d, omega arith)
      go telling e = rw (run_step, e) (d, omega arith)
      go looping e = rw (run_step, e, halted (ap inside e)) (d, omega arith)
      go working e = elim (Bool-cases goes_idle) [
        | inl q ↦ rw (run_step, e, q) (d, omega arith)
        | inr q ↦ rw (run_step, e, q) (d, omega arith)
      ]
      go idling e = rw (run_step, e) (idle-Closer cfg f d)
      go (polling next left) e = rw (run_step, e) (poll-Closer cfg next left f d)
      go parking e = rw (run_step, e) (park-Closer cfg f d (told (ap waits_next e)))
      go (asleep gen) e =
          let behind : Slept events (asleep gen) true f.idle.park_generation =
            subst (λ b. Slept events (asleep gen) b f.idle.park_generation) (ap is_done d)
              (subst (λ at. Slept events at (is_done f.stop_at) f.idle.park_generation) e
                s.slept) in
          let over : wait_over events gen f.idle ≡ true = ground (arith, behind) in
          rw (run_step, e, over) (d, omega arith)
      go ended e = rw (run_step, e, e) (d, omega arith)

  step-Closer :
      (room : ℕ) (cfg : Config) (e : FlagEvent events) (later : List (FlagEvent events))
      (f : Flags events)
      → Seen events room f
      → f.stop_at ≡ done
      → left_steps cfg f.run_at ≤ run_steps (e ∷ later)
      → ((flag_step events cfg e f).stop_at ≡ done)
        × (left_steps cfg (flag_step events cfg e f).run_at ≤ run_steps later)
  unfolding flag_step stop_step
  step-Closer room cfg (of_run goes_idle) later f s d enough =
      let (still, closer) = run-Closer room cfg goes_idle f s d in
      (still, omega (arith, closer, enough))
  step-Closer room cfg of_stop later f s d enough = rw (stop_step, d) (d, enough)
  step-Closer room cfg of_other later f s d enough = (d, enough)

  nothing_left : (cfg : Config) (at : RunAt) → left_steps cfg at ≤ 0 → at ≡ ended
  nothing_left cfg ended le = refl
  nothing_left cfg entering le = absurd (omega (arith, le))
  nothing_left cfg testing le = absurd (omega (arith, le))
  nothing_left cfg leaving le = absurd (omega (arith, le))
  nothing_left cfg telling le = absurd (omega (arith, le))
  nothing_left cfg looping le = absurd (omega (arith, le))
  nothing_left cfg working le = absurd (omega (arith, le))
  nothing_left cfg idling le = absurd (omega (arith, le))
  nothing_left cfg parking le = absurd (omega (arith, le))
  nothing_left cfg (polling next left) le = absurd (omega (arith, le))
  nothing_left cfg (asleep gen) le = absurd (omega (arith, le))

  finish :
      (cfg : Config) (later : List (FlagEvent events)) (f : Flags events)
      → Seen events (length later) f
      → f.stop_at ≡ done
      → left_steps cfg f.run_at ≤ run_steps later
      → (flag_run events cfg later f).run_at ≡ ended
  finish cfg [] f s d enough = nothing_left cfg f.run_at enough
  finish cfg (e ∷ later) f s d enough =
      let (still, closer) = step-Closer (length (e ∷ later)) cfg e later f s d enough in
      finish cfg later (flag_step events cfg e f) (step-Seen events (length later) cfg e f s) still
        closer

  run-Seen_all :
      (room : ℕ) (cfg : Config) (before : List (FlagEvent events)) (f : Flags events)
      → Seen events (length before + room) f
      → Within events cfg f
      → Seen events room (flag_run events cfg before f)
        × Within events cfg (flag_run events cfg before f)
  run-Seen_all room cfg [] f s w = (subst (λ n. Seen events n f) {x = 0 + room} (omega arith) s, w)
  run-Seen_all room cfg (e ∷ before) f s w =
      run-Seen_all room cfg before (flag_step events cfg e f)
        (step-Seen events (length before + room) cfg e f
          (subst (λ n. Seen events n f) {x = length (e ∷ before) + room} (omega arith) s))
        (step-Within events cfg e f w)

  at_start-Seen :
      (room : ℕ) (running : Bool) (idle : AdaptiveIdle events)
      → idle.park_generation + room < word
      → Seen events room (at_start events running idle)
  at_start-Seen room running idle fits = record {
    request = λ q. absurd (true≢false (sym q));
    halted = λ c i. absurd (true≢false (sym c));
    told = λ d w. absurd (true≢false (sym d));
    slept = tt;
    in_word = fits;
  }

  -- However the steps of run, of request_stop and of threads that notify fall, whatever the rounds decide,
  -- and while the park generation does not wrap: once request_stop is done, run returns within as many
  -- of its own steps as the loops of reads have turns, and four. That holds also when the stop came
  -- before run had begun, and when it found run in the wait of idle_park.
  pub stopped_run_returns :
      (cfg : Config) (running : Bool) (idle : AdaptiveIdle events)
      (before later : List (FlagEvent events))
      → idle.park_generation + (length before + length later) < word
      → (flag_run events cfg before (at_start events running idle)).stop_at ≡ done
      → run_bound cfg ≤ run_steps later
      → (flag_run events cfg later
          (flag_run events cfg before (at_start events running idle))).run_at
        ≡ ended
  stopped_run_returns cfg running idle before later fits d enough =
      let f = flag_run events cfg before (at_start events running idle) in
      let (seen, within) =
        run-Seen_all (length later) cfg before (at_start events running idle)
          (at_start-Seen (length before + length later) running idle fits) (omega arith) in
      finish cfg later f seen d (omega (arith, within, enough))
