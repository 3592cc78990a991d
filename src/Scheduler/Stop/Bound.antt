-- ===== src/Scheduler/Stop/Bound.antt =====
-- That the loops of run and enter_idle in scheduler.cc and adaptive_idle.cc have a bounded way to go.
use mathlib.Core.Path.{subst}
use storage_engine.Prelude.{ℕ, zero, suc, ◌+◌, ◌≤◌, ◌≡◌, refl, inl, inr, Bool, arith, Bool-cases}
use storage_engine.Idle.{
  IdleLevel, active, spin, yielding, park, EventFd, Config, idle_park, wait_over, from_active,
}
use storage_engine.Scheduler.Stop.{
  RunAt, entering, testing, leaving, telling, looping, working, idling, parking, ended, polling,
  asleep, StopAt, not_yet, asked, cleared, done, Flags, idle_step, poll_step, park_step, run_step,
  stop_step, FlagEvent, of_run, of_stop, of_other, flag_step,
}

-- How many steps `run` takes at most from there, once request_stop is done.
abbrev pub left_steps : Config → RunAt → ℕ
left_steps cfg entering = 4
left_steps cfg testing = 3
left_steps cfg leaving = 2
left_steps cfg telling = 1
left_steps cfg looping = 1
left_steps cfg working = cfg.spin_iterations + cfg.yield_rounds + 4
left_steps cfg idling = cfg.spin_iterations + cfg.yield_rounds + 3
left_steps cfg parking = 2
left_steps cfg ended = 0
left_steps cfg (polling next left) = left + 2
left_steps cfg (asleep gen) = 2

abbrev pub run_bound : Config → ℕ
run_bound cfg = cfg.spin_iterations + cfg.yield_rounds + 4

module _ (events : EventFd) where
  abbrev pub Within : Config → Flags events → Type 0
  Within cfg f = left_steps cfg f.run_at ≤ run_bound cfg

  idle-Within : (cfg : Config) (f : Flags events) → Within cfg (idle_step events cfg f)
  unfolding idle_step
  idle-Within cfg f = short (from_active events f.idle.level)
    where
      short :
          (level : IdleLevel)
          → left_steps cfg (elim level [
            | active ↦ looping
            | spin ↦ polling yielding cfg.spin_iterations
            | yielding ↦ polling park cfg.yield_rounds
            | park ↦ parking
          ])
            ≤ run_bound cfg
      short active = omega arith
      short spin = omega arith
      short yielding = omega arith
      short park = omega arith

  poll-Within :
      (cfg : Config) (next : IdleLevel) (left : ℕ) (f : Flags events)
      → left + 2 ≤ run_bound cfg
      → Within cfg (poll_step events next left f)
  unfolding poll_step
  poll-Within cfg next zero f le = omega arith
  poll-Within cfg next (suc left) f le = elim (Bool-cases (events.read f.idle.event_fd).0) [
    | inl e ↦ rw (poll_step, e) (omega arith)
    | inr e ↦ rw (poll_step, e) (omega (arith, le))
  ]

  park-Within : (cfg : Config) (f : Flags events) → Within cfg (park_step events f)
  unfolding park_step idle_park
  park-Within cfg f = elim (Bool-cases f.idle.pending_notify) [
    | inl p ↦ rw (park_step, p) (omega arith)
    | inr p ↦ elim (Bool-cases (events.read f.idle.event_fd).0) [
      | inl e ↦ rw (park_step, p, e) (omega arith)
      | inr e ↦ rw (park_step, p, e) (omega arith)
    ]
  ]

  run-Within :
      (cfg : Config) (goes_idle : Bool) (f : Flags events)
      → Within cfg f
      → Within cfg (run_step events cfg goes_idle f)
  unfolding run_step
  run-Within cfg goes_idle f w = go f.run_at refl
    where
      go : (at : RunAt) → f.run_at ≡ at → Within cfg (run_step events cfg goes_idle f)
      go entering e = rw (run_step, e) (omega arith)
      go testing e = elim (Bool-cases f.stop_requested) [
        | inl q ↦ rw (run_step, e, q) (omega arith)
        | inr q ↦ rw (run_step, e, q) (omega arith)
      ]
      go leaving e = rw (run_step, e) (omega arith)
      go telling e = rw (run_step, e) (omega arith)
      go looping e = elim (Bool-cases f.running) [
        | inl q ↦ rw (run_step, e, q) (omega arith)
        | inr q ↦ rw (run_step, e, q) (omega arith)
      ]
      go working e = elim (Bool-cases goes_idle) [
        | inl q ↦ rw (run_step, e, q) (omega arith)
        | inr q ↦ rw (run_step, e, q) (omega arith)
      ]
      go idling e = rw (run_step, e) (idle-Within cfg f)
      go (polling next left) e =
          rw (run_step, e)
            (poll-Within cfg next left f (subst (λ at. left_steps cfg at ≤ run_bound cfg) e w))
      go parking e = rw (run_step, e) (park-Within cfg f)
      go (asleep gen) e = elim (Bool-cases (wait_over events gen f.idle)) [
        | inl q ↦ rw (run_step, e, q) (omega arith)
        | inr q ↦ rw (run_step, e, q) w
      ]
      go ended e = rw (run_step, e) w

  stop-Within : (cfg : Config) (f : Flags events) → Within cfg f → Within cfg (stop_step events f)
  unfolding stop_step
  stop-Within cfg f w = go f.stop_at refl
    where
      go : (stop : StopAt) → f.stop_at ≡ stop → Within cfg (stop_step events f)
      go not_yet e = rw (stop_step, e) w
      go asked e = rw (stop_step, e) w
      go cleared e = rw (stop_step, e) w
      go done e = rw (stop_step, e) w

  pub step-Within :
      (cfg : Config) (e : FlagEvent events) (f : Flags events)
      → Within cfg f
      → Within cfg (flag_step events cfg e f)
  unfolding flag_step
  step-Within cfg (of_run goes_idle) f w = run-Within cfg goes_idle f w
  step-Within cfg of_stop f w = stop-Within cfg f w
  step-Within cfg of_other f w = w
