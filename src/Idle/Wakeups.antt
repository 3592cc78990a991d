-- ===== src/Idle/Wakeups.antt =====
-- That an idle worker loses no notification, and what its level says when it was woken.
use storage_engine.Prelude.{
  ℕ, zero, suc, ◌≡◌, ◌≢◌, refl, ap, Bool, true, false, not, if◌then◌else◌, add_word, word, ◌<◌,
  arith, Bool-cases, ◌==◌, inl, inr,
}
use storage_engine.Idle.{
  IdleLevel, active, spin, yielding, park, EventFd, Config, AdaptiveIdle, notify, poll, returned,
  waiting, idle_park, wait_over, at_level, enter_idle, idle_calls,
}

module _ (events : EventFd) where
  -- Neither the spinning nor the yielding phase clears the flag.
  poll-pending :
      (arrives : ℕ → Bool) (rounds : ℕ) (s : AdaptiveIdle events)
      → s.pending_notify ≡ true
      → (poll events arrives rounds s).pending_notify ≡ true
  unfolding poll notify
  poll-pending arrives zero s e = e
  poll-pending arrives (suc rounds) s e =
      let now = if arrives rounds then notify events s else s in
      let kept : now.pending_notify ≡ true = elim (Bool-cases (arrives rounds)) [
        | inl a ↦ rw a refl
        | inr a ↦ rw a e
      ] in
      elim (Bool-cases (events.read now.event_fd).0) [
        | inl got ↦ rw got kept
        | inr none ↦ rw none (
            poll-pending arrives rounds (record now { event_fd = (events.read now.event_fd).1 })
              kept)
      ]

  -- How many calls it takes to park from a level.
  abbrev pub calls_to_park : IdleLevel → ℕ
  calls_to_park active = 3
  calls_to_park spin = 3
  calls_to_park yielding = 2
  calls_to_park park = 1

  abbrev Returns : Config → (ℕ → Bool) → AdaptiveIdle events → Type 0
  Returns cfg arrives s =
      (s' : AdaptiveIdle events) × (idle_calls events cfg arrives (calls_to_park s.level) s
        ≡ returned s')
      × (s'.level ≡ active)

  from_park :
      (cfg : Config) (arrives : ℕ → Bool) (s : AdaptiveIdle events)
      → s.pending_notify ≡ true
      → Returns cfg arrives (record s { level = park })
  unfolding idle_calls enter_idle at_level idle_park
  from_park cfg arrives s e = (record s { pending_notify = false; level = active }, rw e refl, refl)

  from_yielding :
      (cfg : Config) (arrives : ℕ → Bool) (s : AdaptiveIdle events)
      → s.pending_notify ≡ true
      → Returns cfg arrives (record s { level = yielding })
  unfolding idle_calls enter_idle at_level
  from_yielding cfg arrives s e =
      from_park cfg arrives (poll events arrives cfg.yield_rounds (record s { level = yielding }))
        (poll-pending arrives cfg.yield_rounds (record s { level = yielding }) e)

  from_spin :
      (cfg : Config) (arrives : ℕ → Bool) (s : AdaptiveIdle events)
      → s.pending_notify ≡ true
      → Returns cfg arrives (record s { level = spin })
  unfolding idle_calls enter_idle at_level
  from_spin cfg arrives s e =
      from_yielding cfg arrives
        (poll events arrives cfg.spin_iterations (record s { level = spin }))
        (poll-pending arrives cfg.spin_iterations (record s { level = spin }) e)

  by_level :
      (cfg : Config) (arrives : ℕ → Bool) (s : AdaptiveIdle events) (level : IdleLevel)
      → s.pending_notify ≡ true
      → Returns cfg arrives (record s { level = level })
  unfolding idle_calls enter_idle
  by_level cfg arrives s active e = from_spin cfg arrives s e
  by_level cfg arrives s spin e = from_spin cfg arrives s e
  by_level cfg arrives s yielding e = from_yielding cfg arrives s e
  by_level cfg arrives s park e = from_park cfg arrives s e

  -- A worker that was notified comes back active, at the latest from the park phase, and does not
  -- wait there, whatever the phases before consumed.
  pub notified_worker_returns :
      (cfg : Config) (arrives : ℕ → Bool) (s : AdaptiveIdle events)
      → s.pending_notify ≡ true
      → (s' : AdaptiveIdle events) × (idle_calls events cfg arrives (calls_to_park s.level) s
          ≡ returned s')
        × (s'.level ≡ active)
  notified_worker_returns cfg arrives s e = by_level cfg arrives s s.level e

  -- With nothing pending and the descriptor empty the worker waits; the wait is not over by itself
  -- and is over once another thread notifies.
  pub quiet_worker_waits_for_notify :
      (s : AdaptiveIdle events)
      → s.pending_notify ≡ false
      → (events.read s.event_fd).0 ≡ false
      → s.park_generation < word
      → (s' : AdaptiveIdle events) × (idle_park events s ≡ waiting s.park_generation s')
        × (wait_over events s.park_generation s' ≡ false)
        × (wait_over events s.park_generation (notify events s') ≡ true)
  unfolding idle_park wait_over notify
  quiet_worker_waits_for_notify s quiet unreadable bound = (
    record s { pending_notify = false; event_fd = (events.read s.event_fd).1 },
    rw (quiet, unreadable) refl,
    ap not (same s.park_generation),
    ap not (moved s.park_generation (add_word s.park_generation 1) (omega (arith, bound))),
  )
    where
      same : (n : ℕ) → (n == n) ≡ true
      same n = ground arith

      moved : (n m : ℕ) → m ≢ n → (m == n) ≡ false
      moved n m ne = ground (arith, ne)

  poll_reads :
      (arrives : ℕ → Bool) (rounds : ℕ) (s : AdaptiveIdle events)
      → (events.read s.event_fd).0 ≡ true
      → 0 < rounds
      → (poll events arrives rounds s).level ≡ active
  unfolding poll notify
  poll_reads arrives zero s readable pos = absurd (omega (arith, pos))
  poll_reads arrives (suc rounds) s readable pos = elim (Bool-cases (arrives rounds)) [
    | inl a ↦ rw (a, events.read-write s.event_fd) refl
    | inr a ↦ rw (a, readable) refl
  ]

  -- A notification that the spinning phase reads does not leave the worker active: its level is the
  -- yielding phase's.
  pub woken_while_spinning :
      (cfg : Config) (arrives : ℕ → Bool) (s : AdaptiveIdle events)
      → s.level ≡ active
      → (events.read s.event_fd).0 ≡ true
      → 0 < cfg.spin_iterations
      → (s' : AdaptiveIdle events) × ((poll events arrives cfg.spin_iterations
            (record s { level = spin })).level
          ≡ active)
        × (enter_idle events cfg arrives s ≡ returned s')
        × (s'.level ≡ yielding)
  unfolding enter_idle at_level
  woken_while_spinning cfg arrives s e readable some_rounds = (
    record (poll events arrives cfg.spin_iterations (record s { level = spin })) {
      level = yielding;
    },
    poll_reads arrives cfg.spin_iterations (record s { level = spin }) readable some_rounds,
    rw e refl,
    refl,
  )
