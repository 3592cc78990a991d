-- ===== src/Scheduler/Stop/Seen.antt =====
-- What a step of run or request_stop in scheduler.cc keeps: a stop is seen by the loop, and a wait in
-- idle_park does not begin behind its notification.
use mathlib.Core.Bool.{true≢false}
use storage_engine.Prelude.{
  ℕ, zero, suc, ◌+◌, ◌≤◌, ◌<◌, ◌≡◌, refl, sym, ap, ◌∙◌, inl, inr, Bool, true, false, arith,
  Bool-cases, word,
}
use storage_engine.Idle.{
  IdleLevel, active, spin, yielding, park, EventFd, Config, AdaptiveIdle, idle_park, from_active,
}
use storage_engine.Scheduler.Stop.{
  RunAt, entering, testing, leaving, telling, looping, working, idling, parking, ended, polling,
  asleep, StopAt, not_yet, asked, cleared, done, Flags, idle_step, poll_step, park_step,
}

abbrev pub is_asked : StopAt → Bool
is_asked not_yet = false
is_asked asked = true
is_asked cleared = true
is_asked done = true

abbrev pub is_cleared : StopAt → Bool
is_cleared not_yet = false
is_cleared asked = false
is_cleared cleared = true
is_cleared done = true

abbrev pub is_done : StopAt → Bool
is_done not_yet = false
is_done asked = false
is_done cleared = false
is_done done = true

pub cleared-asked : (stop : StopAt) → is_cleared stop ≡ true → is_asked stop ≡ true
cleared-asked not_yet e = absurd (true≢false (sym e))
cleared-asked asked e = refl
cleared-asked cleared e = refl
cleared-asked done e = refl

pub done-cleared : (stop : StopAt) → is_done stop ≡ true → is_cleared stop ≡ true
done-cleared not_yet e = absurd (true≢false (sym e))
done-cleared asked e = absurd (true≢false (sym e))
done-cleared cleared e = absurd (true≢false (sym e))
done-cleared done e = refl

-- In the loop of `run`.
abbrev pub inside : RunAt → Bool
inside entering = false
inside testing = false
inside leaving = false
inside telling = false
inside looping = true
inside working = true
inside idling = true
inside parking = true
inside ended = false
inside (polling next left) = true
inside (asleep gen) = true

-- On the way to the wait of idle_park.
abbrev pub waits_next : RunAt → Bool
waits_next working = true
waits_next idling = true
waits_next parking = true
waits_next (polling next left) = true
waits_next entering = false
waits_next testing = false
waits_next leaving = false
waits_next telling = false
waits_next looping = false
waits_next ended = false
waits_next (asleep gen) = false

module _ (events : EventFd) where
  -- The wait began at a generation that is not ahead; once request_stop is done, it is behind.
  abbrev pub Slept : RunAt → Bool → ℕ → Type 0
  Slept (asleep gen) true generation = gen < generation
  Slept (asleep gen) false generation = gen ≤ generation
  Slept entering stopped generation = Unit
  Slept testing stopped generation = Unit
  Slept leaving stopped generation = Unit
  Slept telling stopped generation = Unit
  Slept looping stopped generation = Unit
  Slept working stopped generation = Unit
  Slept idling stopped generation = Unit
  Slept parking stopped generation = Unit
  Slept ended stopped generation = Unit
  Slept (polling next left) stopped generation = Unit

  pub record Seen (room : ℕ) (f : Flags events) : Type 0 where
    pub request : is_asked f.stop_at ≡ true → f.stop_requested ≡ true
    pub halted : is_cleared f.stop_at ≡ true → inside f.run_at ≡ true → f.running ≡ false
    pub told : is_done f.stop_at ≡ true → waits_next f.run_at ≡ true → f.idle.pending_notify ≡ true
    pub slept : Slept f.run_at (is_done f.stop_at) f.idle.park_generation
    pub in_word : f.idle.park_generation + room < word

  -- What a step of `run` that changes no flag and not the generation has to show.
  pub moved :
      (room : ℕ) (f : Flags events) (at : RunAt) (idle : AdaptiveIdle events)
      → Seen (suc room) f
      → inside f.run_at ≡ true
      → idle.park_generation ≡ f.idle.park_generation
      → (is_done f.stop_at ≡ true → waits_next at ≡ true → idle.pending_notify ≡ true)
      → Slept at (is_done f.stop_at) idle.park_generation
      → Seen room (record f { idle = idle; run_at = at })
  moved room f at idle s within same told slept = record {
    request = s.request;
    halted = λ c i. s.halted c within;
    told = told;
    slept = slept;
    in_word = omega (arith, same, s.in_word);
  }

  pub idle-Seen :
      (room : ℕ) (cfg : Config) (f : Flags events)
      → Seen (suc room) f
      → f.run_at ≡ idling
      → Seen room (idle_step events cfg f)
  unfolding idle_step
  idle-Seen room cfg f s at =
      let within : inside f.run_at ≡ true = ap inside at in
      let told : is_done f.stop_at ≡ true → f.idle.pending_notify ≡ true =
        λ d. s.told d (ap waits_next at) in
      go (from_active events f.idle.level) within told
    where
      go :
          (level : IdleLevel)
          → inside f.run_at ≡ true
          → (is_done f.stop_at ≡ true → f.idle.pending_notify ≡ true)
          → Seen room (record f {
            idle = record f.idle { level = level };
            run_at = elim level [
              | active ↦ looping
              | spin ↦ polling yielding cfg.spin_iterations
              | yielding ↦ polling park cfg.yield_rounds
              | park ↦ parking
            ];
          })
      go active within told =
          moved room f looping (record f.idle { level = active }) s within refl (λ d w. told d) tt
      go spin within told =
          moved room f (polling yielding cfg.spin_iterations) (record f.idle { level = spin }) s
            within refl (λ d w. told d) tt
      go yielding within told =
          moved room f (polling park cfg.yield_rounds) (record f.idle { level = yielding }) s within
            refl (λ d w. told d) tt
      go park within told =
          moved room f parking (record f.idle { level = park }) s within refl (λ d w. told d) tt

  pub poll-Seen :
      (room : ℕ) (next : IdleLevel) (left : ℕ) (f : Flags events)
      → Seen (suc room) f
      → f.run_at ≡ polling next left
      → Seen room (poll_step events next left f)
  unfolding poll_step
  poll-Seen room next zero f s at =
      moved room f looping (record f.idle { level = next }) s (ap inside at) refl
        (λ d w. s.told d (ap waits_next at)) tt
  poll-Seen room next (suc left) f s at = elim (Bool-cases (events.read f.idle.event_fd).0) [
    | inl e ↦
        rw (poll_step, e)
          (moved room f looping
            (record f.idle { event_fd = (events.read f.idle.event_fd).1; level = next }) s
            (ap inside at) refl (λ d w. s.told d (ap waits_next at)) tt)
    | inr e ↦
        rw (poll_step, e)
          (moved room f (polling next left)
            (record f.idle { event_fd = (events.read f.idle.event_fd).1 }) s (ap inside at) refl
            (λ d w. s.told d (ap waits_next at)) tt)
  ]

  pub park-Seen :
      (room : ℕ) (f : Flags events)
      → Seen (suc room) f
      → f.run_at ≡ parking
      → Seen room (park_step events f)
  unfolding park_step idle_park
  park-Seen room f s at = elim (Bool-cases f.idle.pending_notify) [
    | inl p ↦
        rw (park_step, p)
          (moved room f looping (record f.idle { pending_notify = false; level = active }) s
            (ap inside at) refl (λ d w. absurd (true≢false (sym w))) tt)
    | inr p ↦ elim (Bool-cases (events.read f.idle.event_fd).0) [
      | inl e ↦
          rw (park_step, p, e)
            (moved room f looping
              (record f.idle {
                pending_notify = false;
                event_fd = (events.read f.idle.event_fd).1;
                level = active;
              })
              s (ap inside at) refl (λ d w. absurd (true≢false (sym w))) tt)
      | inr e ↦
          rw (park_step, p, e)
            (moved room f (asleep f.idle.park_generation)
              (record f.idle { pending_notify = false; event_fd = (events.read f.idle.event_fd).1 })
              s (ap inside at) refl (λ d w. absurd (true≢false (sym w)))
              (not_told f.stop_at (λ d. s.told d (ap waits_next at)) p))
    ]
  ]
    where
      not_told :
          (stop : StopAt)
          → (is_done stop ≡ true → f.idle.pending_notify ≡ true)
          → f.idle.pending_notify ≡ false
          → Slept (asleep f.idle.park_generation) (is_done stop) f.idle.park_generation
      not_told done told p = absurd (true≢false (sym (told refl) ∙ p))
      not_told not_yet told p = omega arith
      not_told asked told p = omega arith
      not_told cleared told p = omega arith
