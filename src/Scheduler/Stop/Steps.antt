-- ===== src/Scheduler/Stop/Steps.antt =====
-- Every step of the hand-shake of run and request_stop in scheduler.cc keeps what its threads rely on.
use mathlib.Core.Path.{subst}
use mathlib.Core.Bool.{true≢false}
use storage_engine.Prelude.{
  ℕ, suc, ◌+◌, ◌<◌, ◌≡◌, refl, sym, ap, ◌∙◌, inl, inr, Bool, true, false, arith, if◌then◌else◌,
  Bool-cases, word, add_word,
}
use storage_engine.Idle.{EventFd, Config, AdaptiveIdle, notify, wait_over, wait_done}
use storage_engine.Scheduler.Stop.{
  RunAt, entering, testing, leaving, telling, looping, working, idling, parking, ended, polling,
  asleep, StopAt, not_yet, asked, cleared, done, Flags, run_step, stop_step, FlagEvent, of_run,
  of_stop, of_other, flag_step,
}
use storage_engine.Scheduler.Stop.Seen.{
  is_asked, is_cleared, is_done, cleared-asked, done-cleared, inside, waits_next, Slept, Seen,
  moved, idle-Seen, poll-Seen, park-Seen,
}

waits-inside : (at : RunAt) → inside at ≡ false → waits_next at ≡ true → inside at ≡ true
waits-inside entering o w = w
waits-inside testing o w = w
waits-inside leaving o w = w
waits-inside telling o w = w
waits-inside looping o w = refl
waits-inside working o w = refl
waits-inside idling o w = refl
waits-inside parking o w = refl
waits-inside ended o w = w
waits-inside (polling next left) o w = refl
waits-inside (asleep gen) o w = refl

module _ (events : EventFd) where
  slept_outside :
      (at : RunAt) (stopped : Bool) (generation : ℕ)
      → inside at ≡ false
      → Slept events at stopped generation
  slept_outside entering stopped generation o = tt
  slept_outside testing stopped generation o = tt
  slept_outside leaving stopped generation o = tt
  slept_outside telling stopped generation o = tt
  slept_outside looping stopped generation o = tt
  slept_outside working stopped generation o = tt
  slept_outside idling stopped generation o = tt
  slept_outside parking stopped generation o = tt
  slept_outside ended stopped generation o = tt
  slept_outside (polling next left) stopped generation o = tt
  slept_outside (asleep gen) stopped generation o = absurd (true≢false o)

  -- A step of `run` outside its loop.
  outside :
      (room : ℕ) (f : Flags events) (at : RunAt) (running : Bool) (idle : AdaptiveIdle events)
      → Seen events (suc room) f
      → inside at ≡ false
      → idle.park_generation + room < word
      → Seen events room (record f { running = running; idle = idle; run_at = at })
  outside room f at running idle s o fits = record {
    request = s.request;
    halted = λ c i. absurd (true≢false (sym i ∙ o));
    told = λ d w. absurd (true≢false (sym (waits-inside at o w) ∙ o));
    slept = slept_outside at (is_done f.stop_at) idle.park_generation o;
    in_word = fits;
  }

  stays : (room : ℕ) (f : Flags events) → Seen events (suc room) f → Seen events room f
  stays room f s = record {
    request = s.request;
    halted = s.halted;
    told = s.told;
    slept = s.slept;
    in_word = omega (arith, s.in_word);
  }

  pub run-Seen :
      (room : ℕ) (cfg : Config) (goes_idle : Bool) (f : Flags events)
      → Seen events (suc room) f
      → Seen events room (run_step events cfg goes_idle f)
  unfolding run_step notify
  run-Seen room cfg goes_idle f s = go f.run_at refl
    where
      fits : f.idle.park_generation + room < word
      fits = omega (arith, s.in_word)

      turns : Flags events → RunAt → RunAt → Bool → Type 0
      turns f first other b = Seen events room (record f { run_at = if b then first else other })

      go : (at : RunAt) → f.run_at ≡ at → Seen events room (run_step events cfg goes_idle f)
      go entering e = rw (run_step, e) (outside room f testing true f.idle s refl fits)
      go testing e =
          rw (run_step, e)
            (elim (Bool-cases f.stop_requested) [
              | inl q ↦
                  subst (turns f leaving looping) (sym q)
                    (outside room f leaving f.running f.idle s refl fits)
              | inr q ↦ subst (turns f leaving looping) (sym q) (record {
                request = s.request;
                halted =
                    λ c i. absurd (true≢false (sym (s.request (cleared-asked f.stop_at c)) ∙ q));
                told = λ d w. absurd (true≢false (sym w));
                slept = tt;
                in_word = fits;
              })
            ])
      go leaving e = rw (run_step, e) (outside room f telling false f.idle s refl fits)
      go telling e =
          rw (run_step, e)
            (outside room f ended f.running (notify events f.idle) s refl
              (omega (arith, s.in_word)))
      go looping e =
          rw (run_step, e)
            (elim (Bool-cases f.running) [
              | inl q ↦ subst (turns f working ended) (sym q) (
                  moved events room f working f.idle s (ap inside e) refl
                    (λ d w.
                      absurd
                        (true≢false (sym q ∙ s.halted (done-cleared f.stop_at d) (ap inside e))))
                    tt)
              | inr q ↦
                  subst (turns f working ended) (sym q)
                    (outside room f ended f.running f.idle s refl fits)
            ])
      go working e = elim (Bool-cases goes_idle) [
        | inl q ↦
            rw (run_step, e, q)
              (moved events room f idling f.idle s (ap inside e) refl
                (λ d w. s.told d (ap waits_next e)) tt)
        | inr q ↦
            rw (run_step, e, q)
              (moved events room f looping f.idle s (ap inside e) refl
                (λ d w. absurd (true≢false (sym w))) tt)
      ]
      go idling e = rw (run_step, e) (idle-Seen events room cfg f s e)
      go (polling next left) e = rw (run_step, e) (poll-Seen events room next left f s e)
      go parking e = rw (run_step, e) (park-Seen events room f s e)
      go (asleep gen) e = elim (Bool-cases (wait_over events gen f.idle)) [
        | inl q ↦
            rw (run_step, e, q)
              (moved events room f looping (wait_done events f.idle) s (ap inside e) refl
                (λ d w. absurd (true≢false (sym w))) tt)
        | inr q ↦ rw (run_step, e, q) (stays room f s)
      ]
      go ended e = rw (run_step, e) (stays room f s)

  -- A notification does not bring the generation back.
  grown :
      (at : RunAt) (stopped : Bool) (generation room : ℕ)
      → generation + suc room < word
      → Slept events at stopped generation
      → Slept events at stopped (add_word generation 1)
  grown entering stopped generation room lt s = tt
  grown testing stopped generation room lt s = tt
  grown leaving stopped generation room lt s = tt
  grown telling stopped generation room lt s = tt
  grown looping stopped generation room lt s = tt
  grown working stopped generation room lt s = tt
  grown idling stopped generation room lt s = tt
  grown parking stopped generation room lt s = tt
  grown ended stopped generation room lt s = tt
  grown (polling next left) stopped generation room lt s = tt
  grown (asleep gen) true generation room lt s = omega (arith, lt, s)
  grown (asleep gen) false generation room lt s = omega (arith, lt, s)

  -- It ends the wait of a worker that is asleep.
  ended_wait :
      (at : RunAt) (generation room : ℕ)
      → generation + suc room < word
      → Slept events at false generation
      → Slept events at true (add_word generation 1)
  ended_wait entering generation room lt s = tt
  ended_wait testing generation room lt s = tt
  ended_wait leaving generation room lt s = tt
  ended_wait telling generation room lt s = tt
  ended_wait looping generation room lt s = tt
  ended_wait working generation room lt s = tt
  ended_wait idling generation room lt s = tt
  ended_wait parking generation room lt s = tt
  ended_wait ended generation room lt s = tt
  ended_wait (polling next left) generation room lt s = tt
  ended_wait (asleep gen) generation room lt s = omega (arith, lt, s)

  notify-Seen :
      (room : ℕ) (f : Flags events)
      → Seen events (suc room) f
      → Seen events room (record f { idle = notify events f.idle })
  unfolding notify
  notify-Seen room f s = record {
    request = s.request;
    halted = s.halted;
    told = λ d w. refl;
    slept = grown f.run_at (is_done f.stop_at) f.idle.park_generation room s.in_word s.slept;
    in_word = omega (arith, s.in_word);
  }

  stop-Seen :
      (room : ℕ) (f : Flags events)
      → Seen events (suc room) f
      → Seen events room (stop_step events f)
  unfolding stop_step notify
  stop-Seen room f s = go f.stop_at refl
    where
      slept_at :
          (stop : StopAt)
          → f.stop_at ≡ stop
          → Slept events f.run_at (is_done stop) f.idle.park_generation
      slept_at stop e =
          subst (λ st. Slept events f.run_at (is_done st) f.idle.park_generation) e s.slept

      go : (stop : StopAt) → f.stop_at ≡ stop → Seen events room (stop_step events f)
      go not_yet e =
          rw (stop_step, e)
            (record {
              request = λ q. refl;
              halted = λ c i. absurd (true≢false (sym c));
              told = λ d w. absurd (true≢false (sym d));
              slept = slept_at not_yet e;
              in_word = omega (arith, s.in_word);
            })
      go asked e =
          rw (stop_step, e)
            (record {
              request = λ q. s.request (ap is_asked e);
              halted = λ c i. refl;
              told = λ d w. absurd (true≢false (sym d));
              slept = slept_at asked e;
              in_word = omega (arith, s.in_word);
            })
      go cleared e =
          rw (stop_step, e)
            (record {
              request = λ q. s.request (ap is_asked e);
              halted = λ c i. s.halted (ap is_cleared e) i;
              told = λ d w. refl;
              slept =
                  ended_wait f.run_at f.idle.park_generation room s.in_word (slept_at cleared e);
              in_word = omega (arith, s.in_word);
            })
      go done e = rw (stop_step, e) (stays room f s)

  pub step-Seen :
      (room : ℕ) (cfg : Config) (e : FlagEvent events) (f : Flags events)
      → Seen events (suc room) f
      → Seen events room (flag_step events cfg e f)
  unfolding flag_step
  step-Seen room cfg (of_run goes_idle) f s = run-Seen room cfg goes_idle f s
  step-Seen room cfg of_stop f s = stop-Seen room f s
  step-Seen room cfg of_other f s = notify-Seen room f s
