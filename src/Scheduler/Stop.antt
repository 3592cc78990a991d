-- ===== src/Scheduler/Stop.antt =====
-- The hand-shake of run and request_stop in scheduler.cc, which run on two threads, with the idle levels
-- of adaptive_idle.cc in which run waits: each load or store of the two flags, each read of the event
-- descriptor, each section under the park mutex is one step, in any order of the threads' steps. `idle_`
-- is taken to be set, as the worker that makes the scheduler does.
pub mod Seen
pub mod Steps
pub mod Bound
pub mod Return
use storage_engine.Prelude.{ℕ, zero, suc, ◌≡◌, Bool, true, false, List, [], ◌∷◌, if◌then◌else◌}
use storage_engine.Idle.{
  IdleLevel, active, spin, yielding, park, EventFd, Config, AdaptiveIdle, notify, idle_park,
  returned, waiting, wait_over, wait_done, from_active,
}

-- `run`: before its first store; before the test of stop_requested; on its way out after that test;
-- before the loop's test of running; in a round; in enter_idle, in its loops of reads, before and in
-- the wait of idle_park; back.
pub data RunAt : Type 0 where
  entering testing leaving telling looping working idling parking ended : RunAt
  polling : (next : IdleLevel) (left : ℕ) → RunAt
  asleep : (gen : ℕ) → RunAt

-- `request_stop`: before its first store, its second, its notification; done.
pub data StopAt : Type 0 where
  not_yet asked cleared done : StopAt

module _ (events : EventFd) where
  pub record Flags : Type 0 where
    pub running : Bool
    pub stop_requested : Bool
    pub idle : AdaptiveIdle events
    pub run_at : RunAt
    pub stop_at : StopAt

  -- The switch of enter_idle.
  unfoldable pub idle_step : Config → Flags → Flags
  idle_step cfg f =
      let level = from_active events f.idle.level in
      record f {
        idle = record f.idle { level = level };
        run_at = elim level [
          | active ↦ looping
          | spin ↦ polling yielding cfg.spin_iterations
          | yielding ↦ polling park cfg.yield_rounds
          | park ↦ parking
        ];
      }

  -- A turn of the loop of idle_spin or idle_yield; both leave the level next to theirs.
  unfoldable pub poll_step : IdleLevel → ℕ → Flags → Flags
  poll_step next zero f = record f { idle = record f.idle { level = next }; run_at = looping }
  poll_step next (suc left) f =
      let (got, fd) = events.read f.idle.event_fd in
      if got
      then record f { idle = record f.idle { event_fd = fd; level = next }; run_at = looping }
      else record f { idle = record f.idle { event_fd = fd }; run_at = polling next left }

  unfoldable pub park_step : Flags → Flags
  park_step f = elim (idle_park events f.idle) [
    | returned s ↦ record f { idle = s; run_at = looping }
    | waiting gen s ↦ record f { idle = s; run_at = asleep gen }
  ]

  -- `goes_idle` is what a round decides: to call enter_idle, or to go on.
  unfoldable pub run_step : Config → (goes_idle : Bool) → Flags → Flags
  unfolding idle_step poll_step park_step
  run_step cfg goes_idle f = elim f.run_at [
    | entering ↦ record f { running = true; run_at = testing }
    | testing ↦ record f { run_at = if f.stop_requested then leaving else looping }
    | leaving ↦ record f { running = false; run_at = telling }
    | telling ↦ record f { idle = notify events f.idle; run_at = ended }
    | looping ↦ record f { run_at = if f.running then working else ended }
    | working ↦ record f { run_at = if goes_idle then idling else looping }
    | idling ↦ idle_step cfg f
    | polling next left ↦ poll_step next left f
    | parking ↦ park_step f
    | asleep gen ↦
        if wait_over events gen f.idle
        then record f { idle = wait_done events f.idle; run_at = looping }
        else f
    | ended ↦ f
  ]

  unfoldable pub stop_step : Flags → Flags
  stop_step f = elim f.stop_at [
    | not_yet ↦ record f { stop_requested = true; stop_at = asked }
    | asked ↦ record f { running = false; stop_at = cleared }
    | cleared ↦ record f { idle = notify events f.idle; stop_at = done }
    | done ↦ f
  ]

  -- `of_other` is a notification by a thread that puts an item into a queue.
  pub data FlagEvent : Type 0 where
    of_run : (goes_idle : Bool) → FlagEvent
    of_stop of_other : FlagEvent

  unfoldable pub flag_step : Config → FlagEvent → Flags → Flags
  unfolding run_step stop_step
  flag_step cfg (of_run goes_idle) f = run_step cfg goes_idle f
  flag_step cfg of_stop f = stop_step f
  flag_step cfg of_other f = record f { idle = notify events f.idle }

  abbrev pub flag_run : Config → List FlagEvent → Flags → Flags
  flag_run cfg [] f = f
  flag_run cfg (e ∷ later) f = flag_run cfg later (flag_step cfg e f)

  -- After reset_stop, before either thread has begun.
  abbrev pub at_start : Bool → AdaptiveIdle events → Flags
  at_start running idle = record {
    running = running;
    stop_requested = false;
    idle = idle;
    run_at = entering;
    stop_at = not_yet;
  }
