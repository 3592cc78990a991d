-- ===== src/Idle.antt =====
-- src/runtime/adaptive_idle.h and .cc. The event descriptor is the kernel's: a parameter, of which is
-- used that a read succeeds behind a write and empties the descriptor.
pub mod Wakeups
use storage_engine.Prelude.{
  ℕ, zero, suc, ◌+◌, ◌≡◌, Bool, true, false, ◌||◌, if◌then◌else◌, add_word, not, ◌==◌,
}

pub data IdleLevel : Type 0 where
  active spin yielding park : IdleLevel

pub record EventFd : Type 1 where
  pub Fd : Type 0
  pub read : Fd → Bool × Fd
  pub write : Fd → Fd
  pub read-write : (fd : Fd) → (read (write fd)).0 ≡ true
  pub read-read : (fd : Fd) → (read (read fd).1).0 ≡ false

pub record Config : Type 0 where
  pub spin_iterations : ℕ
  pub yield_rounds : ℕ

module _ (events : EventFd) where
  open events use {Fd, read, write}

  pub record AdaptiveIdle : Type 0 where
    pub event_fd : Fd
    pub level : IdleLevel
    pub park_generation : ℕ
    pub pending_notify : Bool

  unfoldable pub notify : AdaptiveIdle → AdaptiveIdle
  notify s = record s {
    pending_notify = true;
    park_generation = add_word s.park_generation 1;
    event_fd = write s.event_fd;
  }

  -- The loop of idle_spin() and of idle_yield(), `rounds` left; another thread may notify before each
  -- read.
  unfoldable pub poll : (ℕ → Bool) → ℕ → AdaptiveIdle → AdaptiveIdle
  poll arrives zero s = s
  poll arrives (suc rounds) s =
      let now = if arrives rounds then notify s else s in
      let (got, fd) = read now.event_fd in
      let rest = poll arrives rounds (record now { event_fd = fd }) in
      if got then record now { event_fd = fd; level = active } else rest

  -- Back in the worker's loop, or waiting for the generation to change.
  pub data Outcome : Type 0 where
    returned : AdaptiveIdle → Outcome
    waiting : ℕ → AdaptiveIdle → Outcome

  -- The descriptor is read only if nothing is pending.
  unfoldable pub idle_park : AdaptiveIdle → Outcome
  idle_park s =
      let (got, fd) = read s.event_fd in
      if s.pending_notify
      then returned (record s { pending_notify = false; level = active })
      else (if got
          then returned (record s { pending_notify = false; event_fd = fd; level = active })
          else waiting s.park_generation (record s { pending_notify = false; event_fd = fd }))

  -- The condition on which the wait ends, and what follows it.
  unfoldable pub wait_over : ℕ → AdaptiveIdle → Bool
  wait_over gen s = not (s.park_generation == gen)

  abbrev pub wait_done : AdaptiveIdle → AdaptiveIdle
  wait_done s = record s { level = active }

  unfoldable pub at_level : Config → (ℕ → Bool) → IdleLevel → AdaptiveIdle → Outcome
  at_level cfg arrives active s = returned s
  at_level cfg arrives spin s =
      returned (record (poll arrives cfg.spin_iterations s) { level = yielding })
  at_level cfg arrives yielding s =
      returned (record (poll arrives cfg.yield_rounds s) { level = park })
  at_level cfg arrives park s = idle_park s

  abbrev pub from_active : IdleLevel → IdleLevel
  from_active active = spin
  from_active spin = spin
  from_active yielding = yielding
  from_active park = park

  unfoldable pub enter_idle : Config → (ℕ → Bool) → AdaptiveIdle → Outcome
  enter_idle cfg arrives s =
      let level = from_active s.level in at_level cfg arrives level (record s { level = level })

  -- The worker's loop: `calls` calls in a row, no work between them, until one waits.
  unfoldable pub idle_calls : Config → (ℕ → Bool) → ℕ → AdaptiveIdle → Outcome
  idle_calls cfg arrives zero s = returned s
  idle_calls cfg arrives (suc calls) s = elim (enter_idle cfg arrives s) [
    | returned s' ↦ idle_calls cfg arrives calls s'
    | waiting gen s' ↦ waiting gen s'
  ]
