-- ===== src/Sync/Baton/Wakeups.antt =====
-- No wake-up is lost, along a run of the baton's operations in any order.
use mathlib.Core.List.{Perm}
use mathlib.Core.List.Perm
use storage_engine.Prelude.{
  ℕ, ◌≡◌, ◌≢◌, refl, Bool, true, false, List, [], ◌∷◌, ◌++◌, map, if◌then◌else◌, arith, leb, inl,
  inr, Bool-cases,
}
use storage_engine.Sync.Waiters.{Waiter, resume_chain, woken, handles, woken-resume_chain}
use storage_engine.Sync.Baton.{
  Baton, posted, chain, ready, await_suspend, post, post_direct, reset, TimedStart, armed,
  timed_suspend, on_expire, timed_out_at_once, already_posted,
}

-- The baton, the coroutines that suspended on it and that it resumed, and those whose timer has set the
-- flag of their awaiter; latest first.
pub record System : Type 0 where
  pub baton : Baton
  pub suspended : List ℕ
  pub resumed : List ℕ
  pub marked : List ℕ

pub data Event : Type 0 where
  waits : Waiter → Event  -- co_await: await_ready, then await_suspend
  waits_for : ℕ → Bool → Waiter → Event  -- co_await of wait_for
  posts : Event
  resets : Event
  expires : Waiter → Event  -- the timer of a wait_for runs out

abbrev waiting : Baton → List ℕ
waiting posted = []
waiting (chain ws) = handles ws

abbrev is_armed : TimedStart → Bool
is_armed armed = true
is_armed timed_out_at_once = false
is_armed already_posted = false

abbrev note_if : Bool → ℕ → List ℕ → List ℕ
note_if b h hs = if b then h ∷ hs else hs

unfoldable pub step : System → Event → System
unfolding ready await_suspend post reset timed_suspend on_expire
step s (waits w) =
    let (asleep, b) = await_suspend w s.baton in
    record s {
      baton = if ready s.baton then s.baton else b;
      suspended = note_if (if ready s.baton then false else asleep) w.handle s.suspended;
    }
step s (waits_for timeout has_timer w) =
    let (start, b) = timed_suspend timeout has_timer w s.baton in
    record s {
      baton = if ready s.baton then s.baton else b;
      suspended = note_if (if ready s.baton then false else is_armed start) w.handle s.suspended;
    }
step s posts =
    let (wakes, b) = post s.baton in record s { baton = b; resumed = map woken wakes ++ s.resumed }
step s resets = record s { baton = reset s.baton }
step s (expires w) =
    let (own, wakes, b) = on_expire w s.baton in
    record s { baton = b; resumed = map woken wakes ++ s.resumed; marked = own ∷ s.marked }

unfoldable pub run : System → List Event → System
run s [] = s
run s (e ∷ es) = run (step s e) es

-- Each coroutine that suspended has been resumed once or is on the chain.
abbrev pub Accounted : System → Type 0
Accounted s = Perm s.suspended (waiting s.baton ++ s.resumed)

posts_on :
    (b : Baton) (old new : List ℕ)
    → Perm old (waiting b ++ new)
    → Perm old (map woken (post b).0 ++ new)
unfolding post resume_chain
posts_on posted old new a = a
posts_on (chain ws) old new a = rw (woken-resume_chain ws) a

step_on :
    (b : Baton) (old new marked : List ℕ) (e : Event)
    → Perm old (waiting b ++ new)
    → Accounted (step (record { baton = b; suspended = old; resumed = new; marked = marked }) e)
unfolding step
step_on posted old new marked (waits w) a = a
step_on (chain ws) old new marked (waits w) a = Perm.cons w.handle a
step_on posted old new marked (waits_for timeout has_timer w) a = a
step_on (chain ws) old new marked (waits_for timeout true w) a = elim (Bool-cases (leb timeout 0)) [
  | inl now ↦ rw (now, timed_suspend) a
  | inr later ↦ rw (later, timed_suspend) (Perm.cons w.handle a)
]
step_on (chain ws) old new marked (waits_for timeout false w) a =
    elim (Bool-cases (leb timeout 0)) [
      | inl now ↦ rw (now, timed_suspend) a
      | inr later ↦ rw (later, timed_suspend) a
    ]
step_on b old new marked posts a = posts_on b old new a
step_on posted old new marked resets a = a
step_on (chain ws) old new marked resets a = a
step_on b old new marked (expires w) a = posts_on b old new a

pub step-Accounted : (s : System) (e : Event) → Accounted s → Accounted (step s e)
step-Accounted s e a = step_on s.baton s.suspended s.resumed s.marked e a

-- A run of events from a state in which the coroutines that suspended are, each as often, those that
-- were resumed and those on the chain (a fresh baton, for one) ends in such a state.
pub run-Accounted : (s : System) (es : List Event) → Accounted s → Accounted (run s es)
unfolding run
run-Accounted s [] a = a
run-Accounted s (e ∷ es) a = run-Accounted (step s e) es (step-Accounted s e a)

-- A posted baton suspends nobody, and stays so under every event but a reset.
pub posted_admits :
    (s : System) (e : Event)
    → s.baton ≡ posted
    → e ≢ resets
    → ((step s e).baton ≡ posted) × ((step s e).suspended ≡ s.suspended)
unfolding step
posted_admits s (waits w) p n = ground arith
posted_admits s (waits_for timeout has_timer w) p n = ground arith
posted_admits s posts p n = ground arith
posted_admits s resets p n = absurd (n refl)
posted_admits s (expires w) p n = ground arith

-- `post_direct` takes each waiter's own route, as `post` does.
pub post_direct-eq-post : (b : Baton) → post_direct b ≡ post b
unfolding post_direct post
post_direct-eq-post b = refl
