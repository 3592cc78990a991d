-- ===== src/Sync/Baton/Expiry.antt =====
-- What the timer of one waiter on an affinity_baton.h does to the others.
use mathlib.Core.List.Perm
use mathlib.Core.List.{Perm}
use storage_engine.Prelude.{ℕ, Bool, false, ◌||◌, List, [], ◌∷◌, ◌==◌}
use storage_engine.Sync.Baton.{chain, WaitResult, await_resume}
use storage_engine.Sync.Baton.Wakeups.{System, Event, waits, waits_for, posts, resets, expires}

abbrev pub fresh : System
fresh = record { baton = chain []; suspended = []; resumed = []; marked = [] }

abbrev in_list : ℕ → List ℕ → Bool
in_list h [] = false
in_list h (x ∷ xs) = (x == h) || in_list h xs

-- What a coroutine that suspended in wait_for gets from await_resume.
abbrev pub reports : ℕ → System → WaitResult
reports h s = await_resume (in_list h s.marked)

-- Neither a post nor the end of a timer.
abbrev pub Quiet : Event → Type 0
Quiet posts = ⊥
Quiet (expires w) = ⊥
Quiet (waits w) = Unit
Quiet (waits_for left has_timer w) = Unit
Quiet resets = Unit
