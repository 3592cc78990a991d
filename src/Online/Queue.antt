-- ===== src/Online/Queue.antt =====
-- The classes of work_queue.h that an online worker (online_worker.h) has as queues, and moving the
-- items of one into another: a virtual call is the case of the class.
pub mod Migration
use storage_engine.Prelude.{
  ℕ, zero, suc, ◌-◌, ◌≤◌, ◌<◌, ◌≡◌, refl, sym, ap, ◌∙◌, Bool, true, false, Option, none, some, List,
  [], ◌∷◌, ◌++◌, length, ltb, if◌then◌else◌, arith,
}
use storage_engine.Work.{WorkItem}
use storage_engine.Policy.Types.{QueueType, Priority}
use storage_engine.Ring.Mpmc as Mpmc
use storage_engine.Ring.Mpmc.{MpmcRing}
use storage_engine.Ring.Local as Local
use storage_engine.Ring.Local.{LocalQueue}
use storage_engine.Ring.Spsc as Spsc
use storage_engine.Ring.Spsc.{SpscQueue}

-- The template's default capacity.
abbrev pub spsc_capacity : ℕ
spsc_capacity = 4096

-- Of every LocalWorkQueue: the capacity that its constructor is given goes nowhere.
abbrev pub local_capacity : ℕ
local_capacity = 1024

pub data WorkerQueue : Type 0 where
  ring affine : MpmcRing WorkItem → WorkerQueue
  local : LocalQueue WorkItem → WorkerQueue
  spsc : SpscQueue WorkItem → WorkerQueue

unfoldable pub try_dequeue : WorkerQueue → Option WorkItem × WorkerQueue
try_dequeue (ring r) = let (got, r') = Mpmc.dequeue r in (got, ring r')
try_dequeue (affine r) = let (got, r') = Mpmc.dequeue r in (got, affine r')
try_dequeue (local q) = let (got, q') = Local.try_dequeue local_capacity q in (got, local q')
try_dequeue (spsc q) = let (got, q') = Spsc.try_dequeue spsc_capacity q in (got, spsc q')

unfoldable pub enqueue : WorkerQueue → WorkItem → WorkerQueue
enqueue (ring r) item = ring (Mpmc.enqueue r item).1
enqueue (affine r) item = affine (Mpmc.enqueue r item).1
enqueue (local q) item = local (Local.try_enqueue local_capacity q item).1
enqueue (spsc q) item = spsc (Spsc.enqueue spsc_capacity q item)

-- The casts in the loop of `swap_engine_queue`: an item for a queue of another class is dropped.
unfoldable pub move_item : WorkerQueue → WorkItem → WorkerQueue
unfolding enqueue
move_item (spsc q) item = spsc q
move_item (ring r) item = enqueue (ring r) item
move_item (affine r) item = enqueue (affine r) item
move_item (local q) item = enqueue (local q) item

-- The loop, with fuel; `none` is fuel run out.
unfoldable pub migrate : ℕ → WorkerQueue → WorkerQueue → Option WorkerQueue
unfolding try_dequeue move_item
migrate zero old_q new_queue = none
migrate (suc fuel) old_q new_queue =
    let (got, rest) = try_dequeue old_q in
    elim got [ none ↦ some new_queue | some item ↦ migrate fuel rest (move_item new_queue item) ]

-- `semantic() == QueueSemantic::kLocal`.
abbrev pub is_local : WorkerQueue → Bool
is_local (ring r) = false
is_local (affine r) = false
is_local (local q) = true
is_local (spsc q) = false
