-- ===== src/Online/Queue/Migration.antt =====
-- What moving the items of one queue of an online worker into another leaves in the new one.
use mathlib.Core.Path.{subst}
use storage_engine.Prelude.{
  ℕ, zero, suc, ◌-◌, ◌<◌, ◌≡◌, refl, sym, ap, ◌∙◌, inl, inr, Bool, true, false, Option, none, some,
  List, [], ◌∷◌, ◌++◌, length, ltb, if◌then◌else◌, arith, take, append_assoc, take-nil,
  length-append, append-nil, Bool-cases,
}
use storage_engine.Work.{WorkItem}
use storage_engine.Ring.Capacity.{IsCapacity}
use storage_engine.Ring.Mpmc.Sizes.{power-IsCapacity}
use storage_engine.Ring.Fifo.{push, pop}
use storage_engine.Ring.Mpmc.{MpmcRing}
use storage_engine.Ring.Mpmc as Ring
use storage_engine.Ring.Mpmc.Contents as Mpmc
use storage_engine.Ring.Mpmc.Single.{
  Taken, nothing, oldest, dequeue-Taken, enqueue_one, enqueue-capacity,
}
use storage_engine.Ring.Local as LocalRing
use storage_engine.Ring.Local.{LocalQueue}
use storage_engine.Ring.Local.Inv as Local
use storage_engine.Ring.Local.Refine as LocalRefine
use storage_engine.Ring.Spsc as SpscRing
use storage_engine.Ring.Spsc.Single.{spsc-pop}
use storage_engine.Ring.Spsc.Refine as Spsc
use storage_engine.Online.Queue.{
  WorkerQueue, ring, affine, local, spsc, spsc_capacity, local_capacity, try_dequeue, enqueue,
  move_item, migrate,
}

abbrev pub IsValid : WorkerQueue → Type 0
IsValid (ring r) = Mpmc.IsValid r
IsValid (affine r) = Mpmc.IsValid r
IsValid (local q) = Local.IsValid local_capacity q
IsValid (spsc q) = Spsc.IsValid spsc_capacity q

abbrev pub contents : WorkerQueue → List WorkItem
contents (ring r) = Mpmc.contents r
contents (affine r) = Mpmc.contents r
contents (local q) = LocalRefine.contents local_capacity q
contents (spsc q) = Spsc.contents spsc_capacity q

-- How many items the queue may hold after items were moved into it.
abbrev pub room : WorkerQueue → ℕ
room (ring r) = r.capacity
room (affine r) = r.capacity
room (local q) = local_capacity - 1
room (spsc q) = 0

local-IsCapacity : IsCapacity local_capacity
local-IsCapacity = power-IsCapacity 10 (omega arith)

-- A queue's oldest item and the rest.
pub data Oldest (q : WorkerQueue) : Option WorkItem × WorkerQueue → Type 0 where
  empty : (q' : WorkerQueue) → contents q ≡ [] → Oldest q (none, q')
  first :
      (x : WorkItem) (q' : WorkerQueue)
      → contents q ≡ x ∷ contents q'
      → IsValid q'
      → Oldest q (some x, q')

from_pop :
    (q q' : WorkerQueue) (got : Option WorkItem) (held : List WorkItem)
    → contents q ≡ held
    → (got, contents q') ≡ pop held
    → IsValid q'
    → Oldest q (got, q')
unfolding pop
from_pop q q' got [] e p v = subst (λ g. Oldest q (g, q')) (sym (ap (λ t. t.0) p)) (empty q' e)
from_pop q q' got (x ∷ held) e p v =
    subst (λ g. Oldest q (g, q')) (sym (ap (λ t. t.0) p))
      (first x q' (e ∙ ap (λ t. x ∷ t) (sym (ap (λ t. t.1) p))) v)

from_ring :
    (wrap : MpmcRing WorkItem → WorkerQueue)
    → ((r : MpmcRing WorkItem) → contents (wrap r) ≡ Mpmc.contents r)
    → ((r : MpmcRing WorkItem) → Mpmc.IsValid r → IsValid (wrap r))
    → (r : MpmcRing WorkItem) (out : Option WorkItem × MpmcRing WorkItem) → Taken r out
    → Oldest (wrap r) (out.0, wrap out.1)
from_ring wrap same ok r out (nothing r' e) = empty (wrap r') (same r ∙ e)
from_ring wrap same ok r out (oldest x r' e v) =
    first x (wrap r') (same r ∙ e ∙ ap (λ t. x ∷ t) (sym (same r'))) (ok r' v)

pub try_dequeue-Oldest : (q : WorkerQueue) → IsValid q → Oldest q (try_dequeue q)
unfolding try_dequeue
try_dequeue-Oldest (ring r) v =
    from_ring ring (λ r'. refl) (λ r' v'. v') r (Ring.dequeue r) (dequeue-Taken r v)
try_dequeue-Oldest (affine r) v =
    from_ring affine (λ r'. refl) (λ r' v'. v') r (Ring.dequeue r) (dequeue-Taken r v)
try_dequeue-Oldest (local q) v =
    from_pop (local q) (local (LocalRing.try_dequeue local_capacity q).1)
      (LocalRing.try_dequeue local_capacity q).0 (LocalRefine.contents local_capacity q) refl
      (LocalRefine.try_dequeue_refines local-IsCapacity q v)
      (Local.try_dequeue-IsValid local-IsCapacity q v)
try_dequeue-Oldest (spsc q) v =
    let (e, v') = spsc-pop spsc_capacity q v in
    from_pop (spsc q) (spsc (SpscRing.try_dequeue spsc_capacity q).1)
      (SpscRing.try_dequeue spsc_capacity q).0 (Spsc.contents spsc_capacity q) refl e v'

pub record Moved (q : WorkerQueue) (x : WorkItem) (q' : WorkerQueue) : Type 0 where
  pub held :
      contents q'
      ≡ (if ltb (length (contents q)) (room q) then contents q ++ (x ∷ []) else contents q)
  pub same_room : room q' ≡ room q
  pub valid : IsValid q'

local_held :
    (capacity : ℕ) (q : LocalQueue WorkItem) (x : WorkItem)
    → (
      (LocalRing.try_enqueue capacity q x).0,
      LocalRefine.contents capacity (LocalRing.try_enqueue capacity q x).1,
    )
      ≡ push (capacity - 1) (LocalRefine.contents capacity q) x
    → LocalRefine.contents capacity (LocalRing.try_enqueue capacity q x).1 ≡ (
        if ltb (length (LocalRefine.contents capacity q)) (capacity - 1)
        then LocalRefine.contents capacity q ++ (x ∷ [])
        else LocalRefine.contents capacity q)
unfolding push
local_held capacity q x e =
    ap (λ t. t.1) e ∙ choose (ltb (length (LocalRefine.contents capacity q)) (capacity - 1))
  where
    choose :
        (b : Bool)
        → (if◌then◌else◌ {A = Bool × List WorkItem} b
            (true, LocalRefine.contents capacity q ++ (x ∷ []))
            (false, LocalRefine.contents capacity q)).1
          ≡ (if b
              then LocalRefine.contents capacity q ++ (x ∷ [])
              else LocalRefine.contents capacity q)
    choose true = refl
    choose false = refl

move_item-Moved : (q : WorkerQueue) (x : WorkItem) → IsValid q → Moved q x (move_item q x)
unfolding move_item enqueue
move_item-Moved (ring r) x v =
    let (e, v') = enqueue_one r x v in
    record { held = e; same_room = enqueue-capacity r x; valid = v' }
move_item-Moved (affine r) x v =
    let (e, v') = enqueue_one r x v in
    record { held = e; same_room = enqueue-capacity r x; valid = v' }
move_item-Moved (local q) x v = record {
  held = local_held local_capacity q x (LocalRefine.try_enqueue_refines local-IsCapacity q x v);
  same_room = refl;
  valid = Local.try_enqueue-IsValid local-IsCapacity q x v;
}
move_item-Moved (spsc q) x v = record { held = ground arith; same_room = refl; valid = v }

-- All that fits is appended in order, and what does not fit is dropped.
abbrev pub Filled : WorkerQueue → List WorkItem → WorkerQueue → Type 0
Filled q items q' =
    (contents q' ≡ contents q ++ take (room q - length (contents q)) items) × IsValid q'

fill_step :
    (limit : ℕ) (new : List WorkItem) (x : WorkItem) (rest : List WorkItem)
    → let more = if ltb (length new) limit then new ++ (x ∷ []) else new in
      more ++ take (limit - length more) rest ≡ new ++ take (limit - length new) (x ∷ rest)
fill_step limit new x rest = elim (Bool-cases (ltb (length new) limit)) [
  | inl e ↦
      let one_more : limit - length new ≡ suc (limit - length (new ++ (x ∷ []))) =
        ground (arith, e, length-append new (x ∷ [])) in
      rw (e, one_more) (append_assoc new (x ∷ []) (take (limit - length (new ++ (x ∷ []))) rest))
  | inr e ↦ let full : limit - length new ≡ 0 = ground (arith, e) in rw (e, full) refl
]

pub migrate-Filled :
    (fuel : ℕ) (old_q new_queue : WorkerQueue)
    → IsValid old_q
    → IsValid new_queue
    → length (contents old_q) < fuel
    → (filled : WorkerQueue) × (migrate fuel old_q new_queue ≡ some filled)
      × Filled new_queue (contents old_q) filled
unfolding migrate
migrate-Filled zero old_q new_queue v w enough = absurd (omega (arith, enough))
migrate-Filled (suc fuel) old_q new_queue v w enough =
    step (try_dequeue old_q) refl (try_dequeue-Oldest old_q v) (migrate-Filled fuel)
  where
    goes_on : Option WorkItem × WorkerQueue → Option WorkerQueue
    goes_on out = elim out.0 [
      | none ↦ some new_queue
      | some item ↦ migrate fuel out.1 (move_item new_queue item)
    ]

    step :
        (out : Option WorkItem × WorkerQueue)
        → try_dequeue old_q ≡ out
        → Oldest old_q out
        → ((q new : WorkerQueue)
            → IsValid q
            → IsValid new
            → length (contents q) < fuel
            → (filled : WorkerQueue) × (migrate fuel q new ≡ some filled)
              × Filled new (contents q) filled)
        → (filled : WorkerQueue) × (migrate (suc fuel) old_q new_queue ≡ some filled)
          × Filled new_queue (contents old_q) filled
    step out e (empty q' none_held) on = (
      new_queue,
      rw (migrate, e) refl,
      (
        sym (
            ap
              (λ items.
                contents new_queue ++ take (room new_queue - length (contents new_queue)) items)
              none_held
            ∙ ap (λ items. contents new_queue ++ items)
                (take-nil (room new_queue - length (contents new_queue)))
            ∙ append-nil (contents new_queue)),
        w,
      ),
    )
    step out e (first x q' held v') on =
        let moved = move_item-Moved new_queue x w in
        let (filled, runs, (has, ok)) =
          on q' (move_item new_queue x) v' moved.valid (omega (arith, enough, ap length held)) in
        (
          filled,
          ap goes_on e ∙ runs,
          (
            has
                ∙ ap
                    (λ k.
                      contents (move_item new_queue x)
                      ++ take (k - length (contents (move_item new_queue x))) (contents q'))
                    moved.same_room
                ∙ ap (λ items. items ++ take (room new_queue - length items) (contents q'))
                    moved.held
                ∙ fill_step (room new_queue) (contents new_queue) x (contents q')
                ∙ ap
                    (λ items.
                      contents new_queue
                      ++ take (room new_queue - length (contents new_queue)) items)
                    (sym held),
            ok,
          ),
        )
