-- ===== src/Ring/Spsc/Single.antt =====
-- The calls of batched_spsc_work_queue.cc for one element.
use mathlib.Core.Path.{ap₂}
use storage_engine.Prelude.{ℕ, ◌≡◌, refl, ◌∙◌, List, [], ◌∷◌, take, drop}
use storage_engine.Ring.Fifo.{pop}
use storage_engine.Ring.Spsc.{SpscQueue, first, try_dequeue}
use storage_engine.Ring.Spsc.Refine.{IsValid, contents, spsc_batch_refines}

module _ {ℓ} {A : Type ℓ} (capacity : ℕ) where
  take_first : (held : List A) → (first capacity (take 1 held), drop 1 held) ≡ pop held
  unfolding pop
  take_first [] = refl
  take_first (x ∷ held) = refl

  -- The consumer takes the oldest element, and fails on the empty queue alone.
  pub spsc-pop :
      (q : SpscQueue A)
      → IsValid capacity q
      → let (got, q') = try_dequeue capacity q in
        ((got, contents capacity q') ≡ pop (contents capacity q)) × IsValid capacity q'
  unfolding try_dequeue
  spsc-pop q v =
      let (o, d, v') = spsc_batch_refines capacity q 1 v in
      (ap₂ (λ out held. (first capacity out, held)) o d ∙ take_first (contents capacity q), v')
