-- ===== src/Ring/Mpmc/Single.antt =====
-- The calls of mpmc_ring.h for one element.
use mathlib.Core.Path.{subst}
use storage_engine.Prelude.{
  ℕ, zero, suc, ◌-◌, ◌≡◌, refl, sym, ap, ◌∙◌, inl, inr, Option, none, some, List, [], ◌∷◌, ◌++◌,
  arith, length, take, drop, append-nil, ltb, if◌then◌else◌, Bool-cases,
}
use storage_engine.Ring.Mpmc.{
  dequeue, dequeue_bulk, enqueue_bulk, MpmcRing, first, enqueue, dequeue_mc, dequeue_bulk_mc, count,
}
use storage_engine.Ring.Mpmc.Contents.{IsValid, contents, length-contents}
use storage_engine.Ring.Mpmc.Refine.{
  enqueue_bulk_refines, dequeue_bulk_refines, dequeue_bulk_mc-eq-dequeue_bulk,
}

module _ {ℓ} {A : Type ℓ} where
  -- The oldest element and what is left, or nothing.
  pub data Taken (r : MpmcRing A) : Option A × MpmcRing A → Type ℓ where
    nothing : (r' : MpmcRing A) → contents r ≡ [] → Taken r (none, r')
    oldest :
        (x : A) (r' : MpmcRing A) → contents r ≡ x ∷ contents r' → IsValid r' → Taken r (some x, r')

  from_bulk :
      (r r' : MpmcRing A) (out held : List A)
      → contents r ≡ held
      → out ≡ take 1 held
      → contents r' ≡ drop 1 held
      → IsValid r'
      → Taken r (first out, r')
  from_bulk r r' out [] e o d v = subst (λ t. Taken r (first t, r')) (sym o) (nothing r' e)
  from_bulk r r' out (x ∷ held) e o d v =
      subst (λ t. Taken r (first t, r')) (sym o) (oldest x r' (e ∙ ap (λ t. x ∷ t) (sym d)) v)

  pub dequeue_mc-Taken : (r : MpmcRing A) → IsValid r → Taken r (dequeue_mc r)
  unfolding dequeue_mc
  dequeue_mc-Taken r v =
      let (o, d, v') = dequeue_bulk_refines r 1 v in
      let e = dequeue_bulk_mc-eq-dequeue_bulk r 1 in
      from_bulk r (dequeue_bulk_mc r 1).1 (dequeue_bulk_mc r 1).0 (contents r) refl (rw e o)
        (rw e d) (rw e v')

  pub dequeue-Taken : (r : MpmcRing A) → IsValid r → Taken r (dequeue r)
  unfolding dequeue
  dequeue-Taken r v =
      let (o, d, v') = dequeue_bulk_refines r 1 v in
      from_bulk r (dequeue_bulk r 1).1 (dequeue_bulk r 1).0 (contents r) refl o d v'

  pub enqueue-capacity : (r : MpmcRing A) (x : A) → (enqueue r x).1.capacity ≡ r.capacity
  unfolding enqueue enqueue_bulk
  enqueue-capacity r x = ground arith

  -- An element is appended if there is room, and dropped if not.
  pub enqueue_one :
      (r : MpmcRing A) (x : A)
      → IsValid r
      → (contents (enqueue r x).1
          ≡ (if ltb (length (contents r)) r.capacity then contents r ++ (x ∷ []) else contents r))
        × IsValid (enqueue r x).1
  unfolding enqueue
  enqueue_one r x v =
      let (n, e, v') = enqueue_bulk_refines r (x ∷ []) v in
      (
        elim (Bool-cases (ltb (length (contents r)) r.capacity)) [
          | inl q ↦
              let room : r.capacity - count r ≡ suc (r.capacity - count r - 1) =
                ground (arith, q, length-contents r) in
              rw q (
                e
                ∙ ap (λ k. contents r ++ take k (x ∷ [])) room
                ∙ take_one (r.capacity - count r - 1))
          | inr q ↦
              let full : r.capacity - count r ≡ 0 = ground (arith, q, length-contents r) in
              rw q (e ∙ ap (λ k. contents r ++ take k (x ∷ [])) full ∙ append-nil (contents r))
        ],
        v',
      )
    where
      take_one : (k : ℕ) → contents r ++ take (suc k) (x ∷ []) ≡ contents r ++ (x ∷ [])
      take_one zero = refl
      take_one (suc k) = refl
