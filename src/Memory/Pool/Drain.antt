-- ===== src/Memory/Pool/Drain.antt =====
-- Draining a return ring into a free list, in allocate() of memory_pool.cc.
use mathlib.Core.Path.{subst}
use storage_engine.Prelude.{ℕ, zero, suc, ◌+◌, ◌≡◌, refl, sym, ap, ◌∙◌, inl, inr, none, some, arith}
use storage_engine.Memory.ReturnRing.{ReturnRing, try_dequeue}
use storage_engine.Memory.ReturnRing.Refine.{contents, Low, ring_enqueue}
use storage_engine.Memory.ReturnRing.Dequeue.{ring_dequeue}
use storage_engine.Memory.ReturnRing.Refine as Ring
use storage_engine.Memory.FreeList.{FreeList, push}
use storage_engine.Memory.State.{drain}
use storage_engine.Memory.Pool.Slots.{copies}

-- The pointers stay, in the ring or in the list.
pub record Drained (ring : ReturnRing) (list : FreeList) (res : ReturnRing × FreeList)
    : Type 0 where
  pub valid : Ring.IsValid res.0
  pub same_tail : res.0.tail ≡ ring.tail
  pub kept :
      (p : ℕ)
      → copies p (contents res.0) + copies p res.1.nodes
        ≡ copies p (contents ring) + copies p list.nodes

drain-some :
    (left retries ptr : ℕ) (ring ring' : ReturnRing) (list : FreeList)
    → try_dequeue retries ring ≡ some (some ptr, ring')
    → drain (suc left) retries ring list ≡ drain left retries ring' (push ptr list)
unfolding drain
drain-some left retries ptr ring ring' list e = rw (drain, e) refl

drain-none :
    (left retries : ℕ) (ring ring' : ReturnRing) (list : FreeList)
    → try_dequeue retries ring ≡ some (none, ring')
    → drain (suc left) retries ring list ≡ some (ring', list)
unfolding drain
drain-none left retries ring ring' list e = rw (drain, e) refl

pub drain-Drained :
    (left retries : ℕ) (ring : ReturnRing) (list : FreeList)
    → Ring.IsValid ring
    → Low ring
    → (res : ReturnRing × FreeList) × (drain left (suc retries) ring list ≡ some res)
      × Drained ring list res
unfolding drain
drain-Drained zero retries ring list v low =
    ((ring, list), refl, record { valid = v; same_tail = refl; kept = λ p. refl })
drain-Drained (suc left) retries ring list v low =
    let (got, e, outcome) = ring_dequeue retries ring v low in
    elim outcome [
      | inl (ptr, found, v', held, tail) ↦
          let (res, e', d) =
            drain-Drained left retries got.1 (push ptr list) v' (omega (arith, tail, low)) in
          (
            res,
            drain-some left (suc retries) ptr ring got.1 list (e ∙ ap (λ f. some (f, got.1)) found)
                ∙ e',
            record {
              valid = d.valid;
              same_tail = d.same_tail ∙ tail;
              kept = λ p. omega (arith, d.kept p, ap (copies p) held);
            },
          )
      | inr (found, same, empty) ↦ (
        (got.1, list),
        drain-none left (suc retries) ring got.1 list (e ∙ ap (λ f. some (f, got.1)) found),
        record {
          valid = subst Ring.IsValid (sym same) v;
          same_tail = ap (λ r. r.tail) same;
          kept = λ p. ap (λ r. copies p (contents r) + copies p list.nodes) same;
        },
      )
    ]
