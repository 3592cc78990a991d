-- ===== src/Memory/Pool/Taken.antt =====
-- deallocate() of memory_pool.cc on small objects keeps the account of who holds what.
use mathlib.Core.Path.{subst}
use storage_engine.Prelude.{
  ℕ, suc, ◌+◌, ◌≤◌, ◌≡◌, refl, sym, ap, inl, inr, some, List, [], ◌∷◌, arith, update, Bool-cases,
  ◌==◌, ==_iff, ltb,
}
use storage_engine.Memory.ReturnRing.{ReturnRing}
use storage_engine.Memory.ReturnRing.Refine.{contents, Low, ring_enqueue}
use storage_engine.Memory.ReturnRing.Refine as Ring
use storage_engine.Memory.FreeList.{FreeList}
use storage_engine.Memory.State.{Pool, cache_deallocate, list_count}
use storage_engine.Memory.Pool.{deallocate_small}
use storage_engine.Memory.Pool.Slots.{Slot, one, copies, copies-append, remove, copies-remove}
use storage_engine.Memory.Pool.Ownership.{Owned, Roomy}

module _ (block_at object_at : ℕ → ℕ) where
  -- What is left of the account when the program gives an object up.
  pub record Taken (live : ℕ → List ℕ) (slots : List Slot) (c ptr : ℕ) (pool' : Pool) : Type 0 where
    pub owned : Owned block_at object_at pool' (update live c (remove ptr (live c))) slots

  -- The pointer goes into the thread's cache of deallocate(), out of every account.
  cached-Taken :
      (c ptr : ℕ) (cache : ℕ → ℕ → FreeList) (pool : Pool) (live : ℕ → List ℕ) (slots : List Slot)
      → Owned block_at object_at pool live slots
      → 1 ≤ copies ptr (live c)
      → Taken live slots c ptr (record pool { deallocate_cache = cache })
  cached-Taken c ptr cache pool live slots o has = record {
    owned = record {
      blocks = record {
        current = o.blocks.current;
        here = o.blocks.here;
        all = o.blocks.all;
        inside = o.blocks.inside;
      };
      rings = o.rings;
      unused_cache = o.unused_cache;
      placed = o.placed;
      ordered = o.ordered;
      held_once = λ k p. elim (Bool-cases (c == k)) [
        | inl q ↦ rw q (
            omega (
              arith,
              o.held_once k p,
              copies-remove ptr p (live c) has,
              ap (λ i. copies p (live i)) ((==_iff c k).0 q),
            ))
        | inr q ↦ rw q (o.held_once k p)
      ];
    };
  }

  -- The pointer goes into the return ring.
  returned-Taken :
      (c ptr : ℕ) (ring : ReturnRing) (pool : Pool) (live : ℕ → List ℕ) (slots : List Slot)
      → Owned block_at object_at pool live slots
      → 1 ≤ copies ptr (live c)
      → Ring.IsValid ring
      → ((p : ℕ) → copies p (contents ring) ≤ copies p (contents (pool.return_rings c)) + one p ptr)
      → Taken live slots c ptr (record pool { return_rings = update pool.return_rings c ring })
  returned-Taken c ptr ring pool live slots o has v more = record {
    owned = record {
      blocks = record {
        current = o.blocks.current;
        here = o.blocks.here;
        all = o.blocks.all;
        inside = o.blocks.inside;
      };
      rings = λ k. elim (Bool-cases (c == k)) [ inl q ↦ rw q v | inr q ↦ rw q (o.rings k) ];
      unused_cache = o.unused_cache;
      placed = o.placed;
      ordered = o.ordered;
      held_once = λ k p. elim (Bool-cases (c == k)) [
        | inl q ↦
            let same : c ≡ k = (==_iff c k).0 q in
            rw q (
              omega (
                arith,
                o.held_once k p,
                copies-remove ptr p (live c) has,
                more p,
                ap (λ i. copies p (live i)) same,
                ap (λ i. copies p (contents (pool.return_rings i))) same,
              ))
        | inr q ↦ rw q (o.held_once k p)
      ];
    };
  }

  -- A small object that the program holds can be given back, and then it holds it once less.
  pub deallocate_small-Owned :
      (retries thread c ptr : ℕ) (pool : Pool) (live : ℕ → List ℕ) (slots : List Slot)
      → Owned block_at object_at pool live slots
      → Roomy block_at object_at pool
      → 1 ≤ copies ptr (live c)
      → (pool' : Pool) × (deallocate_small block_at object_at (suc retries) thread c ptr pool
          ≡ some pool')
        × Taken live slots c ptr pool'
  unfolding deallocate_small
  deallocate_small-Owned retries thread c ptr pool live slots o roomy has =
      elim (Bool-cases (ltb 64 (list_count (pool.deallocate_cache thread) c))) [
        | inr q ↦ (
          (record pool {
            deallocate_cache =
                update pool.deallocate_cache thread
                  (cache_deallocate (pool.deallocate_cache thread) ptr c);
          }),
          rw (deallocate_small, q) refl,
          cached-Taken c ptr
              (update pool.deallocate_cache thread
                (cache_deallocate (pool.deallocate_cache thread) ptr c))
              pool live slots o has,
        )
        | inl q ↦
            let (res, e, outcome) =
              ring_enqueue retries ptr (pool.return_rings c) (o.rings c) (roomy.rings c) in
            (
              (record pool { return_rings = update pool.return_rings c res.1 }),
              rw (deallocate_small, q, e) refl,
              returned-Taken c ptr res.1 pool live slots o has
                  (elim outcome [
                    | inl (ok, v, all) ↦ v
                    | inr (ok, same, full) ↦ subst Ring.IsValid (sym same) (o.rings c)
                  ])
                  (elim outcome [
                    | inl (ok, v, all) ↦ λ p. omega (
                      arith,
                      ap (copies p) all,
                      copies-append p (contents (pool.return_rings c)) (ptr ∷ []),
                    )
                    | inr (ok, same, full) ↦
                        λ p. omega (arith, ap (λ r. copies p (contents r)) same)
                  ]),
            )
      ]
