-- ===== src/Memory/Pool/FromList.antt =====
-- allocate() of memory_pool.cc on small objects, from the ring, the free list or a block.
use mathlib.Core.Path.{subst}
use storage_engine.Prelude.{
  ℕ, suc, ◌+◌, ◌≤◌, ◌<◌, ◌^◌, ◌≡◌, refl, sym, ap, ◌⊎◌, inl, inr, none, some, List, [], ◌∷◌, arith,
  length, update, Bool-cases, ◌==◌, ==_iff, ltb,
}
use storage_engine.Memory.SizeClass.{class_size, num_size_classes}
use storage_engine.Memory.ReturnRing.Refine.{contents}
use storage_engine.Memory.FreeList.{FreeList, pop}
use storage_engine.Memory.State.{Pool, cache_allocate}
use storage_engine.Memory.Blocks.{allocate_from_block}
use storage_engine.Memory.Blocks.Carve as Carve
use storage_engine.Memory.Pool.{hit, miss, from_list, allocate_small}
use storage_engine.Memory.Pool.Slots.{Slot, copies}
use storage_engine.Memory.Pool.Ownership.{Owned, Roomy}
use storage_engine.Memory.Pool.Drain.{drain-Drained}
use storage_engine.Memory.Pool.Given.{Given, popped-Given, Cut-Given}

module _ (block_at object_at : ℕ → ℕ) where
  List-cases : (xs : List ℕ) → (xs ≡ []) ⊎ ((x : ℕ) × (ys : List ℕ) × (xs ≡ x ∷ ys))
  List-cases [] = inl refl
  List-cases (x ∷ xs) = inr (x, xs, refl)

  FreeList-cases :
      (l : FreeList)
      → ((ptr : ℕ) × ((pop l).0 ≡ some ptr) × (l.nodes ≡ ptr ∷ (pop l).1.nodes))
        ⊎ ((pop l).0 ≡ none)
  unfolding pop
  FreeList-cases l = elim (List-cases l.nodes) [
    | inl e ↦ inr (rw e refl)
    | inr (ptr, next, e) ↦ inl (ptr, rw e refl, rw e refl)
  ]

  from_list-Given :
      (c alignment : ℕ) (pool : Pool) (live : ℕ → List ℕ) (slots : List Slot)
      → ((n : ℕ) → 0 < block_at n)
      → Owned block_at object_at pool live slots
      → length pool.preallocated_blocks < 2 ^ 44
      → 0 < class_size c
      → class_size c ≤ 4096
      → alignment ≤ 4096
      → Given block_at object_at live c (from_list block_at object_at c alignment pool)
  unfolding from_list
  from_list-Given c alignment pool live slots nonnull o few pos small narrow =
      elim (FreeList-cases (pool.small_free_lists c)) [
        | inl (ptr, e, nodes) ↦ subst (Given block_at object_at live c) (sym (by_pop ptr e)) (
            popped-Given block_at object_at c ptr (pop (pool.small_free_lists c)).1 pool live slots
              o nodes)
        | inr e ↦ subst (Given block_at object_at live c) (sym (by_cut e)) (
            Cut-Given block_at object_at c alignment (miss block_at object_at pool) live slots
              (allocate_from_block block_at (class_size c) alignment (miss block_at object_at pool))
              missed pos
              (Carve.block_piece block_at nonnull (class_size c) alignment
                (miss block_at object_at pool) small narrow few missed.blocks))
      ]
    where
      by_pop :
          (ptr : ℕ)
          → (pop (pool.small_free_lists c)).0 ≡ some ptr
          → from_list block_at object_at c alignment pool ≡ (
            ptr,
            hit block_at object_at (record pool {
              small_free_lists = update pool.small_free_lists c (pop (pool.small_free_lists c)).1;
            }),
          )
      by_pop ptr e = rw (from_list, e) refl

      by_cut :
          (pop (pool.small_free_lists c)).0 ≡ none
          → from_list block_at object_at c alignment pool
            ≡ allocate_from_block block_at (class_size c) alignment (miss block_at object_at pool)
      by_cut e = rw (from_list, e) refl

      missed : Owned block_at object_at (miss block_at object_at pool) live slots
      missed = record {
        blocks = record {
          current = o.blocks.current;
          here = o.blocks.here;
          all = o.blocks.all;
          inside = o.blocks.inside;
        };
        rings = o.rings;
        unused_cache = o.unused_cache;
        placed = o.placed;
        ordered = o.ordered;
        held_once = o.held_once;
      }

  -- The cache of allocate() is never filled.
  cache_miss :
      (cache : ℕ → FreeList) (c : ℕ) → (cache c).nodes ≡ [] → (cache_allocate cache c).0 ≡ none
  unfolding cache_allocate pop
  cache_miss cache c e = elim (Bool-cases (ltb c num_size_classes)) [
    | inl q ↦ rw (q, e) refl
    | inr q ↦ rw q refl
  ]

  -- A small allocation succeeds, and what it gives was held by nobody.
  pub allocate_small-Owned :
      (retries thread c alignment : ℕ) (pool : Pool) (live : ℕ → List ℕ) (slots : List Slot)
      → ((n : ℕ) → 0 < block_at n)
      → Owned block_at object_at pool live slots
      → Roomy block_at object_at pool
      → 0 < class_size c
      → class_size c ≤ 4096
      → alignment ≤ 4096
      → (res : ℕ × Pool) × (allocate_small block_at object_at (suc retries) thread c alignment pool
          ≡ some res)
        × Given block_at object_at live c res
  unfolding allocate_small
  allocate_small-Owned retries thread c alignment pool live slots nonnull o roomy pos small narrow =
      let (res, e, d) =
        drain-Drained 16 retries (pool.return_rings c) (pool.small_free_lists c) (o.rings c)
          (roomy.rings c) in
      let pool' : Pool = record pool {
        return_rings = update pool.return_rings c res.0;
        small_free_lists = update pool.small_free_lists c res.1;
      } in
      let o' : Owned block_at object_at pool' live slots = record {
        blocks = record {
          current = o.blocks.current;
          here = o.blocks.here;
          all = o.blocks.all;
          inside = o.blocks.inside;
        };
        rings = λ k. elim (Bool-cases (c == k)) [ inl q ↦ rw q d.valid | inr q ↦ rw q (o.rings k) ];
        unused_cache = o.unused_cache;
        placed = o.placed;
        ordered = o.ordered;
        held_once = λ k p. elim (Bool-cases (c == k)) [
          | inl q ↦
              let same : c ≡ k = (==_iff c k).0 q in
              rw q (
                omega (
                  arith,
                  o.held_once k p,
                  d.kept p,
                  ap
                      (λ i.
                        copies p (contents (pool.return_rings i))
                        + copies p (pool.small_free_lists i).nodes)
                      same,
                ))
          | inr q ↦ rw q (o.held_once k p)
        ];
      } in
      (
        from_list block_at object_at c alignment pool',
        rw (allocate_small, cache_miss (pool.allocate_cache thread) c (o.unused_cache thread c), e)
            refl,
        from_list-Given c alignment pool' live slots nonnull o' roomy.few_blocks pos small narrow,
      )
