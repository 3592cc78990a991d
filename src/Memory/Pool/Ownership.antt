-- ===== src/Memory/Pool/Ownership.antt =====
-- Who holds the pieces of the pool of memory_pool.cc: the program, a return ring, a free list, or
-- nobody any more (a cache of deallocate() or a pointer that a full ring dropped).
use storage_engine.Prelude.{
  ℕ, zero, suc, ◌+◌, ◌≤◌, ◌<◌, ◌^◌, ◌≡◌, ◌≢◌, refl, ◌⊎◌, List, [], ◌∷◌, get_elem?, some, arith, All,
  length,
}
use storage_engine.Memory.SizeClass.{class_size}
use storage_engine.Memory.ReturnRing.Refine.{contents, Low, make_ring-IsValid}
use storage_engine.Memory.ReturnRing.Refine as Ring
use storage_engine.Memory.State.{Pool}
use storage_engine.Memory.Blocks.Pieces as Pieces
use storage_engine.Memory.Pool.{make}
use storage_engine.Memory.Pool.Slots.{
  Slot, copies, made, Placed, Ordered, Apart, BlocksApart, made-Apart,
}

module _ (block_at object_at : ℕ → ℕ) where
  -- `live class` are the objects the program holds, `slots` the pieces cut so far.
  pub record Owned (pool : Pool) (live : ℕ → List ℕ) (slots : List Slot) : Type 0 where
    pub blocks : Pieces.IsValid block_at pool
    pub rings : (c : ℕ) → Ring.IsValid (pool.return_rings c)
    pub unused_cache : (thread c : ℕ) → (pool.allocate_cache thread c).nodes ≡ []
    pub placed : All (Placed block_at pool.bump_block_idx pool.bump_offset) slots
    pub ordered : Ordered block_at slots
    pub held_once :
        (c p : ℕ)
        → copies p (live c)
            + (copies p (contents (pool.return_rings c)) + copies p (pool.small_free_lists c).nodes)
          ≤ made c p slots

  -- Far from the counters' wrapping around.
  pub record Roomy (pool : Pool) : Type 0 where
    pub few_blocks : length pool.preallocated_blocks < 2 ^ 44
    pub rings : (c : ℕ) → Low (pool.return_rings c)

  pub make-Owned : Owned (make block_at object_at) (λ c. []) []
  unfolding make
  make-Owned = record {
    blocks = record { current = omega arith; here = refl; all = first_four; inside = omega arith };
    rings = λ c. make_ring-IsValid;
    unused_cache = λ thread c. refl;
    placed = tt;
    ordered = tt;
    held_once = λ c p. omega arith;
  }
    where
      first_four :
          (k : ℕ)
          → k < 4
          → get_elem? (block_at 0 ∷ block_at 1 ∷ block_at 2 ∷ block_at 3 ∷ []) k ≡ some (block_at k)
      first_four zero lt = refl
      first_four (suc zero) lt = refl
      first_four (suc (suc zero)) lt = refl
      first_four (suc (suc (suc zero))) lt = refl
      first_four (suc (suc (suc (suc k)))) lt = absurd (omega (arith, lt))

  module _ (blocks_apart : BlocksApart block_at) where
    -- Two objects that the program holds do not overlap, and it holds none twice.
    pub live_objects-Apart :
        (pool : Pool) (live : ℕ → List ℕ) (slots : List Slot) (c p d q : ℕ)
        → Owned pool live slots
        → 1 ≤ copies p (live c)
        → 1 ≤ copies q (live d)
        → (c ≢ d) ⊎ (p ≢ q)
        → Apart block_at p (class_size c) q (class_size d)
    live_objects-Apart pool live slots c p d q o h k ne =
        made-Apart block_at blocks_apart pool.bump_block_idx pool.bump_offset c p d q slots o.placed
          o.ordered ne (omega (arith, h, o.held_once c p)) (omega (arith, k, o.held_once d q))
