-- ===== src/Memory/Pool/Requests.antt =====
-- allocate(), deallocate() and stats() of memory_pool.cc as the program calls them.
use mathlib.Core.Bool.{false≢true}
use native.Mathlib.Decide.{ℕ_discrete}
use storage_engine.Prelude.{
  ℕ, suc, ◌+◌, ◌-◌, ◌≤◌, ◌<◌, ◌≡◌, refl, ◌∙◌, true, false, some, List, ◌∷◌, arith, leb, le→not_ltb,
  word, update, inl, inr, Bool-cases, ◌≢◌, ◌⊎◌, ◌==◌, ==_iff, update_self, ap, sym,
}
use storage_engine.Memory.SizeClass.{alloc_size, class_size, size_class_index}
use storage_engine.Memory.SizeClass.Fit.{size_class_fits, class_bounds}
use storage_engine.Memory.State.{Pool, stats_of}
use storage_engine.Memory.Pool.{
  miss, allocate, allocate_small, deallocate_small, deallocate, asked, freed,
}
use storage_engine.Memory.Pool.Slots.{Slot, one, copies, Apart, BlocksApart, made_once}
use storage_engine.Memory.Pool.Ownership.{Owned, Roomy, live_objects-Apart}
use storage_engine.Memory.Pool.Given.{Given}
use storage_engine.Memory.Pool.FromList.{allocate_small-Owned}
use storage_engine.Memory.Pool.Taken.{Taken, deallocate_small-Owned}

le→leb : (a b : ℕ) → a ≤ b → leb a b ≡ true
le→leb a b le = ground (arith, le)

lt→not_leb : (b a : ℕ) → b < a → leb a b ≡ false
lt→not_leb b a lt = ground (arith, lt)

module _ (block_at object_at : ℕ → ℕ) where
  -- An object of at most 256 bytes and an alignment of at most 16 is given, once, in a piece that holds
  -- it, while the blocks and the rings have room.
  pub small_object-Given :
      (retries thread bytes alignment : ℕ) (pool : Pool) (live : ℕ → List ℕ) (slots : List Slot)
      → ((n : ℕ) → 0 < block_at n)
      → Owned block_at object_at pool live slots
      → Roomy block_at object_at pool
      → bytes ≤ 256
      → alignment ≤ 16
      → (res : ℕ × Pool) × (allocate block_at object_at (suc retries) thread bytes alignment pool
          ≡ some res)
        × Given block_at object_at live (size_class_index bytes) res
        × (bytes ≤ class_size (size_class_index bytes))
  unfolding allocate alloc_size
  small_object-Given retries thread bytes alignment pool live slots nonnull o roomy small narrow =
      let (in_range, fits, least) = size_class_fits bytes small in
      let (pos, le) = class_bounds (size_class_index bytes) in_range in
      let (res, e, given) =
        allocate_small-Owned block_at object_at retries thread (size_class_index bytes) alignment
          (asked block_at object_at pool) live slots nonnull (owned_asked o) (roomy_asked roomy) pos
          le (omega (arith, narrow)) in
      (res, small_path ∙ e, given, fits)
    where
      small_path :
          allocate block_at object_at (suc retries) thread bytes alignment pool
          ≡ allocate_small block_at object_at
              (suc retries)
              thread
              (size_class_index bytes)
              alignment
              (asked block_at object_at pool)
      small_path =
          rw (allocate, alloc_size, le→not_ltb 16 alignment narrow, le→leb bytes 256 small) refl

      owned_asked :
          Owned block_at object_at pool live slots
          → Owned block_at object_at (asked block_at object_at pool) live slots
      owned_asked o = record {
        blocks = record {
          current = o.blocks.current;
          here = o.blocks.here;
          all = o.blocks.all;
          inside = o.blocks.inside;
        };
        rings = o.rings;
        unused_cache = o.unused_cache;
        placed = o.placed;
        ordered = o.ordered;
        held_once = o.held_once;
      }

      roomy_asked :
          Roomy block_at object_at pool → Roomy block_at object_at (asked block_at object_at pool)
      roomy_asked r = record { few_blocks = r.few_blocks; rings = r.rings }

  -- Such an object that the program holds can be given back, and it is then held once less.
  pub small_object-Taken :
      (retries thread ptr bytes alignment : ℕ) (pool : Pool) (live : ℕ → List ℕ) (slots : List Slot)
      → Owned block_at object_at pool live slots
      → Roomy block_at object_at pool
      → bytes ≤ 256
      → alignment ≤ 16
      → 1 ≤ copies ptr (live (size_class_index bytes))
      → (pool' : Pool) × (deallocate block_at object_at
            (suc retries)
            thread
            ptr
            bytes
            alignment
            pool
          ≡ some pool')
        × Taken block_at object_at live slots (size_class_index bytes) ptr pool'
  unfolding deallocate alloc_size
  small_object-Taken retries thread ptr bytes alignment pool live slots o roomy small narrow has =
      let (pool', e, taken) =
        deallocate_small-Owned block_at object_at retries thread (size_class_index bytes) ptr
          (freed block_at object_at bytes pool) live slots (owned_freed o) (roomy_freed roomy)
          has in
      (pool', small_path ∙ e, taken)
    where
      small_path :
          deallocate block_at object_at (suc retries) thread ptr bytes alignment pool
          ≡ deallocate_small block_at object_at
              (suc retries)
              thread
              (size_class_index bytes)
              ptr
              (freed block_at object_at bytes pool)
      small_path =
          rw (deallocate, alloc_size, le→not_ltb 16 alignment narrow, le→leb bytes 256 small) refl

      owned_freed :
          Owned block_at object_at pool live slots
          → Owned block_at object_at (freed block_at object_at bytes pool) live slots
      owned_freed o = record {
        blocks = record {
          current = o.blocks.current;
          here = o.blocks.here;
          all = o.blocks.all;
          inside = o.blocks.inside;
        };
        rings = o.rings;
        unused_cache = o.unused_cache;
        placed = o.placed;
        ordered = o.ordered;
        held_once = o.held_once;
      }

      roomy_freed :
          Roomy block_at object_at pool
          → Roomy block_at object_at (freed block_at object_at bytes pool)
      roomy_freed r = record { few_blocks = r.few_blocks; rings = r.rings }

  -- Of two objects held in an account, the first the newest.
  newest-Apart :
      (blocks_apart : BlocksApart block_at) (pool : Pool) (live : ℕ → List ℕ) (slots : List Slot)
      (c p d q : ℕ)
      → Owned block_at object_at pool (update live c (p ∷ live c)) slots
      → 0 < class_size c
      → 1 ≤ copies q (live d)
      → Apart block_at p (class_size c) q (class_size d)
  newest-Apart blocks_apart pool live slots c p d q o pos has = elim (Bool-cases (c == d)) [
    | inl e ↦ elim (ℕ_discrete p q) [
      | yes same ↦ absurd (
          omega (
            arith,
            made_once block_at blocks_apart pool.bump_block_idx pool.bump_offset c p slots o.placed
                o.ordered pos,
            o.held_once c p,
            ap (copies p) (update_self live c (p ∷ live c)),
            has,
            ap (λ k. copies k (live d)) same,
            ap (λ k. copies p (live k)) ((==_iff c d).0 e),
            one_self p,
          ))
      | no differ ↦ apart (inr differ)
    ]
    | inr e ↦ apart (inl (λ s. absurd (false≢true (sym e ∙ (==_iff c d).1 s))))
  ]
    where
      one_self : (n : ℕ) → one n n ≡ 1
      one_self n = ground arith

      held : copies q (live d) ≤ copies q (update live c (p ∷ live c) d)
      held = elim (Bool-cases (c == d)) [
        | inl e ↦ rw e (omega (arith, ap (λ k. copies q (live k)) ((==_iff c d).0 e)))
        | inr e ↦ rw e (omega arith)
      ]

      apart : (c ≢ d) ⊎ (p ≢ q) → Apart block_at p (class_size c) q (class_size d)
      apart ne =
          live_objects-Apart block_at object_at blocks_apart pool (update live c (p ∷ live c)) slots
            c p d q o (omega (arith, ap (copies p) (update_self live c (p ∷ live c)), one_self p))
            (omega (arith, held, has)) ne

  -- The bytes of an object just allocated, of at most 256 bytes and an alignment of at most 16, meet those
  -- of no object of the small classes that the program holds.
  pub new_object-Apart :
      (retries thread bytes alignment : ℕ) (pool : Pool) (live : ℕ → List ℕ) (slots : List Slot)
      → BlocksApart block_at
      → ((n : ℕ) → 0 < block_at n)
      → Owned block_at object_at pool live slots
      → Roomy block_at object_at pool
      → bytes ≤ 256
      → alignment ≤ 16
      → (res : ℕ × Pool) × (allocate block_at object_at (suc retries) thread bytes alignment pool
          ≡ some res)
        × ((d q : ℕ) → 1 ≤ copies q (live d) → Apart block_at res.0 bytes q (class_size d))
  new_object-Apart retries thread bytes alignment pool live slots blocks_apart nonnull o roomy small
        narrow =
      let (res, e, given, fits) =
        small_object-Given retries thread bytes alignment pool live slots nonnull o roomy small
          narrow in
      let (pos, le) = class_bounds (size_class_index bytes) (size_class_fits bytes small).0 in
      (
        res,
        e,
        λ d q has.
            elim (newest-Apart blocks_apart res.1 live given.slots' (size_class_index bytes) res.0 d
              q given.owned pos has) [
                | inl before ↦ inl (omega (arith, before, fits))
                | inr behind ↦ inr behind
              ],
      )

  -- A large object is not counted when it is allocated and is counted when it is freed: of a pool
  -- with nothing in use, the statistics then report 2 ^ 64 less its size in use.
  pub large_round_trip_wraps :
      (retries thread bytes : ℕ) (pool : Pool)
      → 4096 < bytes
      → bytes < word
      → pool.stats.total_allocated ≡ pool.stats.total_freed
      → pool.stats.total_allocated < word
      → (res : ℕ × Pool) × (pool' : Pool) × (allocate block_at object_at retries thread bytes 16
            pool
          ≡ some res)
        × (deallocate block_at object_at retries thread res.0 bytes 16 res.1 ≡ some pool')
        × ((stats_of pool').current_in_use ≡ word - bytes)
  unfolding allocate deallocate alloc_size stats_of
  large_round_trip_wraps retries thread bytes pool large fits even bound = (
    (object_at pool.objects_made, after),
    freed block_at object_at bytes after,
    rw
        (
          allocate,
          alloc_size,
          lt→not_leb 256 bytes (omega (arith, large)),
          lt→not_leb 4096 bytes large,
        )
        refl,
    rw
        (
          deallocate,
          alloc_size,
          lt→not_leb 256 bytes (omega (arith, large)),
          lt→not_leb 4096 bytes large,
        )
        refl,
    omega (arith, even, bound, fits, large),
  )
    where
      after : Pool
      after =
          miss block_at object_at
            (record (asked block_at object_at pool) { objects_made = pool.objects_made + 1 })
