-- ===== src/Examples/Pools.antt =====
-- The memory pool of memory_pool.cc at concrete states.
use native.Mathlib.Decide.{dec_lt}
use storage_engine.Prelude.{
  ℕ, zero, suc, ◌+◌, ◌-◌, ◌*◌, ◌≤◌, ◌<◌, ◌≡◌, refl, ◌∙◌, inl, inr, some, List, [], ◌∷◌, get_elem?,
  arith, update, word, Bool-cases, ◌==◌, ◌%◌, update_ne,
}
use storage_engine.Memory.SizeClass.{class_size, size_class_index}
use storage_engine.Memory.ReturnRing.{ReturnRing, make_ring}
use storage_engine.Memory.ReturnRing.Refine.{ring_enqueue, Pushed, Full}
use storage_engine.Memory.ReturnRing.Refine as Ring
use storage_engine.Memory.FreeList.{empty_list}
use storage_engine.Memory.State.{Pool, stats_of}
use storage_engine.Memory.Blocks.Pieces.{Cut}
use storage_engine.Memory.Blocks.Pieces as Pieces
use storage_engine.Memory.Pool.{allocate, deallocate}
use storage_engine.Memory.Pool.Slots.{Slot, Apart, BlocksApart, copies}
use storage_engine.Memory.Pool.Ownership.{Owned, Roomy}
use storage_engine.Memory.Pool.Given.{Given}
use storage_engine.Memory.Pool.Taken.{Taken}
use storage_engine.Memory.Pool.Requests.{
  small_object-Given, small_object-Taken, new_object-Apart, large_round_trip_wraps,
}

-- An allocator that gives one block behind the other.
abbrev block_at : ℕ → ℕ
block_at n = (n + 1) * 1048576

abbrev object_at : ℕ → ℕ
object_at n = 1099511627776 + n * 8192

nonnull : (n : ℕ) → 0 < block_at n
nonnull n = omega arith

blocks_apart : BlocksApart block_at
blocks_apart i j ne = elim (dec_lt i j) [
  | yes lt ↦ inl (omega (arith, lt))
  | no nlt ↦ inr (omega (arith, nlt, ne))
]

-- One object of class 1, which is of 16 bytes, was given out, at the start of block 0.
abbrev used : Pool
used = record {
  small_free_lists = λ class. empty_list;
  return_rings = λ class. make_ring;
  preallocated_blocks = block_at 0 ∷ block_at 1 ∷ [];
  bump_block_ptr = block_at 0;
  bump_offset = 16;
  bump_block_idx = 0;
  central_free_list = [];
  allocated_blocks = [];
  stats = record {
    alloc_count = 1;
    free_count = 0;
    cache_hit_count = 0;
    cache_miss_count = 1;
    total_allocated = 16;
    total_freed = 0;
    peak_usage = 0;
  };
  allocate_cache = λ thread class. empty_list;
  deallocate_cache = λ thread class. empty_list;
  objects_made = 0;
}

abbrev live : ℕ → List ℕ
live = update (λ class. []) 1 (block_at 0 ∷ [])

abbrev first_slot : Slot
first_slot = record { class = 1; block = 0; offset = 0; width = 16; addr = block_at 0 }

used-IsValid : Pieces.IsValid block_at used
used-IsValid = record { current = omega arith; here = refl; all = two_blocks; inside = omega arith }
  where
    two_blocks : (k : ℕ) → k < 2 → get_elem? (block_at 0 ∷ block_at 1 ∷ []) k ≡ some (block_at k)
    two_blocks zero lt = refl
    two_blocks (suc zero) lt = refl
    two_blocks (suc (suc k)) lt = absurd (omega (arith, lt))

used-Owned : Owned block_at object_at used live (first_slot ∷ [])
unfolding class_size
used-Owned = record {
  blocks = used-IsValid;
  rings = λ c. Ring.make_ring-IsValid;
  unused_cache = λ thread c. refl;
  placed = (
    record {
      there = omega arith;
      wide = omega arith;
      some_bytes = omega arith;
      inside = omega arith;
      cut = inr (refl, omega arith);
    },
    tt,
  );
  ordered = (tt, tt);
  held_once =
      λ c p. elim (Bool-cases (1 == c)) [ inl e ↦ rw e (omega arith) | inr e ↦ rw e (omega arith) ];
}

used-Roomy : Roomy block_at object_at used
used-Roomy = record { few_blocks = omega arith; rings = λ c. omega arith }

index_of_twelve : size_class_index 12 ≡ 1
unfolding size_class_index
index_of_twelve = refl

small_object-Given_example :
    (res : ℕ × Pool) × (allocate block_at object_at 4 9 12 16 used ≡ some res)
    × Given block_at object_at live (size_class_index 12) res
    × (12 ≤ class_size (size_class_index 12))
small_object-Given_example =
    small_object-Given block_at object_at 3 9 12 16 used live (first_slot ∷ []) nonnull used-Owned
      used-Roomy (omega arith) (omega arith)

small_object-Taken_example :
    (pool' : Pool) × (deallocate block_at object_at 4 9 (block_at 0) 12 16 used ≡ some pool')
    × Taken block_at object_at live (first_slot ∷ []) (size_class_index 12) (block_at 0) pool'
small_object-Taken_example =
    small_object-Taken block_at object_at 3 9 (block_at 0) 12 16 used live (first_slot ∷ [])
      used-Owned used-Roomy (omega arith) (omega arith) (rw index_of_twelve (omega arith))

new_object-Apart_example :
    (res : ℕ × Pool) × (allocate block_at object_at 4 9 12 16 used ≡ some res)
    × ((d q : ℕ) → 1 ≤ copies q (live d) → Apart block_at res.0 12 q (class_size d))
new_object-Apart_example =
    new_object-Apart block_at object_at 3 9 12 16 used live (first_slot ∷ []) blocks_apart nonnull
      used-Owned used-Roomy (omega arith) (omega arith)

large_round_trip_wraps_example :
    (res : ℕ × Pool) × (pool' : Pool) × (allocate block_at object_at 4 9 5000 16
        (record used { stats = record used.stats { total_freed = 16 } })
      ≡ some res)
    × (deallocate block_at object_at 4 9 res.0 5000 16 res.1 ≡ some pool')
    × ((stats_of pool').current_in_use ≡ word - 5000)
large_round_trip_wraps_example =
    large_round_trip_wraps block_at object_at 4 9 5000
      (record used { stats = record used.stats { total_freed = 16 } }) (omega arith) (omega arith)
      refl (omega arith)

-- The ring behind that.
abbrev one_pointer : ReturnRing
one_pointer = record {
  sequence = update (λ i. i) 0 1;
  cells = update (λ i. 0) 0 77;
  head = 0;
  tail = 1;
}

one_pointer-IsValid : Ring.IsValid one_pointer
one_pointer-IsValid = record {
  ordered = omega arith;
  bounded = omega arith;
  full = λ k lt. first_full k (omega (arith, lt));
  free = λ k le lt. rest_free k (omega (arith, le)) lt;
}
  where
    first_full : (k : ℕ) → k < 1 → one_pointer.sequence ((0 + k) % 256) ≡ 0 + k + 1
    first_full zero lt = refl
    first_full (suc k) lt = absurd (omega (arith, lt))

    rest_free : (k : ℕ) → 0 < k → k < 256 → one_pointer.sequence ((0 + k) % 256) ≡ 0 + k
    rest_free k pos lt =
        update_ne (λ i. i) 0 ((0 + k) % 256) 1 (λ e. absurd (omega (arith, e, pos, lt)))
        ∙ omega (arith, lt)
