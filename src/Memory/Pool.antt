-- ===== src/Memory/Pool.antt =====
-- MemoryPool and its Impl in src/runtime/memory_pool.cc. The addresses that the process's allocator
-- gives are a parameter: `block_at n` for the n-th block and `object_at n` for the n-th object.
pub mod Slots
pub mod Ownership
pub mod Drain
pub mod Given
pub mod FromList
pub mod Taken
pub mod Requests
use storage_engine.Prelude.{
  ℕ, ◌+◌, Option, none, some, [], ◌∷◌, ◌++◌, leb, ltb, if◌then◌else◌, add_word, update,
}
use storage_engine.Memory.SizeClass.{
  small_object_max, medium_object_max, class_size, size_class_index, alloc_size,
}
use storage_engine.Memory.ReturnRing.{make_ring, try_enqueue}
use storage_engine.Memory.FreeList.{empty_list, pop, push_central, pop_central}
use storage_engine.Memory.State.{Pool, cache_allocate, cache_deallocate, list_count, drain}
use storage_engine.Memory.Blocks.{allocate_from_block}

module _ (block_at object_at : ℕ → ℕ) where
  unfoldable pub make : Pool
  make = record {
    small_free_lists = λ class. empty_list;
    return_rings = λ class. make_ring;
    preallocated_blocks = block_at 0 ∷ block_at 1 ∷ block_at 2 ∷ block_at 3 ∷ [];
    bump_block_ptr = block_at 0;
    bump_offset = 0;
    bump_block_idx = 0;
    central_free_list = [];
    allocated_blocks = [];
    stats = record {
      alloc_count = 0;
      free_count = 0;
      cache_hit_count = 0;
      cache_miss_count = 0;
      total_allocated = 0;
      total_freed = 0;
      peak_usage = 0;
    };
    allocate_cache = λ thread class. empty_list;
    deallocate_cache = λ thread class. empty_list;
    objects_made = 0;
  }

  abbrev hit : Pool → Pool
  hit pool = record pool {
    stats = record pool.stats { cache_hit_count = add_word pool.stats.cache_hit_count 1 };
  }

  abbrev miss : Pool → Pool
  miss pool = record pool {
    stats = record pool.stats { cache_miss_count = add_word pool.stats.cache_miss_count 1 };
  }

  -- Behind the drained ring: the free list, else the blocks.
  unfoldable pub from_list : ℕ → ℕ → Pool → ℕ × Pool
  from_list class alignment pool =
      let (popped, rest) = pop (pool.small_free_lists class) in
      elim popped [
        | some ptr ↦
            (ptr, hit (record pool { small_free_lists = update pool.small_free_lists class rest }))
        | none ↦ allocate_from_block block_at (class_size class) alignment (miss pool)
      ]

  unfoldable pub allocate_small : ℕ → ℕ → ℕ → ℕ → Pool → Option (ℕ × Pool)
  allocate_small retries thread class alignment pool =
      let (cached, rest) = cache_allocate (pool.allocate_cache thread) class in
      elim cached [
        | some ptr ↦
            some
              (ptr, hit (record pool { allocate_cache = update pool.allocate_cache thread rest }))
        | none ↦ elim (drain 16 retries (pool.return_rings class) (pool.small_free_lists class)) [
          | none ↦ none
          | some (ring, list) ↦ some (
              from_list class alignment (record pool {
                return_rings = update pool.return_rings class ring;
                small_free_lists = update pool.small_free_lists class list;
              }))
        ]
      ]

  unfoldable pub allocate_medium : ℕ → Pool → ℕ × Pool
  allocate_medium size pool =
      let (found, rest) = pop_central size pool.central_free_list [] in
      elim found [
        | some node ↦ (node.addr, hit (record pool { central_free_list = rest }))
        | none ↦ (
          object_at pool.objects_made,
          miss (record pool {
            central_free_list = rest;
            allocated_blocks = pool.allocated_blocks ++ (object_at pool.objects_made ∷ []);
            objects_made = pool.objects_made + 1;
          }),
        )
      ]

  abbrev asked : Pool → Pool
  asked pool = record pool {
    stats = record pool.stats { alloc_count = add_word pool.stats.alloc_count 1 };
  }

  unfoldable pub allocate : ℕ → ℕ → ℕ → ℕ → Pool → Option (ℕ × Pool)
  allocate retries thread bytes alignment pool =
      let size = alloc_size bytes alignment in
      if leb size small_object_max
      then allocate_small retries thread (size_class_index size) alignment (asked pool)
      else (if leb size medium_object_max
          then some (allocate_medium size (asked pool))
          else some (
            object_at pool.objects_made,
            miss (record (asked pool) { objects_made = pool.objects_made + 1 }),
          ))

  abbrev freed : ℕ → Pool → Pool
  freed size pool = record pool {
    stats = record pool.stats {
      free_count = add_word pool.stats.free_count 1;
      total_freed = add_word pool.stats.total_freed size;
    };
  }

  -- Above 64 pointers the thread's cache is left alone; a full ring drops the pointer.
  unfoldable pub deallocate_small : ℕ → ℕ → ℕ → ℕ → Pool → Option Pool
  deallocate_small retries thread class ptr pool =
      if ltb 64 (list_count (pool.deallocate_cache thread) class)
      then elim (try_enqueue retries ptr (pool.return_rings class)) [
        | none ↦ none
        | some (ok, ring) ↦
            some (record pool { return_rings = update pool.return_rings class ring })
      ]
      else some (record pool {
        deallocate_cache =
            update pool.deallocate_cache thread
              (cache_deallocate (pool.deallocate_cache thread) ptr class);
      })

  unfoldable pub deallocate : ℕ → ℕ → ℕ → ℕ → ℕ → Pool → Option Pool
  deallocate retries thread ptr bytes alignment pool =
      let size = alloc_size bytes alignment in
      if leb size small_object_max
      then deallocate_small retries thread (size_class_index size) ptr (freed size pool)
      else (if leb size medium_object_max
          then some (record (freed size pool) {
            central_free_list = push_central ptr size pool.central_free_list;
          })
          else some (freed size pool))
