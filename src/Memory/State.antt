-- ===== src/Memory/State.antt =====
-- The state of MemoryPool::Impl in src/runtime/memory_pool.cc, its snapshot, and what allocate() and
-- deallocate() do to the thread's cache and to the return ring.
use storage_engine.Prelude.{
  ℕ, zero, suc, Option, none, some, List, ltb, if◌then◌else◌, sub_word, update,
}
use storage_engine.Memory.SizeClass.{num_size_classes}
use storage_engine.Memory.ReturnRing.{ReturnRing, try_dequeue}
use storage_engine.Memory.FreeList.{FreeList, push, pop, FreeNode}

pub record Stats : Type 0 where
  pub alloc_count : ℕ
  pub free_count : ℕ
  pub cache_hit_count : ℕ
  pub cache_miss_count : ℕ
  pub total_allocated : ℕ
  pub total_freed : ℕ
  pub peak_usage : ℕ

pub record Snapshot : Type 0 where
  pub counts : Stats
  pub current_in_use : ℕ

-- `bump_block_ptr` and `preallocated_blocks` hold addresses, 0 is null. `tls_cache` is one variable
-- of allocate() and another of deallocate(), each a free list per thread and class.
pub record Pool : Type 0 where
  pub small_free_lists : ℕ → FreeList
  pub return_rings : ℕ → ReturnRing
  pub preallocated_blocks : List ℕ
  pub bump_block_ptr : ℕ
  pub bump_offset : ℕ
  pub bump_block_idx : ℕ
  pub central_free_list : List FreeNode
  pub allocated_blocks : List ℕ
  pub stats : Stats
  pub allocate_cache : ℕ → ℕ → FreeList
  pub deallocate_cache : ℕ → ℕ → FreeList
  pub objects_made : ℕ

-- ThreadLocalCache::allocate and deallocate, on the cache of one thread.
unfoldable pub cache_allocate : (ℕ → FreeList) → ℕ → Option ℕ × (ℕ → FreeList)
cache_allocate cache class =
    let (ptr, rest) = pop (cache class) in
    if ltb class num_size_classes then (ptr, update cache class rest) else (none, cache)

unfoldable pub cache_deallocate : (ℕ → FreeList) → ℕ → ℕ → ℕ → FreeList
cache_deallocate cache ptr class =
    if ltb class num_size_classes then update cache class (push ptr (cache class)) else cache

abbrev pub list_count : (ℕ → FreeList) → ℕ → ℕ
list_count cache class = if ltb class num_size_classes then (cache class).count else 0

-- At most sixteen pointers go from the return ring to the free list; retries are those of one
-- dequeue, none when they run out.
unfoldable pub drain : ℕ → ℕ → ReturnRing → FreeList → Option (ReturnRing × FreeList)
drain zero retries ring list = some (ring, list)
drain (suc left) retries ring list = elim (try_dequeue retries ring) [
  | none ↦ none
  | some (none, ring') ↦ some (ring', list)
  | some (some ptr, ring') ↦ drain left retries ring' (push ptr list)
]

-- MemoryPool::stats.
unfoldable pub stats_of : Pool → Snapshot
stats_of pool = record {
  counts = pool.stats;
  current_in_use = sub_word pool.stats.total_allocated pool.stats.total_freed;
}
