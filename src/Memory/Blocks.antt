-- ===== src/Memory/Blocks.antt =====
-- The bump allocator of MemoryPool::Impl in src/runtime/memory_pool.cc and warmup(). The addresses that
-- the process's allocator gives to the blocks are a parameter, `block_at n` the n-th.
pub mod Search
pub mod Pieces
pub mod Carve
use storage_engine.Prelude.{
  ℕ, zero, suc, ◌+◌, ◌/◌, max, ◌&&◌, Option, none, some, List, [], ◌∷◌, ◌++◌, leb, ltb, ◌==◌,
  if◌then◌else◌, add_word, sub_word, length, drop,
}
use storage_engine.Memory.SizeClass.{block_size, align_up}
use storage_engine.Memory.State.{Stats, Pool}

-- The loop over the blocks behind the current one.
unfoldable pub next_block : ℕ → List ℕ → Option (ℕ × ℕ)
next_block i [] = none
next_block i (block ∷ blocks) = if block == 0 then next_block (i + 1) blocks else some (i, block)

module _ (block_at : ℕ → ℕ) where
  abbrev counted : Pool → ℕ → Stats
  counted pool size = record pool.stats {
    total_allocated = add_word pool.stats.total_allocated size;
  }

  -- The piece behind the last one, of the block in use.
  abbrev pub at_bump : Pool → ℕ → ℕ → ℕ × Pool
  at_bump pool offset size = (
    pool.bump_block_ptr + offset,
    record pool { bump_offset = add_word offset size; stats = counted pool size },
  )

  -- The first piece of the block that the loop found.
  abbrev pub at_block : Pool → ℕ → ℕ → ℕ → ℕ × Pool
  at_block pool i block size = (
    block,
    record pool {
      bump_block_ptr = block;
      bump_block_idx = i;
      bump_offset = size;
      stats = counted pool size;
    },
  )

  -- The first piece of a block that is new.
  abbrev pub at_new : Pool → ℕ → ℕ × Pool
  at_new pool size =
      let blocks = pool.preallocated_blocks in
      (
        block_at (length blocks),
        record pool {
          preallocated_blocks = blocks ++ (block_at (length blocks) ∷ []);
          bump_block_ptr = block_at (length blocks);
          bump_offset = size;
          bump_block_idx = length blocks;
          stats = counted pool size;
        },
      )

  unfoldable pub allocate_from_block : ℕ → ℕ → Pool → ℕ × Pool
  allocate_from_block bytes alignment pool =
      let align = max alignment 16 in
      let offset = align_up pool.bump_offset align in
      let size = align_up bytes align in
      let idx = add_word pool.bump_block_idx 1 in
      if ltb 0 pool.bump_block_ptr && leb (add_word offset size) block_size
      then at_bump pool offset size
      else elim (next_block idx (drop idx pool.preallocated_blocks)) [
        | some (i, block) ↦ at_block pool i block size
        | none ↦ at_new pool size
      ]

  -- `n` further blocks.
  unfoldable pub add_blocks : ℕ → Pool → Pool
  add_blocks zero pool = pool
  add_blocks (suc n) pool = add_blocks n (record pool {
    preallocated_blocks =
        pool.preallocated_blocks ++ (block_at (length pool.preallocated_blocks) ∷ []);
  })

  abbrev pub warmup : ℕ → Pool → Pool
  warmup total_bytes pool =
      add_blocks (sub_word (add_word total_bytes block_size) 1 / block_size) pool
