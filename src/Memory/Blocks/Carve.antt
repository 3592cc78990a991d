-- ===== src/Memory/Blocks/Carve.antt =====
-- What allocate_from_block of memory_pool.cc cuts off a block.
use mathlib.Core.Path.{subst}
use native.Mathlib.Decide.{dec_lt}
use storage_engine.Prelude.{
  ℕ, ◌+◌, ◌^◌, ◌≤◌, ◌<◌, max, ◌≡◌, refl, sym, inl, inr, true, false, none, some, arith, add_word,
  length, drop, ◌&&◌, ltb, leb, and_right, Bool-cases,
}
use storage_engine.Memory.SizeClass.{block_size, align_up}
use storage_engine.Memory.State.{Pool}
use storage_engine.Memory.Blocks.Search.{next_found, next_missing}
use storage_engine.Memory.Blocks.{next_block, allocate_from_block, at_bump, at_block, at_new}
use storage_engine.Memory.Blocks.Pieces.{
  Aligned, align_up-Aligned, IsValid, Cut, leb→le, bump-Cut, next-Cut, new-Cut,
}

module _ (block_at : ℕ → ℕ) where
  -- The allocator never gives the null address.
  module _ (nonnull : (n : ℕ) → 0 < block_at n) where
    -- The piece lies in one block, aligned in it, behind all the earlier ones, and holds the bytes.
    pub block_piece :
        (bytes alignment : ℕ) (pool : Pool)
        → bytes ≤ 4096
        → alignment ≤ 4096
        → length pool.preallocated_blocks < 2 ^ 44
        → IsValid block_at pool
        → Cut block_at pool bytes alignment (allocate_from_block block_at bytes alignment pool)
    unfolding allocate_from_block
    block_piece bytes alignment pool small narrow few v =
        elim (Bool-cases (ltb 0 pool.bump_block_ptr && leb (add_word offset size) block_size)) [
          | inl e ↦ subst (Cut block_at pool bytes alignment) (sym (by_bump e)) (
              bump-Cut block_at bytes alignment offset size pool v wide.at_least up.multiple
                up.at_least (room e))
          | inr e ↦ elim (dec_lt (pool.bump_block_idx + 1) (length pool.preallocated_blocks)) [
            | yes lt ↦
                subst (Cut block_at pool bytes alignment)
                  (sym (
                    by_next e (
                      next_found idx idx pool.preallocated_blocks (block_at idx)
                        (v.all idx (omega (arith, lt, few))) (nonnull idx))))
                  (next-Cut block_at bytes alignment size pool v wide.at_least whole few lt)
            | no nlt ↦
                subst (Cut block_at pool bytes alignment)
                  (sym (
                    by_new e
                      (next_missing idx idx pool.preallocated_blocks (omega (arith, nlt, few)))))
                  (new-Cut block_at bytes alignment size pool v wide.at_least whole)
          ]
        ]
      where
        align : ℕ
        align = max alignment 16

        offset : ℕ
        offset = align_up pool.bump_offset align

        size : ℕ
        size = align_up bytes align

        idx : ℕ
        idx = add_word pool.bump_block_idx 1

        up : Aligned pool.bump_offset align offset
        up = align_up-Aligned pool.bump_offset align (omega arith) (omega (arith, v.inside, narrow))

        wide : Aligned bytes align size
        wide = align_up-Aligned bytes align (omega arith) (omega arith)

        by_bump :
            (ltb 0 pool.bump_block_ptr && leb (add_word offset size) block_size) ≡ true
            → allocate_from_block block_at bytes alignment pool ≡ at_bump block_at pool offset size
        by_bump e = rw e refl

        by_next :
            (ltb 0 pool.bump_block_ptr && leb (add_word offset size) block_size) ≡ false
            → next_block idx (drop idx pool.preallocated_blocks) ≡ some (idx, block_at idx)
            → allocate_from_block block_at bytes alignment pool
              ≡ at_block block_at pool idx (block_at idx) size
        by_next e f = rw (e, f) refl

        by_new :
            (ltb 0 pool.bump_block_ptr && leb (add_word offset size) block_size) ≡ false
            → next_block idx (drop idx pool.preallocated_blocks) ≡ none
            → allocate_from_block block_at bytes alignment pool ≡ at_new block_at pool size
        by_new e f = rw (e, f) refl

        whole : size ≤ block_size
        whole = omega (arith, wide.below, small, narrow)

        room :
            (ltb 0 pool.bump_block_ptr && leb (add_word offset size) block_size) ≡ true
            → offset + size ≤ block_size
        room e = omega (
          arith,
          leb→le block_at (add_word offset size) block_size
              (and_right (ltb 0 pool.bump_block_ptr) (leb (add_word offset size) block_size) e),
          up.below,
          wide.below,
          v.inside,
          narrow,
          small,
        )
