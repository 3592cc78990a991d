-- ===== src/Memory/Blocks/Pieces.antt =====
-- A piece of a block of memory_pool.cc, and the three ways in which allocate_from_block cuts one.
use native.Mathlib.Nat.{mod-lt, zero-mod, div-add-mod, mul-mod_right}
use storage_engine.Prelude.{
  ℕ, ◌+◌, ◌-◌, ◌*◌, ◌/◌, ◌%◌, ◌^◌, ◌≤◌, ◌<◌, max, ◌≡◌, refl, ap, ◌∙◌, ◌⊎◌, inl, inr, true, some, [],
  ◌∷◌, arith, add_word, sub_word, word, length, get_elem?, length-append, leb,
}
use storage_engine.Memory.SizeClass.{block_size, align_up}
use storage_engine.Memory.State.{Pool}
use storage_engine.Memory.Blocks.Search.{get_snoc}
use storage_engine.Memory.Blocks.{at_bump, at_block, at_new}

-- Rounding up by a power of two that is far from the end of the address range.
pub record Aligned (x a y : ℕ) : Type 0 where
  pub at_least : x ≤ y
  pub below : y < x + a
  pub multiple : y % a ≡ 0

pub align_up-Aligned : (x a : ℕ) → 0 < a → x + a < word → Aligned x a (align_up x a)
align_up-Aligned x a pos narrow =
    let y = x + a - 1 in
    let e : align_up x a ≡ y - y % a = rw (sub_lem) refl in
    record {
      at_least = omega (arith, e, mod-lt y {m = a} pos);
      below = omega (arith, e);
      multiple =
          ap (λ t. t % a) {x = align_up x a} {y = a * (y / a)} (omega (arith, e, div-add-mod y a))
          ∙ mul-mod_right a (y / a);
    }
  where
    sub_lem : sub_word (add_word x a) 1 ≡ x + a - 1
    sub_lem = omega (arith, pos, narrow)

module _ (block_at : ℕ → ℕ) where
  -- The blocks in the vector are those the allocator gave, the last one cut is in it.
  pub record IsValid (pool : Pool) : Type 0 where
    pub current : pool.bump_block_idx < length pool.preallocated_blocks
    pub here : pool.bump_block_ptr ≡ block_at pool.bump_block_idx
    pub all :
        (k : ℕ)
        → k < length pool.preallocated_blocks
        → get_elem? pool.preallocated_blocks k ≡ some (block_at k)
    pub inside : pool.bump_offset ≤ block_size

  -- Behind everything cut so far.
  abbrev pub Before : ℕ → ℕ → ℕ → ℕ → Type 0
  Before k o k' o' = (k < k') ⊎ ((k ≡ k') × (o ≤ o'))

  -- The piece is `width` bytes at offset `o` of block `k`, and the next one is cut behind it.
  pub record Cut (pool : Pool) (bytes alignment : ℕ) (res : ℕ × Pool) : Type 0 where
    pub block : ℕ
    pub offset : ℕ
    pub width : ℕ
    pub addr : res.0 ≡ block_at block + offset
    pub wide : bytes ≤ width
    pub aligned : offset % max alignment 16 ≡ 0
    pub fits : offset + width ≤ block_size
    pub behind : Before pool.bump_block_idx pool.bump_offset block offset
    pub idx' : res.1.bump_block_idx ≡ block
    pub offset' : res.1.bump_offset ≡ offset + width
    pub valid : IsValid res.1
    pub lists : res.1.small_free_lists ≡ pool.small_free_lists
    pub rings : res.1.return_rings ≡ pool.return_rings
    pub caches : res.1.allocate_cache ≡ pool.allocate_cache

  pub leb→le : (a b : ℕ) → leb a b ≡ true → a ≤ b
  leb→le a b e = ground (arith, e)

  pub bump-Cut :
      (bytes alignment offset size : ℕ) (pool : Pool)
      → IsValid pool
      → bytes ≤ size
      → offset % max alignment 16 ≡ 0
      → pool.bump_offset ≤ offset
      → offset + size ≤ block_size
      → Cut pool bytes alignment (at_bump block_at pool offset size)
  bump-Cut bytes alignment offset size pool v enough multiple behind room = record {
    block = pool.bump_block_idx;
    offset = offset;
    width = size;
    addr = ap (λ t. t + offset) v.here;
    wide = enough;
    aligned = multiple;
    fits = room;
    behind = inr (refl, behind);
    idx' = refl;
    offset' = omega (arith, room);
    valid = record {
      current = v.current;
      here = v.here;
      all = v.all;
      inside = omega (arith, room);
    };
    lists = refl;
    rings = refl;
    caches = refl;
  }

  pub next-Cut :
      (bytes alignment size : ℕ) (pool : Pool)
      → IsValid pool
      → bytes ≤ size
      → size ≤ block_size
      → length pool.preallocated_blocks < 2 ^ 44
      → pool.bump_block_idx + 1 < length pool.preallocated_blocks
      → let idx = add_word pool.bump_block_idx 1 in
        Cut pool bytes alignment (at_block block_at pool idx (block_at idx) size)
  next-Cut bytes alignment size pool v enough room few lt = record {
    block = add_word pool.bump_block_idx 1;
    offset = 0;
    width = size;
    addr = omega arith;
    wide = enough;
    aligned = zero-mod (max alignment 16);
    fits = omega (arith, room);
    behind = inl (omega (arith, lt, few));
    idx' = refl;
    offset' = omega arith;
    valid = record {
      current = omega (arith, lt, few);
      here = refl;
      all = v.all;
      inside = omega (arith, room);
    };
    lists = refl;
    rings = refl;
    caches = refl;
  }

  pub new-Cut :
      (bytes alignment size : ℕ) (pool : Pool)
      → IsValid pool
      → bytes ≤ size
      → size ≤ block_size
      → Cut pool bytes alignment (at_new block_at pool size)
  new-Cut bytes alignment size pool v enough room = record {
    block = length pool.preallocated_blocks;
    offset = 0;
    width = size;
    addr = omega arith;
    wide = enough;
    aligned = zero-mod (max alignment 16);
    fits = omega (arith, room);
    behind = inl v.current;
    idx' = refl;
    offset' = omega arith;
    valid = record {
      current = omega (
        arith,
        length-append pool.preallocated_blocks (block_at (length pool.preallocated_blocks) ∷ []),
      );
      here = refl;
      all = get_snoc block_at pool.preallocated_blocks v.all;
      inside = omega (arith, room);
    };
    lists = refl;
    rings = refl;
    caches = refl;
  }
