-- ===== src/Memory/Blocks/Search.antt =====
-- The search of allocate_from_block in memory_pool.cc, and the vector of blocks with one more.
use native.Mathlib.Decide.{ℕ_discrete}
use storage_engine.Prelude.{
  ℕ, zero, suc, ◌≤◌, ◌<◌, ◌≡◌, refl, sym, ap, ◌∙◌, none, some, List, [], ◌∷◌, ◌++◌, arith, length,
  get_elem?, drop, length-append,
}
use storage_engine.Memory.Blocks.{next_block}

pub next_found :
    (i j : ℕ) (blocks : List ℕ) (b : ℕ)
    → get_elem? blocks j ≡ some b
    → 0 < b
    → next_block i (drop j blocks) ≡ some (i, b)
unfolding next_block
next_found i j [] b e pos = cc
next_found i zero (x ∷ xs) b e pos = ground (arith, e, pos)
next_found i (suc j) (x ∷ xs) b e pos = next_found i j xs b e pos

pub next_missing :
    (i j : ℕ) (blocks : List ℕ) → length blocks ≤ j → next_block i (drop j blocks) ≡ none
unfolding next_block
next_missing i zero [] h = refl
next_missing i (suc j) [] h = refl
next_missing i zero (x ∷ xs) h = absurd (omega (arith, h))
next_missing i (suc j) (x ∷ xs) h = next_missing i j xs (omega (arith, h))

get-snoc_before :
    (xs : List ℕ) (v k : ℕ) → k < length xs → get_elem? (xs ++ (v ∷ [])) k ≡ get_elem? xs k
get-snoc_before [] v k lt = absurd (omega (arith, lt))
get-snoc_before (x ∷ xs) v zero lt = refl
get-snoc_before (x ∷ xs) v (suc k) lt = get-snoc_before xs v k (omega (arith, lt))

get-snoc_last : (xs : List ℕ) (v : ℕ) → get_elem? (xs ++ (v ∷ [])) (length xs) ≡ some v
get-snoc_last [] v = refl
get-snoc_last (x ∷ xs) v = get-snoc_last xs v

pub get_snoc :
    (block_at : ℕ → ℕ) (xs : List ℕ)
    → ((k : ℕ) → k < length xs → get_elem? xs k ≡ some (block_at k))
    → (k : ℕ) → k < length (xs ++ (block_at (length xs) ∷ []))
    → get_elem? (xs ++ (block_at (length xs) ∷ [])) k ≡ some (block_at k)
get_snoc block_at xs h k lt = elim (ℕ_discrete k (length xs)) [
  | yes e ↦
      ap (get_elem? (xs ++ (block_at (length xs) ∷ []))) e
      ∙ get-snoc_last xs (block_at (length xs))
      ∙ ap (λ n. some (block_at n)) (sym e)
  | no ne ↦
      let below : k < length xs =
        omega (arith, lt, ne, length-append xs (block_at (length xs) ∷ [])) in
      get-snoc_before xs (block_at (length xs)) k below ∙ h k below
]
