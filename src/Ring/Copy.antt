-- ===== src/Ring/Copy.antt =====
-- What the copy loops of the rings do: a run of elements written into, or read out of, the slots
-- from a position on.
use storage_engine.Prelude.{
  ℕ, suc, ◌+◌, ◌%◌, ◌≤◌, ◌≡◌, sym, ap, ◌∙◌, List, [], ◌∷◌, ◌++◌, append-nil, append_assoc, length,
  update, arith,
}
use mathlib.Core.Path.{ap₂}
use storage_engine.Prelude.Window.{window, window-push}

module _ {ℓ} {A : Type ℓ} (slots : ℕ) where
  -- The elements written one after the other at positions `p`, `p + 1`, …
  abbrev pub copy_in : (ℕ → A) → ℕ → List A → ℕ → A
  copy_in f p [] = f
  copy_in f p (x ∷ xs) = copy_in (update f (p % slots) x) (p + 1) xs

  -- Written just past a window, they extend it.
  pub window-copy_in :
      (f : ℕ → A) (h n : ℕ) (xs : List A)
      → n + length xs ≤ slots
      → window slots (copy_in f (h + n) xs) h (n + length xs) ≡ window slots f h n ++ xs
  window-copy_in f h n [] le =
      ap (window slots f h) {x = n + 0} (omega arith) ∙ sym (append-nil (window slots f h n))
  window-copy_in f h n (x ∷ xs) le =
      ap₂ (λ p k. window slots (copy_in (update f ((h + n) % slots) x) p xs) h k) {x = h + n + 1}
        {y = h + suc n} {u = n + suc (length xs)} {v = suc n + length xs} (omega arith)
        (omega arith)
      ∙ window-copy_in (update f ((h + n) % slots) x) h (suc n) xs (omega arith)
      ∙ ap (λ w. w ++ xs) (window-push slots f h n x (omega arith))
      ∙ append_assoc (window slots f h n) (x ∷ []) xs
