-- ===== src/Prelude/Window.antt =====
-- The elements of a circular store from a position on: what the rings of the runtime hold.
use Prim.Native.Nat.{ℕ, zero, suc, ◌+◌, ◌-◌, ◌*◌, ◌/◌, ◌%◌, ◌≤◌, ◌<◌}
use mathlib.Core.Path.{◌≡◌, refl, sym, ap, ap₂, ◌∙◌}
use mathlib.Core.Logic.{◌≢◌}
use mathlib.Core.List.{List, [], ◌∷◌, ◌++◌}
use native.Mathlib.Nat.{
  mod-add-mod, mod-eq_of_lt, mod-eq-sub-mod, mod-lt, mul-add-mod_self_left, div-add-mod, mul_assoc,
}
use native.Mathlib.Decide.{dec_lt}
use native.Mathlib.Omega.{arith}
use storage_engine.Prelude.Lists.{length, update, update_ne}

-- Equal slots stay equal a few steps on.
pub slot_add : (slots h h' k : ℕ) → h % slots ≡ h' % slots → (h + k) % slots ≡ (h' + k) % slots
slot_add slots h h' k e =
    sym (mod-add-mod h slots k) ∙ ap (λ t. (t + k) % slots) e ∙ mod-add-mod h' slots k

-- Fewer than `slots` steps round the ring do not come back to the start.
pub slot_ne : (slots h k : ℕ) → 0 < k → k < slots → (h + k) % slots ≢ h % slots
slot_ne slots h k pos lt e = elim (dec_lt (h % slots + k) slots) [
  | yes p ↦ absurd (omega (arith, mod-add-mod h slots k, mod-eq_of_lt p))
  | no p ↦
      let low : h % slots + k - slots < slots = omega (arith, mod-lt h {m = slots} (omega arith)) in
      absurd (
        omega (
          arith,
          mod-add-mod h slots k,
          mod-eq-sub-mod {n = h % slots + k} {m = slots} (omega arith),
          mod-eq_of_lt low,
        ))
]

-- A counter that wraps at a multiple of the size names the same slot.
pub slot_wrap : (wide slots d h : ℕ) → wide ≡ slots * d → h % wide % slots ≡ h % slots
slot_wrap wide slots d h e =
    sym (mul-add-mod_self_left slots (d * (h / wide)) (h % wide)) ∙ ap (λ t. t % slots) whole
  where
    whole : slots * (d * (h / wide)) + h % wide ≡ h
    whole =
        ap (λ t. t + h % wide)
          (sym (mul_assoc slots d (h / wide)) ∙ ap (λ t. t * (h / wide)) (sym e))
        ∙ div-add-mod h wide

module _ {ℓ} {A : Type ℓ} (slots : ℕ) where
  -- The `n` elements from position `h` on; position `p` stands in slot `p % slots`.
  abbrev pub window : (ℕ → A) → ℕ → ℕ → List A
  window f h zero = []
  window f h (suc n) = f (h % slots) ∷ window f (h + 1) n

  pub length-window : (f : ℕ → A) (h n : ℕ) → length (window f h n) ≡ n
  length-window f h zero = refl
  length-window f h (suc n) = ap suc (length-window f (h + 1) n)

  -- Only the slot of the start matters.
  pub window-slot : (f : ℕ → A) (h h' n : ℕ) → h % slots ≡ h' % slots → window f h n ≡ window f h' n
  window-slot f h h' zero e = refl
  window-slot f h h' (suc n) e =
      ap₂ ◌∷◌ (ap f e) (window-slot f (h + 1) (h' + 1) n (slot_add slots h h' 1 e))

  pub window-add : (f : ℕ → A) (h n m : ℕ) → window f h (n + m) ≡ window f h n ++ window f (h + n) m
  window-add f h zero m =
      let e : zero + m ≡ m = omega arith in let k : h + zero ≡ h = omega arith in rw (e, k)
  window-add f h (suc n) m =
      let e : suc n + m ≡ suc (n + m) = omega arith in
      let k : h + suc n ≡ h + 1 + n = omega arith in rw (e, k, window-add f (h + 1) n m)

  pub window-snoc :
      (f : ℕ → A) (h n : ℕ) → window f h (suc n) ≡ window f h n ++ (f ((h + n) % slots) ∷ [])
  window-snoc f h n = ap (window f h) {x = suc n} (omega arith) ∙ window-add f h n 1

  window-update_at :
      (f : ℕ → A) (h n k i : ℕ) (v : A)
      → i ≡ (h + k) % slots
      → n ≤ k
      → k < slots
      → window (update f i v) h n ≡ window f h n
  window-update_at f h zero k i v e le lt = refl
  window-update_at f h (suc n) k i v e le lt =
      ap₂ ◌∷◌ (update_ne f i (h % slots) v (λ q. slot_ne slots h k (omega arith) lt (sym e ∙ q))) (
        window-update_at f (h + 1) n (k - 1) i v (e ∙ ap (λ t. t % slots) (omega arith))
          (omega arith) (omega arith))

  -- A write outside the window leaves it alone.
  pub window-update :
      (f : ℕ → A) (h n k : ℕ) (v : A)
      → n ≤ k
      → k < slots
      → window (update f ((h + k) % slots) v) h n ≡ window f h n
  window-update f h n k v le lt = window-update_at f h n k ((h + k) % slots) v refl le lt

  -- A write just past the window extends it.
  pub window-push :
      (f : ℕ → A) (h n : ℕ) (v : A)
      → n < slots
      → window (update f ((h + n) % slots) v) h (suc n) ≡ window f h n ++ (v ∷ [])
  window-push f h n v lt =
      window-snoc (update f ((h + n) % slots) v) h n
      ∙ ap₂ (λ xs x. xs ++ (x ∷ [])) (window-update f h n n v (omega arith) lt) (ground arith)

  pub window-pop :
      (f : ℕ → A) (h n : ℕ) → n ≢ 0 → window f h n ≡ f (h % slots) ∷ window f (h + 1) (n - 1)
  window-pop f h zero ne = absurd (ne refl)
  window-pop f h (suc n) ne = ap (λ k. f (h % slots) ∷ window f (h + 1) k) (omega arith)
