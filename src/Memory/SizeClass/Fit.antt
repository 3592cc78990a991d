-- ===== src/Memory/SizeClass/Fit.antt =====
-- That size_class_index finds the least class that fits.
use native.Mathlib.Decide.{ℕ_discrete}
use storage_engine.Prelude.{
  ℕ, zero, suc, ◌-◌, ◌≤◌, ◌<◌, ◌≡◌, refl, ◌∙◌, ap, ◌⊎◌, Bool, true, ◌&&◌, ◌||◌, ◌==◌, ltb, leb,
  arith, and_left, and_right,
}
use storage_engine.Memory.SizeClass.{size_class_index, class_size, num_size_classes}

abbrev fits : ℕ → Bool
fits size =
    let c = size_class_index size in
    ltb c num_size_classes && leb size (class_size c) && ((c == 0) || ltb (class_size (c - 1)) size)

unfoldable all_below : ℕ → (ℕ → Bool) → Bool
all_below zero test = true
all_below (suc n) test = test n && all_below n test

all_below_lem :
    (n : ℕ) (test : ℕ → Bool) → all_below n test ≡ true → (k : ℕ) → k < n → test k ≡ true
unfolding all_below
all_below_lem zero test e k lt = absurd (omega (arith, lt))
all_below_lem (suc n) test e k lt = elim (ℕ_discrete k n) [
  | yes here ↦ ap test here ∙ and_left (test n) (all_below n test) e
  | no ne ↦ all_below_lem n test (and_right (test n) (all_below n test) e) k (omega (arith, lt, ne))
]

small_fits : all_below 257 fits ≡ true
unfolding all_below size_class_index class_size
small_fits = refl

-- An object of at most 256 bytes gets one of the six classes, whose slots hold it, and the class
-- below, if there is one, is too small for it.
pub size_class_fits :
    (size : ℕ)
    → size ≤ 256
    → (size_class_index size < num_size_classes)
      × (size ≤ class_size (size_class_index size))
      × ((size_class_index size ≡ 0) ⊎ (class_size (size_class_index size - 1) < size))
size_class_fits size h =
    let e : fits size ≡ true = all_below_lem 257 fits small_fits size (omega (arith, h)) in
    let c = size_class_index size in
    let room = ltb c num_size_classes in
    let wide = leb size (class_size c) in
    let least = (c == 0) || ltb (class_size (c - 1)) size in
    let both : (room && wide) ≡ true = and_left (room && wide) least e in
    let first : room ≡ true = and_left room wide both in
    let second : wide ≡ true = and_right room wide both in
    let third : least ≡ true = and_right (room && wide) least e in
    (ground (arith, first), ground (arith, second), ground (arith, third))

-- The sizes of the six classes.
pub class_bounds : (c : ℕ) → c < num_size_classes → (0 < class_size c) × (class_size c ≤ 4096)
unfolding class_size
class_bounds zero lt = (omega arith, omega arith)
class_bounds (suc zero) lt = (omega arith, omega arith)
class_bounds (suc (suc zero)) lt = (omega arith, omega arith)
class_bounds (suc (suc (suc zero))) lt = (omega arith, omega arith)
class_bounds (suc (suc (suc (suc zero)))) lt = (omega arith, omega arith)
class_bounds (suc (suc (suc (suc (suc zero))))) lt = (omega arith, omega arith)
class_bounds (suc (suc (suc (suc (suc (suc c)))))) lt = absurd (omega (arith, lt))
