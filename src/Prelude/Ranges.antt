-- ===== src/Prelude/Ranges.antt =====
-- Numbers in a row.
use Prim.Native.Nat.{ℕ, zero, suc, ◌+◌}
use mathlib.Core.Path.{◌≡◌, refl, ap, ◌∙◌}
use mathlib.Core.List.{List, [], ◌∷◌, ◌++◌}
use native.Mathlib.Omega.{arith}
use storage_engine.Prelude.Lists.{length}

abbrev pub range_from : ℕ → ℕ → List ℕ
range_from n zero = []
range_from n (suc left) = n ∷ range_from (n + 1) left

pub length-range_from : (n left : ℕ) → length (range_from n left) ≡ left
length-range_from n zero = refl
length-range_from n (suc left) = ap suc (length-range_from (n + 1) left)

pub range_from-append : (n a b : ℕ) → range_from n a ++ range_from (n + a) b ≡ range_from n (a + b)
range_from-append n zero b =
    ap (λ k. range_from k b) (omega arith) ∙ ap (range_from n) (omega arith)
range_from-append n (suc a) b =
    ap (λ k. n ∷ (range_from (n + 1) a ++ range_from k b)) {x = n + suc a} {y = n + 1 + a}
      (omega arith)
    ∙ ap (λ t. n ∷ t) (range_from-append (n + 1) a b)
    ∙ ap (range_from n) {x = suc (a + b)} (omega arith)
