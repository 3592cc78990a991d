-- ===== src/Ring/Fifo.antt =====
-- What a ring promises its client: a first-in first-out queue, bounded or not.
use storage_engine.Prelude.{
  ℕ, Bool, true, false, Option, none, some, List, [], ◌∷◌, ◌++◌, length, ltb, if◌then◌else◌,
}

module _ {ℓ} {A : Type ℓ} where
  -- An element is refused, and nothing changes, when `room` elements are held.
  unfoldable pub push : ℕ → List A → A → Bool × List A
  push room xs x = if ltb (length xs) room then (true, xs ++ (x ∷ [])) else (false, xs)

  unfoldable pub pop : List A → Option A × List A
  pop [] = (none, [])
  pop (x ∷ xs) = (some x, xs)
