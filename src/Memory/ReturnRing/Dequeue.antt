-- ===== src/Memory/ReturnRing/Dequeue.antt =====
-- A pop of the return ring of memory_pool.cc.
use native.Mathlib.Nat.{add-mod_right}
use native.Mathlib.Decide.{dec_lt, ℕ_discrete}
use mathlib.Core.Path.{ap₂}
use storage_engine.Prelude.{
  ℕ, suc, ◌+◌, ◌-◌, ◌%◌, ◌<◌, ◌≡◌, refl, ap, ◌∙◌, ◌⊎◌, inl, inr, Option, none, some, [], ◌∷◌, arith,
  update, update_self, update_ne, add_word,
}
use storage_engine.Prelude.Window.{window, window-pop}
use storage_engine.Memory.ReturnRing.{ReturnRing, ring_capacity, try_dequeue}
use storage_engine.Memory.ReturnRing.Refine.{IsValid, contents, Low, slots_differ}

abbrev removed : ReturnRing → ReturnRing
removed r = record r {
  sequence = update r.sequence (r.head % ring_capacity) (add_word r.head ring_capacity);
  head = add_word r.head 1;
}

removed-IsValid : (r : ReturnRing) → IsValid r → Low r → r.head < r.tail → IsValid (removed r)
removed-IsValid r v low lt = record {
  ordered = omega arith;
  bounded = omega (arith, v.bounded);
  full = λ k below.
      ap (λ t. (removed r).sequence (t % ring_capacity)) (ahead k)
      ∙ update_ne r.sequence (r.head % ring_capacity) ((r.head + (k + 1)) % ring_capacity)
          (add_word r.head ring_capacity)
          (slots_differ r.head (r.head + (k + 1)) (λ q. absurd (omega (arith, q))) (omega arith)
            (omega (arith, below, v.bounded, low)))
      ∙ v.full (k + 1) (omega (arith, below, low))
      ∙ omega (arith, ahead k);
  free = λ k le below. elim (ℕ_discrete k (ring_capacity - 1)) [
    | yes e ↦
        ap (λ t. (removed r).sequence (t % ring_capacity)) {x = add_word r.head 1 + k}
          {y = r.head + ring_capacity} (omega (arith, ahead k, e))
        ∙ ap (removed r).sequence (add-mod_right r.head ring_capacity)
        ∙ update_self r.sequence (r.head % ring_capacity) (add_word r.head ring_capacity)
        ∙ omega (arith, e, low, lt)
    | no ne ↦
        ap (λ t. (removed r).sequence (t % ring_capacity)) (ahead k)
        ∙ update_ne r.sequence (r.head % ring_capacity) ((r.head + (k + 1)) % ring_capacity)
            (add_word r.head ring_capacity)
            (slots_differ r.head (r.head + (k + 1)) (λ q. absurd (omega (arith, q))) (omega arith)
              (omega (arith, below, ne)))
        ∙ v.free (k + 1) (omega (arith, le, ahead k)) (omega (arith, below, ne))
        ∙ omega (arith, ahead k)
  ];
}
  where
    ahead : (k : ℕ) → add_word r.head 1 + k ≡ r.head + (k + 1)
    ahead k = omega (arith, lt, low)

abbrev pub Popped : ReturnRing → Option ℕ × ReturnRing → Type 0
Popped r (found, r') =
    (ptr : ℕ) × (found ≡ some ptr)
    × (IsValid r')
    × (contents r ≡ ptr ∷ contents r')
    × (r'.tail ≡ r.tail)

abbrev pub Empty : ReturnRing → Option ℕ × ReturnRing → Type 0
Empty r (found, r') = (found ≡ none) × (r' ≡ r) × (contents r ≡ [])

slot_used :
    (r : ReturnRing)
    → IsValid r
    → r.head < r.tail
    → r.sequence (r.head % ring_capacity) ≡ r.head + 1
slot_used r v lt =
    ap (λ t. r.sequence (t % ring_capacity)) {x = r.head} {y = r.head + 0} (omega arith)
    ∙ v.full 0 (omega (arith, lt))
    ∙ omega arith

slot_unused :
    (r : ReturnRing) → IsValid r → r.head ≡ r.tail → r.sequence (r.head % ring_capacity) ≡ r.head
slot_unused r v e =
    ap (λ t. r.sequence (t % ring_capacity)) {x = r.head} {y = r.head + 0} (omega arith)
    ∙ v.free 0 (omega (arith, e)) (omega arith)
    ∙ omega arith

-- A ring that holds something gives the pointer that stands first, an empty one none, and the first
-- try settles which.
pub ring_dequeue :
    (retries : ℕ) (r : ReturnRing)
    → IsValid r
    → Low r
    → (res : Option ℕ × ReturnRing) × (try_dequeue (suc retries) r ≡ some res)
      × (Popped r res ⊎ Empty r res)
unfolding try_dequeue
ring_dequeue retries r v low = elim (dec_lt r.head r.tail) [
  | yes lt ↦ (
    (some (r.cells (r.head % ring_capacity)), removed r),
    ground (arith, slot_used r v lt),
    inl (r.cells (r.head % ring_capacity), refl, removed-IsValid r v low lt, held lt, refl),
  )
  | no nlt ↦
      let e : r.head ≡ r.tail = omega (arith, v.ordered) in
      (
        (none, r),
        ground (arith, slot_unused r v e),
        inr (refl, refl, ap (window ring_capacity r.cells r.head) {y = 0} (omega (arith, e))),
      )
]
  where
    held : r.head < r.tail → contents r ≡ r.cells (r.head % ring_capacity) ∷ contents (removed r)
    held lt =
        window-pop ring_capacity r.cells r.head (r.tail - r.head)
          (λ q. absurd (omega (arith, lt, q)))
        ∙ ap₂ (λ h n. r.cells (r.head % ring_capacity) ∷ window ring_capacity r.cells h n)
            {y = add_word r.head 1} (omega (arith, lt, low)) (omega (arith, lt, low))
