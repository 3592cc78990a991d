-- ===== src/Memory/ReturnRing/Refine.antt =====
-- The return ring of memory_pool.cc is a bounded queue: what it holds, and a push.
use native.Mathlib.Nat.{mod-eq_of_lt, add-mod_right}
use native.Mathlib.Decide.{dec_lt, ℕ_discrete}
use storage_engine.Prelude.{
  ℕ, suc, ◌+◌, ◌-◌, ◌*◌, ◌%◌, ◌^◌, ◌≤◌, ◌<◌, ◌≡◌, ◌≢◌, refl, sym, ap, ◌∙◌, ◌⊎◌, inl, inr, Bool,
  true, false, some, List, [], ◌∷◌, ◌++◌, arith, update, update_self, update_ne, add_word,
}
use storage_engine.Prelude.Window.{window, slot_ne, window-push}
use storage_engine.Memory.ReturnRing.{ReturnRing, ring_capacity, make_ring, try_enqueue}

-- The slot at `head + k` is marked full with the position behind it, or free with its own.
pub record IsValid (r : ReturnRing) : Type 0 where
  pub ordered : r.head ≤ r.tail
  pub bounded : r.tail ≤ r.head + ring_capacity
  pub full :
      (k : ℕ) → r.head + k < r.tail → r.sequence ((r.head + k) % ring_capacity) ≡ r.head + k + 1
  pub free :
      (k : ℕ)
      → r.tail ≤ r.head + k
      → k < ring_capacity
      → r.sequence ((r.head + k) % ring_capacity) ≡ r.head + k

abbrev pub contents : ReturnRing → List ℕ
contents r = window ring_capacity r.cells r.head (r.tail - r.head)

pub make_ring-IsValid : IsValid make_ring
make_ring-IsValid = record {
  ordered = omega arith;
  bounded = omega arith;
  full = λ k lt. absurd (omega (arith, lt));
  free = λ k le lt.
      ap (λ t. t % ring_capacity) {x = 0 + k} {y = k} (omega arith) ∙ mod-eq_of_lt lt ∙ omega arith;
}

-- What is left of the ring when its counters are far from wrapping around.
abbrev pub Low : ReturnRing → Type 0
Low r = r.tail + 2 * ring_capacity < 2 ^ 63

abbrev pub Pushed : ReturnRing → ℕ → Bool × ReturnRing → Type 0
Pushed r ptr (ok, r') = (ok ≡ true) × (IsValid r') × (contents r' ≡ contents r ++ (ptr ∷ []))

abbrev pub Full : ReturnRing → Bool × ReturnRing → Type 0
Full r (ok, r') = (ok ≡ false) × (r' ≡ r) × (r.tail - r.head ≡ ring_capacity)

abbrev written : ℕ → ReturnRing → ReturnRing
written ptr r = record r {
  sequence = update r.sequence (r.tail % ring_capacity) (add_word r.tail 1);
  cells = update r.cells (r.tail % ring_capacity) ptr;
  tail = add_word r.tail 1;
}

slot_full :
    (r : ReturnRing)
    → IsValid r
    → r.tail ≡ r.head + ring_capacity
    → r.sequence (r.tail % ring_capacity) ≡ r.head + 1
slot_full r v e =
    ap r.sequence (
      ap (λ t. t % ring_capacity) e
      ∙ add-mod_right r.head ring_capacity
      ∙ ap (λ t. t % ring_capacity) {x = r.head} {y = r.head + 0} (omega arith))
    ∙ v.full 0 (omega arith)
    ∙ omega arith

slot_free :
    (r : ReturnRing)
    → IsValid r
    → r.tail < r.head + ring_capacity
    → r.sequence (r.tail % ring_capacity) ≡ r.tail
slot_free r v lt =
    ap (λ t. r.sequence (t % ring_capacity)) {x = r.tail} {y = r.head + (r.tail - r.head)}
      (omega (arith, v.ordered))
    ∙ v.free (r.tail - r.head) (omega (arith, v.ordered)) (omega (arith, v.ordered))
    ∙ omega (arith, v.ordered)

-- Two positions fewer than `ring_capacity` apart stand in two slots.
pub slots_differ :
    (a b : ℕ)
    → a ≢ b
    → a < b + ring_capacity
    → b < a + ring_capacity
    → a % ring_capacity ≢ b % ring_capacity
slots_differ a b ne hi lo q = elim (dec_lt a b) [
  | yes lt ↦
      slot_ne ring_capacity a (b - a) (omega arith) (omega arith)
        (ap (λ t. t % ring_capacity) {x = a + (b - a)} {y = b} (omega arith) ∙ sym q)
  | no nlt ↦
      slot_ne ring_capacity b (a - b) (omega (arith, ne)) (omega arith)
        (ap (λ t. t % ring_capacity) {x = b + (a - b)} {y = a} (omega arith) ∙ q)
]

written-IsValid :
    (ptr : ℕ) (r : ReturnRing)
    → IsValid r
    → Low r
    → r.tail < r.head + ring_capacity
    → IsValid (written ptr r)
written-IsValid ptr r v low lt = record {
  ordered = omega (arith, v.ordered);
  bounded = omega arith;
  full = λ k below. elim (ℕ_discrete (r.head + k) r.tail) [
    | yes e ↦
        ap (update r.sequence (r.tail % ring_capacity) (add_word r.tail 1))
          (ap (λ t. t % ring_capacity) e)
        ∙ update_self r.sequence (r.tail % ring_capacity) (add_word r.tail 1)
        ∙ omega (arith, e, low)
    | no ne ↦
        update_ne r.sequence (r.tail % ring_capacity) ((r.head + k) % ring_capacity)
          (add_word r.tail 1)
          (slots_differ r.tail (r.head + k) (λ q. ne (sym q)) (omega (arith, below, low))
            (omega (arith, below, low)))
        ∙ v.full k (omega (arith, below, low, ne))
  ];
  free = λ k le below.
      update_ne r.sequence (r.tail % ring_capacity) ((r.head + k) % ring_capacity)
        (add_word r.tail 1)
        (slots_differ r.tail (r.head + k) (λ q. absurd (omega (arith, le, low, q)))
          (omega (arith, le, low)) (omega (arith, below, v.ordered)))
      ∙ v.free k (omega (arith, le, low)) below;
}

written-contents :
    (ptr : ℕ) (r : ReturnRing)
    → IsValid r
    → Low r
    → r.tail < r.head + ring_capacity
    → contents (written ptr r) ≡ contents r ++ (ptr ∷ [])
written-contents ptr r v low lt =
    ap (window ring_capacity (update r.cells (r.tail % ring_capacity) ptr) r.head)
      {x = add_word r.tail 1 - r.head} {y = suc (r.tail - r.head)} (omega (arith, v.ordered, low))
    ∙ ap
        (λ t.
          window ring_capacity (update r.cells (t % ring_capacity) ptr) r.head
            (suc (r.tail - r.head)))
        {x = r.tail} {y = r.head + (r.tail - r.head)} (omega (arith, v.ordered))
    ∙ window-push ring_capacity r.cells r.head (r.tail - r.head) ptr (omega (arith, lt, v.ordered))

-- A ring with room takes the pointer behind the others, a full one drops it and stays as it is, and
-- the first try settles which.
pub ring_enqueue :
    (retries ptr : ℕ) (r : ReturnRing)
    → IsValid r
    → Low r
    → (res : Bool × ReturnRing) × (try_enqueue (suc retries) ptr r ≡ some res)
      × (Pushed r ptr res ⊎ Full r res)
unfolding try_enqueue
ring_enqueue retries ptr r v low = elim (dec_lt r.tail (r.head + ring_capacity)) [
  | yes lt ↦ (
    (true, written ptr r),
    ground (arith, slot_free r v lt),
    inl (refl, written-IsValid ptr r v low lt, written-contents ptr r v low lt),
  )
  | no nlt ↦
      let e : r.tail ≡ r.head + ring_capacity = omega (arith, v.bounded) in
      ((false, r), ground (arith, slot_full r v e), inr (refl, refl, omega arith))
]
