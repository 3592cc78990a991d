-- ===== src/Memory/Pool/Slots.antt =====
-- The pieces that the pool of memory_pool.cc has cut off its blocks for objects of a size class.
use mathlib.Core.Path.{subst}
use native.Mathlib.Decide.{dec_lt}
use storage_engine.Prelude.{
  ℕ, ◌+◌, ◌≤◌, ◌<◌, ◌≡◌, ◌≢◌, sym, ap, ◌∙◌, ◌⊎◌, inl, inr, Bool, true, false, List, [], ◌∷◌, ◌++◌,
  ◌==◌, ◌&&◌, if◌then◌else◌, arith, ==_iff, All, Bool-cases, and_left, and_right,
}
use storage_engine.Memory.SizeClass.{block_size, class_size}
use storage_engine.Memory.Blocks.Pieces.{Before}

abbrev pub bit : Bool → ℕ
bit b = if b then 1 else 0

-- How often an address stands in a list.
abbrev pub one : ℕ → ℕ → ℕ
one p x = bit (x == p)

abbrev pub copies : ℕ → List ℕ → ℕ
copies p [] = 0
copies p (x ∷ xs) = one p x + copies p xs

pub copies-append : (p : ℕ) (xs ys : List ℕ) → copies p (xs ++ ys) ≡ copies p xs + copies p ys
copies-append p [] ys = omega arith
copies-append p (x ∷ xs) ys = omega (arith, copies-append p xs ys)

abbrev pub remove : ℕ → List ℕ → List ℕ
remove p [] = []
remove p (x ∷ xs) = if x == p then xs else x ∷ remove p xs

pub copies-remove :
    (p q : ℕ) (xs : List ℕ) → 1 ≤ copies p xs → copies q (remove p xs) + one q p ≡ copies q xs
copies-remove p q [] h = absurd (omega (arith, h))
copies-remove p q (x ∷ xs) h = elim (Bool-cases (x == p)) [
  | inl e ↦ rw e (omega (arith, ap (one q) ((==_iff x p).0 e)))
  | inr ne ↦
      let more : 1 ≤ copies p xs = omega (arith, h, ap bit {y = false} ne) in
      rw ne (omega (arith, copies-remove p q xs more))
]

pub record Slot : Type 0 where
  pub class : ℕ
  pub block : ℕ
  pub offset : ℕ
  pub width : ℕ
  pub addr : ℕ

abbrev pub is : ℕ → ℕ → Slot → Bool
is c p s = (s.class == c) && (s.addr == p)

abbrev pub made : ℕ → ℕ → List Slot → ℕ
made c p [] = 0
made c p (s ∷ slots) = bit (is c p s) + made c p slots

module _ (block_at : ℕ → ℕ) where
  pub record Placed (idx offset : ℕ) (s : Slot) : Type 0 where
    pub there : s.addr ≡ block_at s.block + s.offset
    pub wide : class_size s.class ≤ s.width
    pub some_bytes : 0 < class_size s.class
    pub inside : s.offset + s.width ≤ block_size
    pub cut : Before block_at s.block (s.offset + s.width) idx offset

  -- The newest piece first, each behind the older ones.
  abbrev pub Behind : Slot → Slot → Type 0
  Behind s t = Before block_at t.block (t.offset + t.width) s.block s.offset

  abbrev pub Ordered : List Slot → Type 0
  Ordered [] = Unit {0}
  Ordered (s ∷ slots) = All (Behind s) slots × Ordered slots

  -- The bytes of two objects do not meet.
  abbrev pub Apart : ℕ → ℕ → ℕ → ℕ → Type 0
  Apart p m q n = (p + m ≤ q) ⊎ (q + n ≤ p)

  -- The allocator's blocks do not overlap.
  abbrev pub BlocksApart : Type 0
  BlocksApart = (i j : ℕ) → i ≢ j → Apart (block_at i) block_size (block_at j) block_size

  module _ (blocks_apart : BlocksApart) where
    Behind-Apart :
        (idx offset : ℕ) (s t : Slot)
        → Placed idx offset s
        → Placed idx offset t
        → Behind s t
        → Apart s.addr (class_size s.class) t.addr (class_size t.class)
    Behind-Apart idx offset s t ps pt (inl lt) =
        elim (blocks_apart s.block t.block (λ e. absurd (omega (arith, lt, e)))) [
          | inl le ↦ inl (omega (arith, le, ps.there, pt.there, ps.inside, ps.wide))
          | inr le ↦ inr (omega (arith, le, ps.there, pt.there, pt.inside, pt.wide))
        ]
    Behind-Apart idx offset s t ps pt (inr (e, le)) =
        inr (omega (arith, le, ap block_at e, ps.there, pt.there, pt.wide))

    -- A piece of that class at that address.
    Found : ℕ → ℕ → (Slot → Type 0) → Type 0
    Found c p P = (s : Slot) × (s.class ≡ c) × (s.addr ≡ p) × P s

    find :
        (c p : ℕ) (P : Slot → Type 0) (slots : List Slot)
        → 1 ≤ made c p slots
        → All P slots
        → Found c p P
    unfolding Found
    find c p P [] h all = absurd (omega (arith, h))
    find c p P (s ∷ slots) h (here, rest) = elim (Bool-cases (is c p s)) [
      | inl e ↦ (
        s,
        (==_iff s.class c).0 (and_left (s.class == c) (s.addr == p) e),
        (==_iff s.addr p).0 (and_right (s.class == c) (s.addr == p) e),
        here,
      )
      | inr ne ↦ find c p P slots (omega (arith, h, ap bit {y = false} ne)) rest
    ]

    Both : ℕ → ℕ → Slot → Slot → Type 0
    Both idx offset s t = Placed idx offset t × Behind s t

    both :
        (idx offset : ℕ) (s : Slot) (slots : List Slot)
        → All (Placed idx offset) slots
        → All (Behind s) slots
        → All (Both idx offset s) slots
    unfolding Both
    both idx offset s [] p b = tt
    both idx offset s (t ∷ slots) (p, ps) (b, bs) = ((p, b), both idx offset s slots ps bs)

    -- A piece and an older one.
    head-Apart :
        (idx offset c p d q : ℕ) (s : Slot) (slots : List Slot)
        → Placed idx offset s
        → All (Placed idx offset) slots
        → All (Behind s) slots
        → is c p s ≡ true
        → 1 ≤ made d q slots
        → Apart p (class_size c) q (class_size d)
    unfolding Both Found
    head-Apart idx offset c p d q s slots ps all behind e h =
        let (t, ct, at, (pt, b)) : Found d q (Both idx offset s) =
          find d q (Both idx offset s) slots h (both idx offset s slots all behind) in
        let cs : s.class ≡ c = (==_iff s.class c).0 (and_left (s.class == c) (s.addr == p) e) in
        let at_p : s.addr ≡ p = (==_iff s.addr p).0 (and_right (s.class == c) (s.addr == p) e) in
        subst (λ k. Apart p k q (class_size d)) (ap class_size cs)
          (subst (λ k. Apart p (class_size s.class) q k) (ap class_size ct)
            (subst (λ k. Apart k (class_size s.class) q (class_size t.class)) at_p
              (subst (λ k. Apart s.addr (class_size s.class) k (class_size t.class)) at
                (Behind-Apart idx offset s t ps pt b))))

    -- Two pieces that differ in class or address do not overlap.
    pub made-Apart :
        (idx offset c p d q : ℕ) (slots : List Slot)
        → All (Placed idx offset) slots
        → Ordered slots
        → (c ≢ d) ⊎ (p ≢ q)
        → 1 ≤ made c p slots
        → 1 ≤ made d q slots
        → Apart p (class_size c) q (class_size d)
    made-Apart idx offset c p d q [] all ord ne h k = absurd (omega (arith, h))
    made-Apart idx offset c p d q (s ∷ slots) (here, all) (behind, ord) ne h k =
        elim (Bool-cases (is c p s)) [
          | inl e ↦ elim (Bool-cases (is d q s)) [
            | inl f ↦ absurd (same s e f ne)
            | inr g ↦ head-Apart idx offset c p d q s slots here all behind e (later d q g k)
          ]
          | inr n ↦ elim (Bool-cases (is d q s)) [
            | inl f ↦ swap (head-Apart idx offset d q c p s slots here all behind f (later c p n h))
            | inr g ↦ made-Apart idx offset c p d q slots all ord ne (later c p n h) (later d q g k)
          ]
        ]
      where
        later : (c p : ℕ) → is c p s ≡ false → 1 ≤ made c p (s ∷ slots) → 1 ≤ made c p slots
        later c p n h = omega (arith, h, ap bit {y = false} n)

        swap : Apart q (class_size d) p (class_size c) → Apart p (class_size c) q (class_size d)
        swap (inl le) = inr le
        swap (inr le) = inl le

        same : (s : Slot) → is c p s ≡ true → is d q s ≡ true → (c ≢ d) ⊎ (p ≢ q) → ⊥
        same s e f (inl n) = n (
            sym ((==_iff s.class c).0 (and_left (s.class == c) (s.addr == p) e))
            ∙ (==_iff s.class d).0 (and_left (s.class == d) (s.addr == q) f))
        same s e f (inr n) = n (
            sym ((==_iff s.addr p).0 (and_right (s.class == c) (s.addr == p) e))
            ∙ (==_iff s.addr q).0 (and_right (s.class == d) (s.addr == q) f))

    -- And a piece is counted once.
    pub made_once :
        (idx offset c p : ℕ) (slots : List Slot)
        → All (Placed idx offset) slots
        → Ordered slots
        → 0 < class_size c
        → made c p slots ≤ 1
    made_once idx offset c p [] all ord pos = omega arith
    made_once idx offset c p (s ∷ slots) (here, all) (behind, ord) pos =
        elim (Bool-cases (is c p s)) [
          | inl e ↦ elim (dec_lt 0 (made c p slots)) [
            | yes lt ↦
                elim (head-Apart idx offset c p c p s slots here all behind e (omega (arith, lt))) [
                  | inl le ↦ absurd (omega (arith, le, pos))
                  | inr le ↦ absurd (omega (arith, le, pos))
                ]
            | no z ↦ omega (arith, z, ap bit {y = true} e)
          ]
          | inr ne ↦
              omega (arith, ap bit {y = false} ne, made_once idx offset c p slots all ord pos)
        ]
