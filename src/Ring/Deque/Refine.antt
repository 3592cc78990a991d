-- ===== src/Ring/Deque/Refine.antt =====
-- The deque of chase_lev_deque.h is a sequence: the owner pushes and pops at its end, a thief takes
-- from its front, and it never overflows.
use mathlib.Core.Path.{ap₂}
use storage_engine.Prelude.{
  ℕ, zero, suc, ◌+◌, ◌-◌, ◌*◌, ◌%◌, ◌≤◌, ◌<◌, ◌≡◌, refl, ap, ◌∙◌, ◌⊎◌, inl, inr, none, some, List,
  [], ◌∷◌, ◌++◌, arith, leb, ltb, ◌==◌, update, update_self, update_ne, Bool-cases, ==_iff,
}
use storage_engine.Prelude.Window.{window, slot_ne, window-push, window-pop, window-snoc}
use storage_engine.Ring.Deque.{
  CircularArray, ChaseLevDeque, load, store, move, grow, push, pop, steal,
}

module _ {ℓ} {A : Type ℓ} where
  pub record IsValid (q : ChaseLevDeque A) : Type 0 where
    pub positive : 0 < q.array.capacity
    pub ordered : q.top ≤ q.bottom
    pub bounded : q.bottom ≤ q.top + q.array.capacity

  abbrev pub contents : ChaseLevDeque A → List A
  contents q = window q.array.capacity q.array.items q.top (q.bottom - q.top)

  -- Moving on from `i` leaves the cell of an earlier position alone.
  move-before :
      (old new : CircularArray A) (count i d : ℕ)
      → 0 < d
      → d + count ≤ new.capacity
      → (move old count (i + d) new).items (i % new.capacity) ≡ new.items (i % new.capacity)
  unfolding move
  move-before old new zero i d pos le = refl
  move-before old new (suc count) i d pos le =
      ap (λ k. (move old count k (store new (i + d) (load old (i + d)))).items (i % new.capacity))
        {x = i + d + 1} {y = i + (d + 1)} (omega arith)
      ∙ move-before old (store new (i + d) (load old (i + d))) count i (d + 1) (omega arith)
          (omega (arith, le))
      ∙ update_ne new.items ((i + d) % new.capacity) (i % new.capacity) (load old (i + d))
          (slot_ne new.capacity i d pos (omega (arith, le)))

  move-capacity :
      (old new : CircularArray A) (count i : ℕ) → (move old count i new).capacity ≡ new.capacity
  unfolding move
  move-capacity old new zero i = refl
  move-capacity old new (suc count) i = move-capacity old (store new i (load old i)) count (i + 1)

  window-move :
      (old new : CircularArray A) (count i : ℕ)
      → count ≤ new.capacity
      → window new.capacity (move old count i new).items i count
        ≡ window old.capacity old.items i count
  unfolding move
  window-move old new zero i le = refl
  window-move old new (suc count) i le =
      let new' = store new i (load old i) in
      ap₂ ◌∷◌
        (move-before old new' count i 1 (omega arith) (omega (arith, le))
          ∙ update_self new.items (i % new.capacity) (load old i))
        (window-move old new' count (i + 1) (omega (arith, le)))

  grow-contents :
      (q : ChaseLevDeque A) (blank : A)
      → IsValid q
      → window
          (q.array.capacity * 2)
          (grow q.array blank q.top q.bottom).items
          q.top
          (q.bottom - q.top)
        ≡ contents q
  unfolding grow
  grow-contents q blank v =
      window-move q.array (record { capacity = q.array.capacity * 2; items = λ i. blank })
        (q.bottom - q.top) q.top (omega (arith, v.bounded))

  grow-capacity :
      (q : ChaseLevDeque A) (blank : A)
      → (grow q.array blank q.top q.bottom).capacity ≡ q.array.capacity * 2
  unfolding grow
  grow-capacity q blank =
      move-capacity q.array (record { capacity = q.array.capacity * 2; items = λ i. blank })
        (q.bottom - q.top) q.top

  -- A store past the contents.
  stored :
      (a : CircularArray A) (t b : ℕ) (x : A)
      → t ≤ b
      → b - t < a.capacity
      → window a.capacity (store a b x).items t (b + 1 - t)
        ≡ window a.capacity a.items t (b - t) ++ (x ∷ [])
  stored a t b x le lt =
      ap₂ (λ p n. window a.capacity (update a.items (p % a.capacity) x) t n) {x = b}
        {y = t + (b - t)} {u = b + 1 - t} {v = suc (b - t)} (omega (arith, le)) (omega (arith, le))
      ∙ window-push a.capacity a.items t (b - t) x lt

  -- Whether or not the array has to grow, the element is behind the others.
  pub push_refines :
      (q : ChaseLevDeque A) (blank x : A)
      → IsValid q
      → IsValid (push blank q x) × (contents (push blank q x) ≡ contents q ++ (x ∷ []))
  unfolding push
  push_refines q blank x v = elim (Bool-cases (leb q.array.capacity (q.bottom - q.top))) [
    | inl e ↦
        let bigger = grow q.array blank q.top q.bottom in
        let twice : bigger.capacity ≡ q.array.capacity * 2 = grow-capacity q blank in
        rw e (
          record {
            positive = omega (arith, twice, v.positive);
            ordered = omega (arith, v.ordered);
            bounded = omega (arith, twice, v.positive, v.bounded);
          },
          stored bigger q.top q.bottom x v.ordered
                (omega (arith, twice, v.positive, v.bounded, v.ordered))
              ∙ ap (λ xs. xs ++ (x ∷ []))
                  (ap (λ c. window c bigger.items q.top (q.bottom - q.top)) twice
                    ∙ grow-contents q blank v),
        )
    | inr e ↦
        let room : q.bottom - q.top < q.array.capacity = ground (arith, e) in
        rw e (
          record {
            positive = v.positive;
            ordered = omega (arith, v.ordered);
            bounded = omega (arith, room);
          },
          stored q.array q.top q.bottom x v.ordered room,
        )
  ]

  newest :
      (q : ChaseLevDeque A)
      → q.top < q.bottom
      → contents q
        ≡ window q.array.capacity q.array.items q.top (q.bottom - 1 - q.top)
          ++ (load q.array (q.bottom - 1) ∷ [])
  newest q lt =
      ap (window q.array.capacity q.array.items q.top) {y = suc (q.bottom - 1 - q.top)}
        (omega (arith, lt))
      ∙ window-snoc q.array.capacity q.array.items q.top (q.bottom - 1 - q.top)
      ∙ ap
          (λ p.
            window q.array.capacity q.array.items q.top (q.bottom - 1 - q.top)
            ++ (load q.array p ∷ []))
          {x = q.top + (q.bottom - 1 - q.top)} {y = q.bottom - 1} (omega (arith, lt))

  -- The owner pops the newest element, of an empty deque none.
  pub pop_refines :
      (q : ChaseLevDeque A)
      → IsValid q
      → IsValid (pop q).1
        × (((contents q ≡ []) × (pop q ≡ (none, q)))
            ⊎ ((x : A) × ((pop q).0 ≡ some x) × (contents q ≡ contents (pop q).1 ++ (x ∷ []))))
  unfolding pop
  pop_refines q v = elim (Bool-cases (ltb q.top q.bottom)) [
    | inr e ↦
        let none_left : q.bottom - q.top ≡ 0 = ground (arith, e) in
        rw e (v, inl (ap (window q.array.capacity q.array.items q.top) none_left, refl))
    | inl e ↦
        let lt : q.top < q.bottom = ground (arith, e) in
        elim (Bool-cases (q.top == q.bottom - 1)) [
          | inl last ↦
              let one : q.top ≡ q.bottom - 1 = (==_iff q.top (q.bottom - 1)).0 last in
              rw (e, last)
                (
                  record {
                    positive = v.positive;
                    ordered = omega (arith, lt);
                    bounded = omega (arith, v.bounded);
                  },
                  inr (
                    load q.array (q.bottom - 1),
                    refl,
                    newest q lt
                        ∙ ap (λ xs. xs ++ (load q.array (q.bottom - 1) ∷ []))
                            (ap (window q.array.capacity q.array.items q.top) {y = 0}
                                (omega (arith, one))
                              ∙ ap (window q.array.capacity q.array.items (q.top + 1)) {x = 0}
                                  {y = q.bottom - (q.top + 1)} (omega (arith, one))),
                  ),
                )
          | inr more ↦
              rw (e, more)
                (
                  record {
                    positive = v.positive;
                    ordered = omega (arith, lt);
                    bounded = omega (arith, v.bounded);
                  },
                  inr (load q.array (q.bottom - 1), refl, newest q lt),
                )
        ]
  ]

  -- A thief takes the oldest element, from an empty deque none.
  pub steal_refines :
      (q : ChaseLevDeque A)
      → IsValid q
      → IsValid (steal q).1
        × (((contents q ≡ []) × (steal q ≡ (none, q)))
            ⊎ ((x : A) × ((steal q).0 ≡ some x) × (contents q ≡ x ∷ contents (steal q).1)))
  unfolding steal
  steal_refines q v = elim (Bool-cases (leb q.bottom q.top)) [
    | inl e ↦
        let none_left : q.bottom - q.top ≡ 0 = ground (arith, e) in
        rw e (v, inl (ap (window q.array.capacity q.array.items q.top) none_left, refl))
    | inr e ↦
        let some_left : q.top < q.bottom = ground (arith, e) in
        rw e (
          record {
            positive = v.positive;
            ordered = omega (arith, some_left);
            bounded = omega (arith, v.bounded);
          },
          inr (
            load q.array q.top,
            refl,
            window-pop q.array.capacity q.array.items q.top (q.bottom - q.top)
                  (λ z. absurd (omega (arith, z, some_left)))
                ∙ ap (λ n. load q.array q.top ∷ window q.array.capacity q.array.items (q.top + 1) n)
                    {y = q.bottom - (q.top + 1)} (omega arith),
          ),
        )
  ]
