-- ===== src/Memory/Pool/Given.antt =====
-- allocate() of memory_pool.cc on small objects: the account after a popped or a new piece.
use mathlib.Core.Path.{subst}
use storage_engine.Prelude.{
  ℕ, ◌<◌, ◌≡◌, sym, ap, ◌∙◌, inl, inr, List, [], ◌∷◌, arith, All, update, Bool-cases, ◌==◌, ==_iff,
}
use storage_engine.Memory.SizeClass.{class_size}
use storage_engine.Memory.ReturnRing.Refine.{contents, Low, ring_enqueue}
use storage_engine.Memory.ReturnRing.Refine as Ring
use storage_engine.Memory.FreeList.{FreeList}
use storage_engine.Memory.State.{Pool}
use storage_engine.Memory.Blocks.Pieces as Pieces
use storage_engine.Memory.Pool.{hit}
use storage_engine.Memory.Pool.Slots.{Slot, copies, Placed}
use storage_engine.Memory.Pool.Ownership.{Owned}

module _ (block_at object_at : ℕ → ℕ) where
  -- The object is held by the program now, and the account stays right.
  pub record Given (live : ℕ → List ℕ) (c : ℕ) (res : ℕ × Pool) : Type 0 where
    pub slots' : List Slot
    pub owned : Owned block_at object_at res.1 (update live c (res.0 ∷ live c)) slots'

  All-map :
      {P Q : Slot → Type 0}
      → ((s : Slot) → P s → Q s)
      → (slots : List Slot) → All P slots
      → All Q slots
  All-map f [] all = tt
  All-map f (s ∷ slots) (here, all) = (f s here, All-map f slots all)

  Before-trans :
      {k o k' o' k'' o'' : ℕ}
      → Pieces.Before block_at k o k' o'
      → Pieces.Before block_at k' o' k'' o''
      → Pieces.Before block_at k o k'' o''
  Before-trans (inl a) (inl b) = inl (omega (arith, a, b))
  Before-trans (inl a) (inr (e, b)) = inl (omega (arith, a, e))
  Before-trans (inr (e, a)) (inl b) = inl (omega (arith, e, b))
  Before-trans (inr (e, a)) (inr (f, b)) = inr (e ∙ f, omega (arith, a, b))

  pub popped-Given :
      (c ptr : ℕ) (rest : FreeList) (pool : Pool) (live : ℕ → List ℕ) (slots : List Slot)
      → Owned block_at object_at pool live slots
      → (pool.small_free_lists c).nodes ≡ ptr ∷ rest.nodes
      → Given live c (
        ptr,
        hit block_at object_at
            (record pool { small_free_lists = update pool.small_free_lists c rest }),
      )
  popped-Given c ptr rest pool live slots o head = record {
    slots' = slots;
    owned = record {
      blocks = record {
        current = o.blocks.current;
        here = o.blocks.here;
        all = o.blocks.all;
        inside = o.blocks.inside;
      };
      rings = o.rings;
      unused_cache = o.unused_cache;
      placed = o.placed;
      ordered = o.ordered;
      held_once = λ d p. elim (Bool-cases (c == d)) [
        | inl e ↦
            let q : c ≡ d = (==_iff c d).0 e in
            rw e (
              omega (
                arith,
                o.held_once d p,
                ap (copies p) head,
                ap (λ k. copies p (live k)) q,
                ap (λ k. copies p (pool.small_free_lists k).nodes) q,
              ))
        | inr e ↦ rw e (o.held_once d p)
      ];
    };
  }

  -- A new piece is behind the others.
  pub Cut-Given :
      (c alignment : ℕ) (pool : Pool) (live : ℕ → List ℕ) (slots : List Slot) (res : ℕ × Pool)
      → Owned block_at object_at pool live slots
      → 0 < class_size c
      → Pieces.Cut block_at pool (class_size c) alignment res
      → Given live c res
  Cut-Given c alignment pool live slots res o pos cut = record {
    slots' = piece ∷ slots;
    owned = record {
      blocks = cut.valid;
      rings = λ d. subst (λ r. Ring.IsValid (r d)) (sym cut.rings) (o.rings d);
      unused_cache = λ thread d. ap (λ f. (f thread d).nodes) cut.caches ∙ o.unused_cache thread d;
      placed = (
        record {
          there = cut.addr;
          wide = cut.wide;
          some_bytes = pos;
          inside = cut.fits;
          cut = inr (sym cut.idx', omega (arith, cut.offset'));
        },
        All-map (λ s ps. further s ps) slots o.placed,
      );
      ordered = (All-map (λ s ps. Before-trans ps.cut cut.behind) slots o.placed, o.ordered);
      held_once = λ d p.
          let rings : copies p (contents (res.1.return_rings d))
              ≡ copies p (contents (pool.return_rings d)) =
            ap (λ r. copies p (contents (r d))) cut.rings in
          let lists : copies p (res.1.small_free_lists d).nodes
              ≡ copies p (pool.small_free_lists d).nodes =
            ap (λ r. copies p (r d).nodes) cut.lists in
          elim (Bool-cases (c == d)) [
            | inl e ↦
                let q : c ≡ d = (==_iff c d).0 e in
                rw e (omega (arith, o.held_once d p, rings, lists, ap (λ k. copies p (live k)) q))
            | inr e ↦ rw e (omega (arith, o.held_once d p, rings, lists))
          ];
    };
  }
    where
      piece : Slot
      piece = record {
        class = c;
        block = cut.block;
        offset = cut.offset;
        width = cut.width;
        addr = res.0;
      }

      reached :
          Pieces.Before block_at pool.bump_block_idx pool.bump_offset res.1.bump_block_idx
            res.1.bump_offset
      reached = Before-trans cut.behind (inr (sym cut.idx', omega (arith, cut.offset')))

      further :
          (s : Slot)
          → Placed block_at pool.bump_block_idx pool.bump_offset s
          → Placed block_at res.1.bump_block_idx res.1.bump_offset s
      further s ps = record {
        there = ps.there;
        wide = ps.wide;
        some_bytes = ps.some_bytes;
        inside = ps.inside;
        cut = Before-trans ps.cut reached;
      }
