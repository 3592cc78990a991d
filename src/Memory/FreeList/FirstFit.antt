-- ===== src/Memory/FreeList/FirstFit.antt =====
-- The central free list of memory_pool.cc gives the first node that is large enough.
use storage_engine.Prelude.{
  ℕ, ◌≤◌, ◌<◌, ◌≡◌, refl, ap, ◌⊎◌, inl, inr, Option, none, some, List, [], ◌∷◌, ◌++◌, leb, arith,
  All, Bool-cases,
}
use storage_engine.Memory.FreeList.{FreeNode, unlink, pop_central}

abbrev Small : ℕ → FreeNode → Type 0
Small min_size n = n.size < min_size

-- The node stands behind nodes that are too small; they and the ones behind it stay in order.
pub record FirstFit (min_size : ℕ) (drained head : List FreeNode)
    (res : Option FreeNode × List FreeNode) : Type 0 where
  pub before : List FreeNode
  pub node : FreeNode
  pub behind : List FreeNode
  pub chain : drained ≡ before ++ (node ∷ behind)
  pub too_small : All (Small min_size) before
  pub large_enough : min_size ≤ node.size
  pub given : res ≡ (some node, before ++ (behind ++ head))

-- Nothing is large enough.
pub record NoFit (min_size : ℕ) (drained head : List FreeNode)
    (res : Option FreeNode × List FreeNode) : Type 0 where
  pub too_small : All (Small min_size) drained
  pub given : res ≡ (none, drained ++ head)

-- The list gives the first node of at least `min_size` bytes and keeps the others in order, before
-- what was pushed meanwhile; or every node is smaller and all of them stay.
pub central-FirstFit :
    (min_size : ℕ) (drained head : List FreeNode)
    → FirstFit min_size drained head (pop_central min_size drained head)
      ⊎ NoFit min_size drained head (pop_central min_size drained head)
unfolding pop_central unlink
central-FirstFit min_size [] head = inr (record { too_small = tt; given = refl })
central-FirstFit min_size (n ∷ ns) head = elim (Bool-cases (leb min_size n.size)) [
  | inl e ↦ inl (record {
    before = [];
    node = n;
    behind = ns;
    chain = refl;
    too_small = tt;
    large_enough = ground (arith, e);
    given = rw e refl;
  })
  | inr e ↦ elim (central-FirstFit min_size ns head) [
    | inl f ↦ inl (record {
      before = n ∷ f.before;
      node = f.node;
      behind = f.behind;
      chain = ap (λ xs. n ∷ xs) f.chain;
      too_small = (ground (arith, e), f.too_small);
      large_enough = f.large_enough;
      given = rw e (ap (λ r. (r.0, n ∷ r.1)) f.given);
    })
    | inr f ↦ inr (record {
      too_small = (ground (arith, e), f.too_small);
      given = rw e (ap (λ r. (r.0, n ∷ r.1)) f.given);
    })
  ]
]
