-- ===== src/Memory/FreeList.antt =====
-- The free lists of src/runtime/memory_pool.cc: the one of a size class and of a thread, and the
-- central one with the sizes of its nodes, each operation run without another in between.
pub mod FirstFit
use storage_engine.Prelude.{
  ℕ, ◌+◌, ◌-◌, Option, none, some, List, [], ◌∷◌, ◌++◌, leb, if◌then◌else◌, add_word, sub_word,
}

-- SizeClassFreeList and LocalFreeList: the chain of nodes and its count.
pub record FreeList : Type 0 where
  pub nodes : List ℕ
  pub count : ℕ

abbrev pub empty_list : FreeList
empty_list = record { nodes = []; count = 0 }

abbrev pub push : ℕ → FreeList → FreeList
push ptr l = record { nodes = ptr ∷ l.nodes; count = add_word l.count 1 }

unfoldable pub pop : FreeList → Option ℕ × FreeList
pop l = elim l.nodes [
  | [] ↦ (none, l)
  | ptr ∷ next ↦ (some ptr, record { nodes = next; count = sub_word l.count 1 })
]

-- A node of CentralFreeList: its address and the size written into it.
pub record FreeNode : Type 0 where
  pub addr : ℕ
  pub size : ℕ

abbrev pub push_central : ℕ → ℕ → List FreeNode → List FreeNode
push_central ptr size head = record { addr = ptr; size = size } ∷ head

-- The walk: the first node that is large enough is unlinked, the others stay in order.
unfoldable pub unlink : ℕ → List FreeNode → Option FreeNode × List FreeNode
unlink min_size [] = (none, [])
unlink min_size (curr ∷ next) =
    let (found, chain) = unlink min_size next in
    if leb min_size curr.size then (some curr, next) else (found, curr ∷ chain)

-- `head` is what other threads pushed while the chain was drained.
unfoldable pub pop_central : ℕ → List FreeNode → List FreeNode → Option FreeNode × List FreeNode
pop_central min_size drained head =
    let (found, chain) = unlink min_size drained in (found, chain ++ head)
