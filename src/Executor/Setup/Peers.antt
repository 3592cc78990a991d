-- ===== src/Executor/Setup/Peers.antt =====
-- Whom a worker of work_stealing_executor.cc may steal from.
use storage_engine.Prelude.{
  ℕ, zero, suc, ◌+◌, ◌<◌, ◌≡◌, refl, inl, inr, Bool, true, false, not, ◌&&◌, ◌||◌, List, [], ◌∷◌,
  ◌==◌, ltb, length, arith, Bool-cases,
}
use storage_engine.Executor.Setup.{WorkerSeed, peers_from, numa_peers}

abbrev pub holds : ℕ → List ℕ → Bool
holds x [] = false
holds x (y ∷ ys) = y == x || holds x ys

abbrev pub node_at : List WorkerSeed → ℕ → ℕ
node_at [] i = 0
node_at (ws ∷ rest) zero = ws.numa_node
node_at (ws ∷ rest) (suc i) = node_at rest i

module _ (numa_aware : Bool) (i node : ℕ) where
  abbrev chosen : ℕ → WorkerSeed → Bool
  chosen j ws = not (i == j) && (not numa_aware || node == ws.numa_node)

  none_before :
      (j k : ℕ) (all : List WorkerSeed)
      → k < j
      → holds k (peers_from numa_aware i node j all) ≡ false
  unfolding peers_from
  none_before j k [] lt = refl
  none_before j k (ws ∷ rest) lt =
      let on = none_before (j + 1) k rest (omega (arith, lt)) in
      let differ : (j == k) ≡ false = ground (arith, lt) in
      elim (Bool-cases (chosen j ws)) [
        | inl e ↦ rw (peers_from, e, differ) on
        | inr e ↦ rw (peers_from, e) on
      ]

  peers_from_lem :
      (j n k : ℕ) (all : List WorkerSeed)
      → k ≡ j + n
      → holds k (peers_from numa_aware i node j all)
        ≡ (ltb n (length all) && (not (i == k) && (not numa_aware || node == node_at all n)))
  unfolding peers_from
  peers_from_lem j n k [] e = ground arith
  peers_from_lem j zero k (ws ∷ rest) e =
      let same : k ≡ j = omega (arith, e) in
      let on = none_before (j + 1) j rest (omega arith) in
      let self : (j == j) ≡ true = ground arith in
      let some_left : ltb 0 (suc (length rest)) ≡ true = ground arith in
      rw same (elim (Bool-cases (chosen j ws)) [
        | inl c ↦ rw (peers_from, c, self, some_left) refl
        | inr c ↦ rw (peers_from, c, some_left) on
      ])
  peers_from_lem j (suc n) k (ws ∷ rest) e =
      let on = peers_from_lem (j + 1) n k rest (omega (arith, e)) in
      let differ : (j == k) ≡ false = ground (arith, e) in
      let shift : ltb (suc n) (suc (length rest)) ≡ ltb n (length rest) = ground arith in
      elim (Bool-cases (chosen j ws)) [
        | inl c ↦ rw (peers_from, c, differ, shift) on
        | inr c ↦ rw (peers_from, c, shift) on
      ]

-- A worker may steal from the workers other than itself, with NUMA-aware stealing only from those of
-- its node.
pub peer_iff :
    (numa_aware : Bool) (i k : ℕ) (ws : WorkerSeed) (all : List WorkerSeed)
    → holds k (numa_peers numa_aware i ws all)
      ≡ (ltb k (length all) && (not (i == k) && (not numa_aware || ws.numa_node == node_at all k)))
unfolding numa_peers
peer_iff numa_aware i k ws all = peers_from_lem numa_aware i ws.numa_node 0 k k all (omega arith)
