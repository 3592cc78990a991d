-- ===== src/Online/Group/Layout.antt =====
-- The workers that the constructor of online_group.cc makes, and what the routing of a group names.
use mathlib.Core.Path.{subst}
use native.Mathlib.Nat.{mod-lt}
use storage_engine.Prelude.{
  ℕ, zero, suc, ◌+◌, ◌%◌, ◌<◌, ◌≡◌, refl, sym, ap, ◌∙◌, ◌⊎◌, inl, inr, true, false, not, ◌&&◌, ◌||◌,
  Option, none, some, List, [], ◌∷◌, ◌++◌, length, length-append, leb, ltb, ◌==◌, ==_iff,
  if◌then◌else◌, get_elem?, size_max, arith, Option-cases, Bool-cases,
}
use storage_engine.Prelude.Ranges.{range_from, range_from-append}
use storage_engine.Topology.{Hwloc, usable_pus}
use storage_engine.Online.Group.{
  GroupConfig, GroupWorker, OnlineWorkerGroup, workers_per_numa, node_workers, addresses, ranked,
  create_workers, discover_topology, legacy_workers, make_group, route_by_hash, find_rank, rank,
}

abbrev pub flatten : List (List ℕ) → List ℕ
flatten [] = []
flatten (xs ∷ xss) = xs ++ flatten xss

record Layout (gid : ℕ) (g : OnlineWorkerGroup) : Type 0 where
  numbered : addresses g.workers ≡ range_from gid (length g.workers)
  ranks : g.worker_ranks ≡ ranked gid g.workers
  lists : flatten g.numa_worker_lists ≡ addresses g.workers

addresses-append : (xs ys : List GroupWorker) → addresses (xs ++ ys) ≡ addresses xs ++ addresses ys
addresses-append [] ys = refl
addresses-append (x ∷ xs) ys = ap (λ t. x.address ∷ t) (addresses-append xs ys)

ranked-append :
    (gid : ℕ) (xs ys : List GroupWorker)
    → ranked gid (xs ++ ys) ≡ ranked gid xs ++ ranked (gid + length xs) ys
ranked-append gid [] ys = ap (λ k. ranked k ys) (omega arith)
ranked-append gid (x ∷ xs) ys =
    ap (λ t. (x.address, gid) ∷ t) (ranked-append (gid + 1) xs ys)
    ∙ ap (λ k. (x.address, gid) ∷ (ranked (gid + 1) xs ++ ranked k ys)) {x = gid + 1 + length xs}
        (omega arith)

node_workers_row :
    (cfg : GroupConfig) (pus : List ℕ) (n left w gid : ℕ)
    → (addresses (node_workers cfg pus n left w gid) ≡ range_from gid left)
      × (length (node_workers cfg pus n left w gid) ≡ left)
unfolding node_workers
node_workers_row cfg pus n zero w gid = (refl, refl)
node_workers_row cfg pus n (suc left) w gid =
    let (a, l) = node_workers_row cfg pus n left (w + 1) (gid + 1) in
    (ap (λ t. gid ∷ t) a, ap suc l)

-- A node's workers in front of those of the later nodes.
abbrev joined : ℕ → List GroupWorker → OnlineWorkerGroup → OnlineWorkerGroup
joined gid here g = record {
  workers = here ++ g.workers;
  numa_worker_lists = addresses here ∷ g.numa_worker_lists;
  numa_worker_ranges = gid ∷ g.numa_worker_ranges;
  worker_ranks = ranked gid here ++ g.worker_ranks;
}

joined-Layout :
    (gid : ℕ) (here : List GroupWorker) (g : OnlineWorkerGroup)
    → addresses here ≡ range_from gid (length here)
    → Layout (gid + length here) g
    → Layout gid (joined gid here g)
joined-Layout gid here g own l = record {
  numbered =
      addresses-append here g.workers
      ∙ ap (λ xs. xs ++ addresses g.workers) own
      ∙ ap (λ xs. range_from gid (length here) ++ xs) l.numbered
      ∙ range_from-append gid (length here) (length g.workers)
      ∙ ap (range_from gid) (sym (length-append here g.workers));
  ranks = ap (λ xs. ranked gid here ++ xs) l.ranks ∙ sym (ranked-append gid here g.workers);
  lists = ap (λ xs. addresses here ++ xs) l.lists ∙ sym (addresses-append here g.workers);
}

some_eq : (a b : OnlineWorkerGroup) → ◌≡◌ {A = Option OnlineWorkerGroup} (some a) (some b) → a ≡ b
some_eq a b e = cc (e)

create_workers-Layout :
    (cfg : GroupConfig) (h : Hwloc) (n gid : ℕ) (per_numa : List ℕ) (g : OnlineWorkerGroup)
    → create_workers cfg h n gid per_numa ≡ some g
    → Layout gid g
unfolding create_workers
create_workers-Layout cfg h n gid [] g e =
    subst (Layout gid)
      (some_eq
        (record {
          workers = [];
          numa_worker_lists = [];
          numa_worker_ranges = [];
          worker_ranks = [];
        })
        g e)
      (record { numbered = refl; ranks = refl; lists = refl })
create_workers-Layout cfg h n gid (count ∷ per_numa) g e = elim (Option-cases (h.node n)) [
  | inl absent ↦ absurd (ground (arith, e, absent))
  | inr (pus, there) ↦ elim (Option-cases (create_workers cfg h (n + 1) (gid + count) per_numa)) [
    | inl stuck ↦ absurd (ground (arith, e, there, stuck))
    | inr (rest, made) ↦
        let here = node_workers cfg (usable_pus cfg.use_ht_siblings pus) n count 0 gid in
        let (own, many) = node_workers_row cfg (usable_pus cfg.use_ht_siblings pus) n count 0 gid in
        let later = create_workers-Layout cfg h (n + 1) (gid + count) per_numa rest made in
        let both : create_workers cfg h n gid (count ∷ per_numa) ≡ some (joined gid here rest) =
          rw (create_workers, there, made) refl in
        subst (Layout gid) (some_eq (joined gid here rest) g (sym both ∙ e)) (
          joined-Layout gid here rest (own ∙ ap (range_from gid) (sym many))
            (subst (λ k. Layout (gid + k) rest) (sym many) later))
  ]
]

legacy_row :
    (cfg : GroupConfig) (i left : ℕ)
    → (addresses (legacy_workers cfg i left) ≡ range_from i left)
      × (length (legacy_workers cfg i left) ≡ left)
unfolding legacy_workers
legacy_row cfg i zero = (refl, refl)
legacy_row cfg i (suc left) =
    let (a, l) = legacy_row cfg (i + 1) left in (ap (λ t. i ∷ t) a, ap suc l)

find_rank_row :
    (w gid : ℕ) (workers : List GroupWorker)
    → addresses workers ≡ range_from gid (length workers)
    → find_rank w (ranked gid workers)
      ≡ (if leb gid w && ltb w (gid + length workers) then some w else none)
unfolding find_rank
find_rank_row w gid [] e = ground arith
find_rank_row w gid (x ∷ workers) e =
    let own : x.address ≡ gid = cc (e) in
    let later : addresses workers ≡ range_from (gid + 1) (length workers) = cc (e) in
    elim (Bool-cases (x.address == w)) [
      | inl same ↦
          let here : gid ≡ w = sym own ∙ (==_iff x.address w).0 same in
          let inside : (leb gid w && ltb w (gid + suc (length workers))) ≡ true =
            ground (arith, here) in
          rw (same, inside) (ap some here)
      | inr other ↦
          let apart : (leb (gid + 1) w && ltb w (gid + 1 + length workers))
              ≡ (leb gid w && ltb w (gid + suc (length workers))) =
            ground (arith, other, own) in
          rw other
            (find_rank_row w (gid + 1) workers later ∙ ap (λ b. if b then some w else none) apart)
    ]

get_elem?-range_from : (gid n k : ℕ) → k < n → get_elem? (range_from gid n) k ≡ some (gid + k)
get_elem?-range_from gid zero k lt = absurd (omega (arith, lt))
get_elem?-range_from gid (suc n) zero lt = ap some {x = gid} (omega arith)
get_elem?-range_from gid (suc n) (suc k) lt =
    get_elem?-range_from (gid + 1) n k (omega (arith, lt)) ∙ ap some {x = gid + 1 + k} (omega arith)

discovered-Layout :
    (cfg : GroupConfig) (h : Hwloc) (g : OnlineWorkerGroup)
    → discover_topology cfg h ≡ some g
    → Layout 0 g
unfolding discover_topology
discovered-Layout cfg h g e = elim (Option-cases (workers_per_numa cfg h)) [
  | inl stuck ↦ absurd (ground (arith, e, stuck))
  | inr (per_numa, counted) ↦
      create_workers-Layout cfg h 0 0 per_numa g (sym (rw (discover_topology, counted) refl) ∙ e)
]

-- The workers' addresses are the numbers in order, a worker's rank is its place, no other worker has
-- one, and the route of a key is the place of a worker.
pub record Ranked (g : OnlineWorkerGroup) : Type 0 where
  pub numbered : addresses g.workers ≡ range_from 0 (length g.workers)
  pub ranks : (w : ℕ) → rank g w ≡ (if ltb w (length g.workers) then w else size_max)
  pub routed :
      (key : ℕ)
      → 0 < length g.workers
      → get_elem? (addresses g.workers) (route_by_hash g key) ≡ some (route_by_hash g key)

to_Ranked :
    (g : OnlineWorkerGroup)
    → addresses g.workers ≡ range_from 0 (length g.workers)
    → g.worker_ranks ≡ ranked 0 g.workers
    → Ranked g
unfolding rank route_by_hash
to_Ranked g row ranks = record {
  numbered = row;
  ranks = λ w. rw (rank, ranks, find_rank_row w 0 g.workers row) (ground arith);
  routed = λ key some_worker.
      let counted : (length g.workers == 0) ≡ false = ground (arith, some_worker) in
      rw (route_by_hash, counted, row)
        (get_elem?-range_from 0 (length g.workers) (key % length g.workers) (mod-lt key some_worker)
          ∙ ap some {x = 0 + key % length g.workers} (omega arith));
}

-- In a group that its constructor has made, the workers are numbered in order, a worker's rank is its
-- place, a key is routed to a place that holds a worker, and the lists of the nodes, one behind the
-- other, are the workers, if the nodes were looked at.
pub group_made-Ranked :
    (cfg : GroupConfig) (h : Hwloc) (g : OnlineWorkerGroup)
    → make_group cfg h ≡ some g
    → Ranked g × ((flatten g.numa_worker_lists ≡ addresses g.workers) ⊎ (g.numa_worker_lists ≡ []))
unfolding make_group
group_made-Ranked cfg h g e =
    elim (Bool-cases (cfg.auto_discover_numa || not (length cfg.per_numa_workers == 0))) [
      | inl looked ↦
          let l = discovered-Layout cfg h g (sym (rw (make_group, looked) refl) ∙ e) in
          (to_Ranked g l.numbered l.ranks, inl l.lists)
      | inr plain ↦
          let legacy : OnlineWorkerGroup = record {
            workers = legacy_workers cfg 0 cfg.num_workers;
            numa_worker_lists = [];
            numa_worker_ranges = [];
            worker_ranks = ranked 0 (legacy_workers cfg 0 cfg.num_workers);
          } in
          let same : legacy ≡ g = some_eq legacy g (sym (rw (make_group, plain) refl) ∙ e) in
          let (row, many) = legacy_row cfg 0 cfg.num_workers in
          subst
            (λ g.
              Ranked g
              × ((flatten g.numa_worker_lists ≡ addresses g.workers) ⊎ (g.numa_worker_lists ≡ [])))
            same (to_Ranked legacy (row ∙ ap (range_from 0) (sym many)) refl, inr refl)
    ]
