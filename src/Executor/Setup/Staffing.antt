-- ===== src/Executor/Setup/Staffing.antt =====
-- The constructor of work_stealing_executor.cc creates as many workers as it should, in order.
use storage_engine.Prelude.{
  ℕ, zero, suc, ◌+◌, ◌*◌, ◌≤◌, ◌<◌, ◌≡◌, ◌≢◌, refl, sym, ap, ◌∙◌, inl, inr, Bool, not, List, [],
  ◌∷◌, ◌++◌, map, ◌==◌, length, arith, Bool-cases, word, lt→ltb,
}
use storage_engine.Prelude.Ranges.{range_from, length-range_from, range_from-append}
use storage_engine.Topology.{Hwloc, numa_count, phys_per_numa}
use storage_engine.Topology.Shares.{
  sum, accumulate-eq-sum, even_shares_fair, proportional_shares_total, length-phys_per_numa,
  phys_per_numa_pos,
}
use storage_engine.Executor.Setup.{
  ExecutorConfig, WorkerSeed, staffing, at_least_one, pus_of, node_workers, create_workers, workers,
}

abbrev pub ids : List WorkerSeed → List ℕ
ids = map (λ ws. ws.id)

length-ids : (xs : List WorkerSeed) → length (ids xs) ≡ length xs
length-ids [] = refl
length-ids (x ∷ xs) = ap suc (length-ids xs)

ids-append : (xs ys : List WorkerSeed) → ids (xs ++ ys) ≡ ids xs ++ ids ys
ids-append [] ys = refl
ids-append (x ∷ xs) ys = ap (λ t. x.id ∷ t) (ids-append xs ys)

ids-node_workers :
    (pin : Bool) (pus : List ℕ) (n total left w id : ℕ)
    → id + left ≤ total
    → ids (node_workers pin pus n total left w id) ≡ range_from id left
unfolding node_workers
ids-node_workers pin pus n total zero w id room = refl
ids-node_workers pin pus n total (suc left) w id room = rw (lt→ltb id total (omega (arith, room))) (
    ap (λ t. id ∷ t) (ids-node_workers pin pus n total left (w + 1) (id + 1) (omega (arith, room))))

ids-create_workers :
    (cfg : ExecutorConfig) (h : Hwloc) (total n id : ℕ) (per_numa : List ℕ)
    → id + sum per_numa ≤ total
    → ids (create_workers cfg h total n id per_numa) ≡ range_from id (sum per_numa)
unfolding create_workers
ids-create_workers cfg h total n id [] room = refl
ids-create_workers cfg h total n id (count ∷ per_numa) room =
    let here =
      node_workers cfg.pin_cpus (pus_of cfg.use_ht_siblings (h.node n)) n total count 0 id in
    let own : ids here ≡ range_from id count =
      ids-node_workers cfg.pin_cpus (pus_of cfg.use_ht_siblings (h.node n)) n total count 0 id
        (omega (arith, room)) in
    let many : length here ≡ count =
      sym (length-ids here) ∙ ap length own ∙ length-range_from id count in
    ids-append here (create_workers cfg h total (n + 1) (id + length here) per_numa)
    ∙ ap (λ t. t ++ ids (create_workers cfg h total (n + 1) (id + length here) per_numa)) own
    ∙ ap (λ t. range_from id count ++ t)
        (ids-create_workers cfg h total (n + 1) (id + length here) per_numa
          (omega (arith, room, many)))
    ∙ ap (λ k. range_from id count ++ range_from (id + k) (sum per_numa)) many
    ∙ range_from-append id count (sum per_numa)

numa_count_pos : (h : Hwloc) → 0 < numa_count h
unfolding numa_count
numa_count_pos h = ground arith

pub record Staffed (cfg : ExecutorConfig) (res : List ℕ × ℕ) : Type 0 where
  pub whole : sum res.0 ≡ res.1
  pub someone : 0 < res.1
  pub as_configured : cfg.num_workers ≢ 0 → res.1 ≡ cfg.num_workers

staffing-Staffed :
    (cfg : ExecutorConfig) (h : Hwloc)
    → cfg.num_workers < word
    → sum (phys_per_numa h 0 (numa_count h)) < word
    → cfg.num_workers * sum (phys_per_numa h 0 (numa_count h)) < word
    → Staffed cfg (staffing cfg h)
unfolding staffing
staffing-Staffed cfg h small phys_word product =
    let phys = phys_per_numa h 0 (numa_count h) in
    let cores : numa_count h ≤ sum phys = phys_per_numa_pos h 0 (numa_count h) in
    elim (Bool-cases (cfg.num_workers == 0)) [
      | inl auto ↦
          rw (staffing, auto)
            (record {
              whole = sym (accumulate-eq-sum phys phys_word);
              someone = omega (arith, accumulate-eq-sum phys phys_word, cores, numa_count_pos h);
              as_configured = λ ne. absurd (ne (ground (arith, auto)));
            })
      | inr given ↦ elim (Bool-cases (not cfg.numa_aware_stealing)) [
        | inl even ↦
            rw (staffing, given, even)
              (record {
                whole = (even_shares_fair cfg.num_workers (numa_count h) (numa_count_pos h)).0;
                someone = ground (arith, given);
                as_configured = λ ne. refl;
              })
        | inr aware ↦
            rw (staffing, given, aware)
              (record {
                whole =
                    proportional_shares_total cfg.num_workers phys
                      (omega (arith, length-phys_per_numa h 0 (numa_count h), numa_count_pos h))
                      (omega (arith, cores, numa_count_pos h)) phys_word product small;
                someone = ground (arith, given);
                as_configured = λ ne. refl;
              })
      ]
    ]

-- The workers are numbered from 0 in the order of their places in the vector; there is one at least,
-- and as many as the configuration says, if it says a number; provided that the products of the
-- constructor fit a size_t.
pub workers_numbered :
    (cfg : ExecutorConfig) (h : Hwloc)
    → cfg.num_workers < word
    → sum (phys_per_numa h 0 (numa_count h)) < word
    → cfg.num_workers * sum (phys_per_numa h 0 (numa_count h)) < word
    → (ids (workers cfg h) ≡ range_from 0 (length (workers cfg h)))
      × (0 < length (workers cfg h))
      × (cfg.num_workers ≢ 0 → length (workers cfg h) ≡ cfg.num_workers)
unfolding workers
workers_numbered cfg h small phys_word product =
    let s = staffing-Staffed cfg h small phys_word product in
    let kept : at_least_one (staffing cfg h) ≡ staffing cfg h = ground (arith, s.someone) in
    let plain : workers cfg h ≡ create_workers cfg h (staffing cfg h).1 0 0 (staffing cfg h).0 =
      ap (λ t. create_workers cfg h t.1 0 0 t.0) kept in
    let numbers : ids (create_workers cfg h (staffing cfg h).1 0 0 (staffing cfg h).0)
        ≡ range_from 0 (sum (staffing cfg h).0) =
      ids-create_workers cfg h (staffing cfg h).1 0 0 (staffing cfg h).0 (omega (arith, s.whole)) in
    let named : ids (workers cfg h) ≡ range_from 0 (sum (staffing cfg h).0) =
      ap ids plain ∙ numbers in
    let many : length (workers cfg h) ≡ (staffing cfg h).1 =
      sym (length-ids (workers cfg h))
      ∙ ap length named
      ∙ length-range_from 0 (sum (staffing cfg h).0)
      ∙ s.whole in
    (
      named ∙ ap (range_from 0) (s.whole ∙ sym many),
      omega (arith, many, s.someone),
      λ ne. many ∙ s.as_configured ne,
    )
