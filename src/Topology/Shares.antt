-- ===== src/Topology/Shares.antt =====
-- The shares of the NUMA nodes add up to the number of workers.
use native.Mathlib.Nat.{
  div-add-mod, mod-lt, mod-eq_of_lt, le_of_mul-le-mul_right, mul-le-mul_left, div-mul-le_self,
  add-mul, mul-add,
}
use mathlib.Core.Path.{subst}
use storage_engine.Prelude.{
  ℕ, zero, suc, ◌+◌, ◌-◌, ◌*◌, ◌/◌, ◌%◌, ◌≤◌, ◌<◌, ◌≡◌, refl, sym, ap, ◌∙◌, inl, inr, List, [], ◌∷◌,
  arith, length, All, add_word, word, Bool-cases, Option-cases, ◌==◌, min,
}
use storage_engine.Topology.{
  even_shares, proportional_shares, accumulate, phys_per_numa, Hwloc, phys_at, phys_cores,
}

abbrev pub sum : List ℕ → ℕ
sum [] = 0
sum (x ∷ xs) = x + sum xs

pub accumulate-eq-sum : (xs : List ℕ) → sum xs < word → accumulate xs ≡ sum xs
unfolding accumulate
accumulate-eq-sum [] small = refl
accumulate-eq-sum (x ∷ xs) small =
    let rest = accumulate-eq-sum xs (omega (arith, small)) in rw rest (mod-eq_of_lt small)

-- The first `rem` nodes have one more.
even_sum :
    (base rem n left : ℕ) → sum (even_shares base rem n left) ≡ left * base + min left (rem - n)
unfolding even_shares
even_sum base rem n zero = omega arith
even_sum base rem n (suc left) = grind (arith, even_sum base rem (n + 1) left)

even_level :
    (base rem n left : ℕ)
    → All (λ share. (base ≤ share) × (share ≤ base + 1)) (even_shares base rem n left)
unfolding even_shares
even_level base rem n zero = tt
even_level base rem n (suc left) = (ground arith, even_level base rem (n + 1) left)

-- The even shares add up to the total, and differ by at most one.
pub even_shares_fair :
    (total count : ℕ)
    → 0 < count
    → let shares = even_shares (total / count) (total % count) 0 count in
      (sum shares ≡ total)
      × All (λ share. (total / count ≤ share) × (share ≤ total / count + 1)) shares
even_shares_fair total count pos = (
  even_sum (total / count) (total % count) 0 count
      ∙ ap (λ k. count * (total / count) + k) {y = total % count} (omega (arith, mod-lt total pos))
      ∙ div-add-mod total count,
  even_level (total / count) (total % count) 0 count,
)

bounded :
    (total total_phys sofar given : ℕ)
    → 0 < total_phys
    → sofar ≤ total_phys
    → given * total_phys ≤ total * sofar
    → given ≤ total
bounded total total_phys sofar given pos le part =
    le_of_mul-le-mul_right {m = given} {n = total} {k = total_phys}
      (omega (arith, part, mul-le-mul_left total le)) pos

-- What has been given out is at most its part of the total.
proportional_sum :
    (total total_phys sofar allocated : ℕ) (phys : List ℕ)
    → 0 < length phys
    → 0 < total_phys
    → sofar + sum phys ≡ total_phys
    → allocated * total_phys ≤ total * sofar
    → total * total_phys < word
    → total < word
    → allocated + sum (proportional_shares total total_phys allocated phys) ≡ total
unfolding proportional_shares
proportional_sum total total_phys sofar allocated [] some_node pos whole part small word_sized =
    absurd (omega (arith, some_node))
proportional_sum total total_phys sofar allocated (phys ∷ []) some_node pos whole part small
      word_sized =
    let le : allocated ≤ total =
      bounded total total_phys sofar allocated pos (omega (arith, whole)) part in
    omega (arith, le, word_sized)
proportional_sum total total_phys sofar allocated (phys ∷ next ∷ rest) some_node pos whole part
      small word_sized =
    let fits : total * phys < word =
      omega
        (arith, small, mul-le-mul_left {m = phys} {n = total_phys} total (omega (arith, whole))) in
    let share = total * phys % word / total_phys in
    let exact : share ≡ total * phys / total_phys = ap (λ t. t / total_phys) (mod-eq_of_lt fits) in
    let floor : share * total_phys ≤ total * phys =
      omega (arith, ap (λ t. t * total_phys) exact, div-mul-le_self (total * phys) total_phys) in
    let part' : (allocated + share) * total_phys ≤ total * (sofar + phys) =
      omega (arith, part, floor, add-mul allocated share total_phys, mul-add total sofar phys) in
    let le : allocated + share ≤ total =
      bounded total total_phys (sofar + phys) (allocated + share) pos (omega (arith, whole))
        part' in
    let sum_word : add_word allocated share ≡ allocated + share = omega (arith, le, word_sized) in
    let rest =
      proportional_sum total total_phys (sofar + phys) (add_word allocated share) (next ∷ rest)
        (omega arith) pos (omega (arith, whole))
        (subst (λ t. t * total_phys ≤ total * (sofar + phys)) (sym sum_word) part') small
        word_sized in
    omega (arith, rest, sum_word)

-- The proportional shares add up to the total, as long as the products fit a size_t.
pub proportional_shares_total :
    (total : ℕ) (phys : List ℕ)
    → 0 < length phys
    → 0 < sum phys
    → sum phys < word
    → total * sum phys < word
    → total < word
    → sum (proportional_shares total (accumulate phys) 0 phys) ≡ total
proportional_shares_total total phys some_node pos phys_word small word_sized =
    rw (accumulate-eq-sum phys phys_word) (
      let all =
        proportional_sum total (sum phys) 0 0 phys some_node pos (omega arith) (omega arith) small
          word_sized in
      omega (arith, all))

phys_at_pos : (h : Hwloc) (n : ℕ) → 0 < phys_at h n
unfolding phys_at
phys_at_pos h n = elim (Option-cases (h.node n)) [
  | inl e ↦ rw (phys_at, e) (omega arith)
  | inr (pus, e) ↦ elim (Bool-cases (phys_cores pus == 0)) [
    | inl q ↦ rw (phys_at, e, q) (omega arith)
    | inr q ↦ rw (phys_at, e, q) (ground (arith, q))
  ]
]

pub length-phys_per_numa : (h : Hwloc) (n left : ℕ) → length (phys_per_numa h n left) ≡ left
unfolding phys_per_numa
length-phys_per_numa h n zero = refl
length-phys_per_numa h n (suc left) = ap suc (length-phys_per_numa h (n + 1) left)

-- Every node is taken to have a core.
pub phys_per_numa_pos : (h : Hwloc) (n left : ℕ) → left ≤ sum (phys_per_numa h n left)
unfolding phys_per_numa
phys_per_numa_pos h n zero = omega arith
phys_per_numa_pos h n (suc left) = omega (arith, phys_at_pos h n, phys_per_numa_pos h (n + 1) left)
