-- ===== src/Timer/Expiry.antt =====
-- What `expire` of timer.h gives: the due nodes, in order of their deadlines.
use mathlib.Core.List.Perm
use mathlib.Core.List.{Perm}
use storage_engine.Prelude.{
  ℕ, zero, suc, ◌≤◌, ◌<◌, ◌≡◌, refl, ap, ◌⊎◌, inl, inr, true, false, none, some, List, [], ◌∷◌,
  ◌++◌, arith, ltb, leb, length, All, Bool-cases,
}
use storage_engine.Timer.{TimerNode, pop_top, expire_loop, expire, next_deadline}

-- No node is due before the first.
abbrev pub Due : ℕ → List TimerNode → Type 0
Due d nodes = All (λ n. d ≤ n.deadline) nodes

abbrev pub InOrder : List TimerNode → Type 0
InOrder [] = Unit
InOrder (n ∷ nodes) = Due n.deadline nodes × InOrder nodes

pub Due-le : (d d' : ℕ) (nodes : List TimerNode) → d ≤ d' → Due d' nodes → Due d nodes
Due-le d d' [] le due = tt
Due-le d d' (n ∷ nodes) le (here, due) = (omega (arith, le, here), Due-le d d' nodes le due)

pub record Top (nodes : List TimerNode) (top : TimerNode) (rest : List TimerNode) : Type 0 where
  pub same : Perm nodes (top ∷ rest)
  pub first : Due top.deadline rest
  pub counted : length nodes ≡ suc (length rest)
  pub splits : (d : ℕ) → Due d nodes → Due d (top ∷ rest)
  pub joins : (d : ℕ) → Due d (top ∷ rest) → Due d nodes

pub pop_top-Top :
    (nodes : List TimerNode)
    → ((nodes ≡ []) × (pop_top nodes ≡ none))
      ⊎ ((top : TimerNode) × (rest : List TimerNode) × (pop_top nodes ≡ some (top, rest))
          × Top nodes top rest)
unfolding pop_top
pop_top-Top [] = inl (refl, refl)
pop_top-Top (n ∷ nodes) = elim (pop_top-Top nodes) [
  | inl (e, q) ↦ inr (n, [], rw q refl, alone e)
  | inr (top, rest, q, t) ↦ elim (Bool-cases (ltb n.deadline top.deadline)) [
    | inl before ↦ inr (n, nodes, rw (q, before) refl, at_front top rest t before)
    | inr later ↦ inr (top, n ∷ rest, rw (q, later) refl, behind top rest t later)
  ]
]
  where
    alone : nodes ≡ [] → Top (n ∷ nodes) n []
    alone e = record {
      same = rw e (Perm.refl (n ∷ []));
      first = tt;
      counted = rw e refl;
      splits = λ d due. (due.0, tt);
      joins = λ d due. rw e (due.0, tt);
    }

    at_front :
        (top : TimerNode) (rest : List TimerNode)
        → Top nodes top rest
        → ltb n.deadline top.deadline ≡ true
        → Top (n ∷ nodes) n nodes
    at_front top rest t before =
        let le : n.deadline ≤ top.deadline = ground (arith, before) in
        record {
          same = Perm.refl (n ∷ nodes);
          first = t.joins n.deadline (le, Due-le n.deadline top.deadline rest le t.first);
          counted = refl;
          splits = λ d due. due;
          joins = λ d due. due;
        }

    behind :
        (top : TimerNode) (rest : List TimerNode)
        → Top nodes top rest
        → ltb n.deadline top.deadline ≡ false
        → Top (n ∷ nodes) top (n ∷ rest)
    behind top rest t later = record {
      same = Perm.trans (Perm.cons n t.same) (Perm.swap top n rest);
      first = (ground (arith, later), t.first);
      counted = ap suc t.counted;
      splits = λ d due. let q = t.splits d due.1 in (q.0, (due.0, q.1));
      joins = λ d due. (due.1.0, t.joins d (due.0, due.1.1));
    }

-- The next deadline is before no node's.
pub next_deadline-Due : (nodes : List TimerNode) → Due (next_deadline nodes) nodes
unfolding next_deadline
next_deadline-Due nodes = elim (pop_top-Top nodes) [
  | inl (e, q) ↦ rw (next_deadline, e) tt
  | inr (top, rest, q, t) ↦ rw (next_deadline, q) (t.joins top.deadline (omega arith, t.first))
]

pub record Expired (now : ℕ) (pending out left : List TimerNode) : Type 0 where
  pub same : Perm pending (out ++ left)
  pub ordered : InOrder out
  pub due : All (λ n. n.deadline ≤ now) out
  pub later : All (λ n. now < n.deadline) left
  pub splits : (d : ℕ) → Due d pending → Due d out
  pub keeps : (d : ℕ) → Due d pending → Due d left

All-later :
    (now d : ℕ) (nodes : List TimerNode) → now < d → Due d nodes → All (λ n. now < n.deadline) nodes
All-later now d [] lt due = tt
All-later now d (n ∷ nodes) lt (here, due) = (omega (arith, lt, here), All-later now d nodes lt due)

none_due :
    (now : ℕ) (pending : List TimerNode)
    → All (λ n. now < n.deadline) pending
    → Expired now pending [] pending
none_due now pending later = record {
  same = Perm.refl pending;
  ordered = tt;
  due = tt;
  later = later;
  splits = λ d due. tt;
  keeps = λ d due. due;
}

expire_loop-Expired :
    (fuel now : ℕ) (pending : List TimerNode)
    → length pending ≤ fuel
    → let (out, left) = expire_loop fuel now pending in Expired now pending out left
unfolding expire_loop
expire_loop-Expired zero now [] le = none_due now [] tt
expire_loop-Expired zero now (n ∷ pending) le = absurd (omega (arith, le))
expire_loop-Expired (suc fuel) now pending le = elim (pop_top-Top pending) [
  | inl (e, q) ↦ rw (expire_loop, q) (none_due now pending (rw e tt))
  | inr (top, rest, q, t) ↦ elim (Bool-cases (leb top.deadline now)) [
    | inr later ↦
        rw (expire_loop, q, later)
          (none_due now pending (
            All-later now top.deadline pending (ground (arith, later))
              (t.joins top.deadline (omega arith, t.first))))
    | inl due ↦
        rw (expire_loop, q, due)
          (popped top rest t (ground (arith, due)) (expire_loop fuel now rest)
            (expire_loop-Expired fuel now rest (omega (arith, le, t.counted))))
  ]
]
  where
    popped :
        (top : TimerNode) (rest : List TimerNode)
        → Top pending top rest
        → top.deadline ≤ now
        → (res : List TimerNode × List TimerNode) → Expired now rest res.0 res.1
        → Expired now pending (top ∷ res.0) res.1
    popped top rest t due (out, left) x = record {
      same = Perm.trans t.same (Perm.cons top x.same);
      ordered = (x.splits top.deadline t.first, x.ordered);
      due = (due, x.due);
      later = x.later;
      splits = λ d from. let q = t.splits d from in (q.0, x.splits d q.1);
      keeps = λ d from. let q = t.splits d from in x.keeps d q.1;
    }

-- The nodes that `expire` gives are due and in order of their deadlines, those that stay are not due,
-- and together they are the nodes that were pending.
pub expire-Expired :
    (now : ℕ) (pending : List TimerNode)
    → let (out, left) = expire now pending in
      (Perm pending (out ++ left))
      × (InOrder out)
      × (All (λ n. n.deadline ≤ now) out)
      × All (λ n. now < n.deadline) left
unfolding expire
expire-Expired now pending =
    let x = expire_loop-Expired (length pending) now pending (omega arith) in
    (x.same, x.ordered, x.due, x.later)

-- What stays is due no earlier than what was there.
pub expire_keeps :
    (now d : ℕ) (pending : List TimerNode) → Due d pending → Due d (expire now pending).1
unfolding expire
expire_keeps now d pending =
    (expire_loop-Expired (length pending) now pending (omega arith)).keeps d
