-- ===== src/Policy/RoundRobin/Turns.antt =====
-- No queue starves: one that keeps work is served within one round.
use mathlib.Core.Path.{subst}
use mathlib.Core.Bool.{false≢true}
use native.Mathlib.Nat.{mod-lt, mod-add-mod}
use native.Mathlib.Decide.{dec_lt, ℕ_discrete}
use storage_engine.Prelude.{
  ℕ, ◌+◌, ◌-◌, ◌*◌, ◌%◌, ◌<◌, ◌≡◌, refl, sym, ap, ◌∙◌, ◌⊎◌, inl, inr, true, false, List, [], ◌∷◌,
  length, arith, word, All, add_word,
}
use storage_engine.Policy.Types.{QueueSnapshot, holds_work}
use storage_engine.Policy.Scan.{place, Stops, meets}
use storage_engine.Policy.RoundRobin.{RoundRobin, decide}
use storage_engine.Policy.RoundRobin.Choice.{Serves, round_robin-Serves}

-- Queue `j` is the choice of one of the decisions on the successive snapshots.
abbrev pub ServedIn : ℕ → RoundRobin → List (List QueueSnapshot) → Type 0
ServedIn j p [] = ⊥
ServedIn j p (qs ∷ rest) =
    (((decide p qs).0.idle ≡ false) × ((decide p qs).0.queue_index ≡ j))
    ⊎ ServedIn j (decide p qs).1 rest

-- There are `n` queues, and queue `j` has work.
abbrev pub KeepsWork : ℕ → ℕ → List QueueSnapshot → Type 0
KeepsWork n j qs = (length qs ≡ n) × (holds_work qs j ≡ true)

-- The distance left after serving a nearer queue.
nearer :
    (n last j d s : ℕ)
    → place n last (1 + d) ≡ j
    → s < d
    → last + n < word
    → d < n
    → n + n < word
    → place n (place n last (1 + s)) (1 + (d - s - 1)) ≡ j
nearer n last j d s at lt narrow dn wide =
    ap (λ t. t % n) {y = place n last (1 + s) + (d - s)}
      (omega (arith, mod-lt (add_word last (1 + s)) {m = n} (omega arith)))
    ∙ mod-add-mod (add_word last (1 + s)) n (d - s)
    ∙ ap (λ t. t % n) {y = add_word last (1 + d)} (omega arith)
    ∙ at

-- One decision: it serves the queue, or comes nearer to it.
served_or_nearer {ℓ} :
    (n j d : ℕ) (p : RoundRobin) (qs : List QueueSnapshot) (i : ℕ)
    → Serves p qs i
    → place n p.last_index (1 + d) ≡ j
    → d < n
    → p.last_index < n
    → 2 * n < word
    → KeepsWork n j qs
    → (R : RoundRobin → Type ℓ)
    → ((k : ℕ) → k < d → place n i (1 + k) ≡ j → R (record p { last_index = i }))
    → (((decide p qs).0.idle ≡ false) × ((decide p qs).0.queue_index ≡ j)) ⊎ R (decide p qs).1
served_or_nearer n j d p qs i s at dn ln wide keeps R closer = elim (dec_lt d turn.step) [
  | yes past ↦ absurd (false≢true (sym (turn.first d past) ∙ ap (holds_work qs) at ∙ keeps.1))
  | no here ↦ elim (ℕ_discrete d turn.step) [
    | yes e ↦
        inl (rw s.decided (refl, turn.there ∙ ap (λ k. place n p.last_index (1 + k)) (sym e) ∙ at))
    | no ne ↦ inr (
        rw s.decided (
          closer (d - turn.step - 1) (omega arith) (
            ap (λ t. place n t (1 + (d - turn.step - 1))) turn.there
            ∙ nearer n p.last_index j d turn.step at (omega arith) (omega arith) dn (omega arith))))
  ]
]
  where
    turn : Stops (holds_work qs) n p.last_index n 1 i
    turn = subst (λ m. Stops (holds_work qs) m p.last_index m 1 i) keeps.0 s.turn

served_at :
    (n j d : ℕ) (p : RoundRobin) (snaps : List (List QueueSnapshot))
    → place n p.last_index (1 + d) ≡ j
    → d < length snaps
    → d < n
    → j < n
    → p.last_index < n
    → 2 * n < word
    → All (KeepsWork n j) snaps
    → ServedIn j p snaps
served_at n j d p [] at room dn jn ln wide keeps = absurd (omega (arith, room))
served_at n j d p (qs ∷ rest) at room dn jn ln wide keeps =
    elim (round_robin-Serves p qs (omega (arith, keeps.0.0))) [
      | inr r ↦ absurd (false≢true (sym (r.empty j (omega (arith, keeps.0.0))) ∙ keeps.0.1))
      | inl (i, s) ↦
          served_or_nearer n j d p qs i s at dn ln wide keeps.0 (λ q. ServedIn j q rest)
            (λ k lt on.
              served_at n j k (record p { last_index = i }) rest on (omega (arith, lt, room))
                (omega (arith, lt, dn)) jn (omega (arith, s.inside, keeps.0.0)) wide keeps.1)
    ]

-- A queue that has work in each of `n` successive snapshots of the `n` queues is served by one of
-- the `n` decisions, wherever the policy stands.
pub served_within_round :
    (n j : ℕ) (p : RoundRobin) (snaps : List (List QueueSnapshot))
    → length snaps ≡ n
    → j < n
    → p.last_index < n
    → 2 * n < word
    → All (KeepsWork n j) snaps
    → ServedIn j p snaps
served_within_round n j p snaps e jn ln wide keeps =
    let (d, dn, at) = meets n p.last_index j jn (omega arith) in
    served_at n j d p snaps at (omega arith) dn jn ln wide keeps
