-- ===== src/Policy/Scan.antt =====
-- The loop with which a policy walks once round the queues, starting behind the last one served:
-- for (offset = 1; offset <= n; ++offset) { idx = (last + offset) % n; if (test(idx)) return idx; }
use mathlib.Core.Bool.{false≢true}
use native.Mathlib.Nat.{mod-lt, mod-add-mod, mod-eq_of_lt, add-mod_left}
use native.Mathlib.Decide.{dec_lt}
use storage_engine.Prelude.{
  ℕ, zero, suc, ◌+◌, ◌-◌, ◌%◌, ◌≤◌, ◌<◌, ◌≡◌, sym, ap, ◌∙◌, Bool, true, false, Option, none, some,
  if◌then◌else◌, add_word, word, arith, inl, inr, Bool-cases, Option-cases,
}

abbrev pub place : ℕ → ℕ → ℕ → ℕ
place n last offset = add_word last offset % n

module _ (test : ℕ → Bool) (n last : ℕ) where
  -- `rounds` rounds are left, the next one at `offset`.
  unfoldable pub scan : ℕ → ℕ → Option ℕ
  scan zero offset = none
  scan (suc rounds) offset =
      let rest = scan rounds (offset + 1) in
      if test (place n last offset) then some (place n last offset) else rest

  -- The walk stops at the first place that passes.
  pub record Stops (rounds offset i : ℕ) : Type 0 where
    pub step : ℕ
    pub in_time : step < rounds
    pub there : i ≡ place n last (offset + step)
    pub passes : test i ≡ true
    pub first : (k : ℕ) → k < step → test (place n last (offset + k)) ≡ false

  extend :
      (offset count : ℕ)
      → test (place n last offset) ≡ false
      → ((k : ℕ) → k < count → test (place n last (offset + 1 + k)) ≡ false)
      → (k : ℕ) → k < suc count
      → test (place n last (offset + k)) ≡ false
  extend offset count miss rest zero lt =
      ap (λ o. test (place n last o)) {x = offset + 0} {y = offset} (omega arith) ∙ miss
  extend offset count miss rest (suc k) lt =
      ap (λ o. test (place n last o)) {x = offset + suc k} {y = offset + 1 + k} (omega arith)
      ∙ rest k (omega arith)

  pub scan-Stops : (rounds offset i : ℕ) → scan rounds offset ≡ some i → Stops rounds offset i
  unfolding scan
  scan-Stops zero offset i e = cc
  scan-Stops (suc rounds) offset i e = elim (Bool-cases (test (place n last offset))) [
    | inl hit ↦
        let here : place n last offset ≡ i = ground (arith, e, hit) in
        record {
          step = 0;
          in_time = omega arith;
          there = sym here ∙ ap (place n last) {x = offset} {y = offset + 0} (omega arith);
          passes = ap test (sym here) ∙ hit;
          first = λ k lt. absurd (omega (arith, lt));
        }
    | inr miss ↦
        let on : scan rounds (offset + 1) ≡ some i = ground (arith, e, miss) in
        let s : Stops rounds (offset + 1) i = scan-Stops rounds (offset + 1) i on in
        record {
          step = suc s.step;
          in_time = omega (arith, s.in_time);
          there =
              s.there
              ∙ ap (place n last) {x = offset + 1 + s.step} {y = offset + suc s.step} (omega arith);
          passes = s.passes;
          first = extend offset s.step miss s.first;
        }
  ]

  pub scan-eq-none :
      (rounds offset : ℕ)
      → scan rounds offset ≡ none
      → (k : ℕ) → k < rounds
      → test (place n last (offset + k)) ≡ false
  unfolding scan
  scan-eq-none zero offset e = λ k lt. absurd (omega (arith, lt))
  scan-eq-none (suc rounds) offset e = elim (Bool-cases (test (place n last offset))) [
    | inl hit ↦ absurd (ground (arith, e, hit))
    | inr miss ↦
        let on : scan rounds (offset + 1) ≡ none = ground (arith, e, miss) in
        extend offset rounds miss (scan-eq-none rounds (offset + 1) on)
  ]

-- Each queue is met on the walk.
pub meets :
    (n last j : ℕ) → j < n → last + n < word → (k : ℕ) × (k < n) × (place n last (1 + k) ≡ j)
meets n last j lt narrow = elim (dec_lt (last % n) j) [
  | yes p ↦ (
    j - last % n - 1,
    omega arith,
    at (j - last % n) (omega arith) (omega arith) (ap (λ t. t % n) (omega arith)),
  )
  | no p ↦ (
    n + j - last % n - 1,
    omega (arith, below),
    at (n + j - last % n) (omega (arith, below)) (omega (arith, below))
        (ap (λ t. t % n) {y = n + j} (omega (arith, below)) ∙ add-mod_left n j),
  )
]
  where
    below : last % n < n
    below = mod-lt last (omega arith)

    at : (o : ℕ) → 0 < o → o ≤ n → (last % n + o) % n ≡ j % n → place n last (1 + (o - 1)) ≡ j
    at o pos le e =
        ap (λ t. t % n) {x = add_word last (1 + (o - 1))} {y = last + o} (omega arith)
        ∙ sym (mod-add-mod last n o)
        ∙ e
        ∙ mod-eq_of_lt lt

-- So the walk finds something if anything passes.
pub scan_finds :
    (test : ℕ → Bool) (n last j : ℕ)
    → j < n
    → test j ≡ true
    → last + n < word
    → (i : ℕ) × (scan test n last n 1 ≡ some i)
scan_finds test n last j lt hit narrow = elim (Option-cases (scan test n last n 1)) [
  | inl e ↦
      let (k, below, at) = meets n last j lt narrow in
      absurd (false≢true (sym (scan-eq-none test n last n 1 e k below) ∙ ap test at ∙ hit))
  | inr found ↦ found
]
