-- ===== src/Trace/Sampling.antt =====
-- One request in `sample_rate` is traced.
use native.Mathlib.Nat.{mod-lt, mod-one, mod_self, mod-add-mod}
use native.Mathlib.Decide.{dec_lt, ℕ_discrete}
use storage_engine.Prelude.{
  ℕ, ◌+◌, ◌-◌, ◌%◌, ◌<◌, ◌≡◌, refl, sym, ap, ◌∙◌, inl, inr, true, false, ◌==◌, arith, ==_iff,
  Bool-cases,
}
use storage_engine.Prelude.Window.{slot_ne}
use storage_engine.Trace.{TraceConfig, should_trace}

-- What the chain of early returns tests.
should_trace_lem :
    (c : TraceConfig) (id : ℕ)
    → c.enabled ≡ true
    → 0 < c.sample_rate
    → 0 < id
    → should_trace c id ≡ (id % c.sample_rate == 0)
unfolding should_trace
should_trace_lem c id on pos named =
    rw (zero_test id named, on, zero_test c.sample_rate pos)
      (elim (Bool-cases (c.sample_rate == 1)) [
        | inl one ↦ rw one (
            sym (
              ap (λ r. id % r == 0) ((==_iff c.sample_rate 1).0 one)
              ∙ ap (λ r. r == 0) (mod-one id)))
        | inr more ↦ rw more refl
      ])
  where
    zero_test : (n : ℕ) → 0 < n → (n == 0) ≡ false
    zero_test n pos = ground (arith, pos)

-- The next multiple of the rate, from an id on.
next_multiple : (start rate : ℕ) → 0 < rate → (k : ℕ) × (k < rate) × ((start + k) % rate ≡ 0)
next_multiple start rate pos = elim (ℕ_discrete (start % rate) 0) [
  | yes e ↦ (0, pos, ap (λ t. t % rate) {x = start + 0} {y = start} (omega arith) ∙ e)
  | no ne ↦ (
    rate - start % rate,
    omega (arith, ne, pos),
    sym (mod-add-mod start rate (rate - start % rate))
        ∙ ap (λ t. t % rate) {x = start % rate + (rate - start % rate)} {y = rate}
            (omega (arith, mod-lt start {m = rate} pos))
        ∙ mod_self rate,
  )
]

-- With tracing on and a rate above 0, exactly one of any `sample_rate` ids in a row is traced, the id
-- 0 not among them.
pub one_in_rate_traced :
    (c : TraceConfig) (start : ℕ)
    → c.enabled ≡ true
    → 0 < c.sample_rate
    → 0 < start
    → (k : ℕ) × (k < c.sample_rate)
      × (should_trace c (start + k) ≡ true)
      × ((j : ℕ) → j < c.sample_rate → should_trace c (start + j) ≡ true → j ≡ k)
one_in_rate_traced c start on pos named =
    let (k, lt, multiple) = next_multiple start c.sample_rate pos in
    (
      k,
      lt,
      should_trace_lem c (start + k) on pos (omega (arith, named))
          ∙ (==_iff ((start + k) % c.sample_rate) 0).1 multiple,
      λ j below traced. same k j lt below multiple (
          (==_iff ((start + j) % c.sample_rate) 0).0
            (sym (should_trace_lem c (start + j) on pos (omega (arith, named))) ∙ traced)),
    )
  where
    apart :
        (k j : ℕ)
        → k < j
        → j < c.sample_rate
        → (start + k) % c.sample_rate ≡ 0
        → (start + j) % c.sample_rate ≡ 0
        → ⊥
    apart k j lt below e f =
        slot_ne c.sample_rate (start + k) (j - k) (omega (arith, lt)) (omega (arith, below, lt)) (
          ap (λ t. t % c.sample_rate) {x = start + k + (j - k)} {y = start + j} (omega (arith, lt))
          ∙ f
          ∙ sym e)

    same :
        (k j : ℕ)
        → k < c.sample_rate
        → j < c.sample_rate
        → (start + k) % c.sample_rate ≡ 0
        → (start + j) % c.sample_rate ≡ 0
        → j ≡ k
    same k j lk lj e f = elim (dec_lt k j) [
      | yes lt ↦ absurd (apart k j lt lj e f)
      | no nlt ↦ elim (dec_lt j k) [
        | yes lt ↦ absurd (apart j k lt lk f e)
        | no nlt' ↦ omega (arith, nlt, nlt')
      ]
    ]
