-- ===== src/Wrapper/Boundary.antt =====
-- The optimizer steps once in every `gradient_accumulation_steps` micro steps.
use understanding_smartnic.Prelude.{
  ℕ, zero, suc, ◌+◌, ◌*◌, ◌/◌, ◌%◌, ◌<◌, ◌≡◌, refl, sym, ◌∙◌, ap, ◌⊎◌, inl, inr, none, Bool, true,
  false, ◌==◌, Result, ok, ◌>>=◌, arith,
}
use native.Mathlib.Nat.{div-add-mod, mod-lt, div-eq_of_lt-le}
use native.Mathlib.Decide.{ℕ_discrete}
use understanding_smartnic.Wrapper.{Wrapper, is_gradient_accumulation_boundary, step_dpu}

module _ {ℓ} {O : Type ℓ} where
  -- So many calls of `step_dpu`.
  abbrev pub steps_dpu : (Bool → O → O) → ℕ → Wrapper O → Result (Wrapper O)
  steps_dpu update zero w = ok w
  steps_dpu update (suc n) w = steps_dpu update n w >>= λ x. step_dpu update x >>= λ r. ok (r.0)

  -- So many steps of the optimizer, the first of which is told so.
  abbrev pub updates : (Bool → O → O) → ℕ → O → O
  updates update zero o = o
  updates update (suc k) o = update (k == 0) (updates update k o)

  -- A wrapper before its first step.
  abbrev pub fresh : ℕ → O → Wrapper O
  fresh gas o = record {
    gradient_accumulation_steps = gas;
    micro_steps = 0;
    global_steps = 0;
    gas_boundary_ctr = 0;
    dpu_steps = 0;
    forced_boundary = none;
    optimizer = o;
  }

  -- A wrapper after `n` micro steps and `k` steps of the optimizer.
  abbrev pub after : (Bool → O → O) → ℕ → O → ℕ → ℕ → Wrapper O
  after update gas o n k = record {
    gradient_accumulation_steps = gas;
    micro_steps = n;
    global_steps = k;
    gas_boundary_ctr = k;
    dpu_steps = k;
    forced_boundary = none;
    optimizer = updates update k o;
  }

-- The quotient moves on at the boundary, and only there.
div-inside : (n g : ℕ) → 0 < g → 0 < (n + 1) % g → n / g ≡ (n + 1) / g
div-inside n g h e =
    let split = div-add-mod (n + 1) g in
    let below = mod-lt (n + 1) h in
    div-eq_of_lt-le {k = (n + 1) / g} g (omega (arith, split)) (omega (arith, split, below))

div-boundary : (n g q : ℕ) → 0 < g → (n + 1) % g ≡ 0 → (n + 1) / g ≡ suc q → n / g ≡ q
div-boundary n g q h e quotient =
    let split = div-add-mod (n + 1) g in
    let more : g * suc q ≡ n + 1 = omega (arith, split, ap (λ k. g * k) quotient) in
    div-eq_of_lt-le {k = q} g (omega (arith, more)) (omega (arith, more))

boundary_cases :
    (n g : ℕ)
    → 0 < g
    → (((n + 1) % g ≡ 0) × ((n + 1) / g ≡ suc (n / g)))
      ⊎ ((0 < (n + 1) % g) × ((n + 1) / g ≡ n / g))
boundary_cases n g h = elim (ℕ_discrete ((n + 1) % g) 0) [
  | no z ↦ inr (omega arith, sym (div-inside n g h (omega arith)))
  | yes z ↦
      let split = div-add-mod (n + 1) g in
      (elim ((n + 1) / g)
          as (λ q.
            ((n + 1) / g ≡ q)
            → (((n + 1) % g ≡ 0) × (q ≡ suc (n / g))) ⊎ ((0 < (n + 1) % g) × (q ≡ n / g))) [
              | zero ↦ λ e. absurd (omega (arith, split, ap (λ k. g * k) e))
              | suc q ↦ λ e. inl (z, ap suc (sym (div-boundary n g q h z e)))
            ])
        refl
]

module _ {ℓ} {O : Type ℓ} (update : Bool → O → O) (gas : ℕ) (o : O) (positive : 0 < gas) where
  step_dpu-boundary :
      (n k : ℕ)
      → (n + 1) % gas ≡ 0
      → step_dpu update (after update gas o n k) ≡ ok (after update gas o (suc n) (suc k), true)
  unfolding step_dpu is_gradient_accumulation_boundary
  step_dpu-boundary n k e =
      let some_steps : (gas == 0) ≡ false = ground arith in
      let here : ((n + 1) % gas == 0) ≡ true = ground arith in rw (some_steps, here) refl

  step_dpu-inside :
      (n k : ℕ)
      → 0 < (n + 1) % gas
      → step_dpu update (after update gas o n k) ≡ ok (after update gas o (suc n) k, false)
  unfolding step_dpu is_gradient_accumulation_boundary
  step_dpu-inside n k e =
      let some_steps : (gas == 0) ≡ false = ground arith in
      let inside : ((n + 1) % gas == 0) ≡ false = ground arith in rw (some_steps, inside) refl

  -- From its start and with a positive number of accumulation steps, `n` calls of `step_dpu` return,
  -- and the counters and the optimizer are those of exactly `n / gas` steps of the optimizer, of which
  -- only the first one is told that it is the first.
  pub steps_dpu-after :
      (n : ℕ) → steps_dpu update n (fresh gas o) ≡ ok (after update gas o n (n / gas))
  steps_dpu-after zero = let start : 0 / gas ≡ 0 = omega arith in rw start refl
  steps_dpu-after (suc n) =
      let next : suc n ≡ n + 1 = omega arith in
      elim (boundary_cases n gas positive) [
        | inl (e, q) ↦
            rw (steps_dpu-after n, step_dpu-boundary n (n / gas) e)
              (ap (λ k. ok (after update gas o (suc n) k)) (sym q ∙ ap (λ k. k / gas) (sym next)))
        | inr (e, q) ↦
            rw (steps_dpu-after n, step_dpu-inside n (n / gas) e)
              (ap (λ k. ok (after update gas o (suc n) k)) (sym q ∙ ap (λ k. k / gas) (sym next)))
      ]
