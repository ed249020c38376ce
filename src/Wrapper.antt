-- ===== src/Wrapper.antt =====
-- src/smartnic_offload/zero_wrapper_example.py, `ZeroWrapperExample`: the counters of micro steps and
-- the steps of the optimizer at the boundaries of gradient accumulation. What an optimizer's step and
-- `zero_grad` do to it is an argument; Adam.antt has them.
pub mod Boundary
mod Tests
use understanding_smartnic.Prelude.{
  ℕ, zero, suc, ◌+◌, ◌%◌, Option, none, some, Bool, true, false, ◌==◌, if◌then◌else◌, Result, ok,
  ◌>>=◌, ◌>>◌, guard, not, zero_division_error,
}

-- The fields of the wrapper, with the optimizer.
pub record Wrapper {ℓ} (O : Type ℓ) : Type ℓ where
  pub gradient_accumulation_steps : ℕ
  pub micro_steps : ℕ
  pub global_steps : ℕ
  pub gas_boundary_ctr : ℕ
  pub dpu_steps : ℕ
  pub forced_boundary : Option Bool
  pub optimizer : O

module _ {ℓ} {O : Type ℓ} where
  -- `is_gradient_accumulation_boundary`; the remainder by 0 raises.
  unfoldable pub is_gradient_accumulation_boundary : Wrapper O → Result Bool
  is_gradient_accumulation_boundary w = elim w.forced_boundary [
    | none ↦ do
      guard (not (w.gradient_accumulation_steps == 0)) zero_division_error
      ok ((w.micro_steps + 1) % w.gradient_accumulation_steps == 0)
    | some b ↦ ok b
  ]

  -- `_take_model_step`
  abbrev pub take_model_step : (O → O) → Wrapper O → Wrapper O
  take_model_step update w = record w {
    optimizer = update w.optimizer;
    global_steps = suc w.global_steps;
  }

  -- `step`
  unfoldable pub step : (O → O) → Wrapper O → Result (Wrapper O)
  unfolding is_gradient_accumulation_boundary
  step update w = do
    boundary ← is_gradient_accumulation_boundary w
    let x =
        if boundary
        then take_model_step update (record w { gas_boundary_ctr = suc w.gas_boundary_ctr })
        else w
    ok (record x { micro_steps = suc x.micro_steps })

  -- `_take_model_step_dpu`; the optimizer is told whether this is its first step.
  abbrev pub take_model_step_dpu : (Bool → O → O) → Wrapper O → Wrapper O
  take_model_step_dpu update w = record w {
    optimizer = update (w.dpu_steps == 0) w.optimizer;
    global_steps = suc w.global_steps;
    dpu_steps = suc w.dpu_steps;
  }

  -- `step_dpu`, with the boundary that it returns
  unfoldable pub step_dpu : (Bool → O → O) → Wrapper O → Result (Wrapper O × Bool)
  unfolding is_gradient_accumulation_boundary
  step_dpu update w = do
    boundary ← is_gradient_accumulation_boundary w
    let x =
        if boundary
        then take_model_step_dpu update (record w { gas_boundary_ctr = suc w.gas_boundary_ctr })
        else w
    ok (record x { micro_steps = suc x.micro_steps }, boundary)
