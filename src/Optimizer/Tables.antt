-- ===== src/Optimizer/Tables.antt =====
-- src/smartnic_offload/zero_optimizer.py: the numbers of the parameters, `set_grad_positions`, and the
-- offsets in the flat buffer of gradient partitions. A dictionary is a function of its key.
pub mod Agree
pub mod Found
use understanding_smartnic.Prelude.{
  ℕ, zero, suc, ◌+◌, List, [], ◌∷◌, Option, none, some, ◌==◌, if◌then◌else◌, length, Result, ok,
  err, ◌>>=◌, key_error,
}
use understanding_smartnic.Tensor.{concat}
use understanding_smartnic.Optimizer.{Parameter, partition_numel}

-- `d[key] = value`
abbrev pub put : {V : Type 0} → ℕ → V → (ℕ → Option V) → ℕ → Option V
put key value d j = if j == key then some value else d j

-- An entry of `grad_position`
pub record GradPosition : Type 0 where
  pub group : ℕ
  pub current_offset : ℕ
  pub num_elements : ℕ

module _ {ℓ} {A : Type ℓ} where
  -- The inner loop that fills `param_id`
  pub number_params : ℕ → List (Parameter A) → (ℕ → Option ℕ) → ℕ → Option ℕ
  number_params count [] d = d
  number_params count (p ∷ ps) d = number_params (suc count) ps (put p.id count d)

  -- `param_id`, with the loop over the groups
  pub number_groups : ℕ → List (List (Parameter A)) → (ℕ → Option ℕ) → ℕ → Option ℕ
  unfolding number_params
  number_groups count [] d = d
  number_groups count (g ∷ gs) d = number_groups (count + length g) gs (number_params count g d)

  -- The inner loop of `set_grad_positions`, where `param_id` is the dictionary of `get_param_id`
  pub set_positions :
      (ℕ → Option ℕ)
      → ℕ
      → ℕ
      → List (Parameter A)
      → (ℕ → Option GradPosition)
      → Result (ℕ → Option GradPosition)
  set_positions param_id i current_offset [] d = ok d
  set_positions param_id i current_offset (p ∷ ps) d = elim (param_id p.id) [
    | none ↦ err key_error
    | some k ↦ set_positions param_id i (current_offset + partition_numel p) ps (
        put k
          (record { group = i; current_offset = current_offset; num_elements = partition_numel p })
          d)
  ]

  -- `set_grad_positions`
  pub set_grad_positions :
      (ℕ → Option ℕ)
      → ℕ
      → List (List (Parameter A))
      → (ℕ → Option GradPosition)
      → Result (ℕ → Option GradPosition)
  unfolding set_positions
  set_grad_positions param_id i [] d = ok d
  set_grad_positions param_id i (g ∷ gs) d =
      set_positions param_id i 0 g d >>= set_grad_positions param_id (suc i) gs

  -- `__param_id_to_grad_offset`, for `all_params`
  pub grad_offsets : ℕ → List (Parameter A) → (ℕ → Option ℕ) → ℕ → Option ℕ
  grad_offsets offset [] d = d
  grad_offsets offset (p ∷ ps) d =
      grad_offsets (offset + partition_numel p) ps (put p.ds_id offset d)
