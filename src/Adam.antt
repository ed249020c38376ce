-- ===== src/Adam.antt =====
-- src/smartnic_offload/zero_optimizer.py, the delayed update of the parameters: `_adam_worker` in its
-- own process, and `step_dpu`, `update_new_params`, `start_adam_process` and `stop_adam_process` of
-- `ZeroOptimizer3`. The two sides share the fp32 weights and the two gradient buffers, and talk over
-- a pipe with a queue in each direction. `adam` is one step of DeepSpeed's CPU Adam for a parameter
-- group, a third-party optimizer: a `Weight` is a subgroup's weights with the moments that it keeps
-- for them. `half` is the copy of a subgroup to fp16.
pub mod Delayed
pub mod Finishes
pub mod First
pub mod Published
pub mod Quiet
pub mod Step
pub mod Refines
pub mod Writes
mod Tests
use understanding_smartnic.Prelude.{
  ℕ, zero, suc, ◌+◌, ◌-◌, List, [], ◌∷◌, ◌++◌, map, Option, none, some, Bool, true, false,
  if◌then◌else◌, ltb, length, get_elem?, get_or, set, Error, assertion_error, index_error, Result,
  ok, err, ◌>>=◌,
}

-- What the optimizer sends to the worker.
pub data Command : Type 0 where
  set_affinity : List ℕ → Command
  step : ℕ → Command
  shutdown : Command

pub data Message : Type 0 where
  ready done : Message

-- Where the worker is in its loop: before `recv`, before subgroup `i` of a step with the buffer
-- `grad_idx`, or after the loop, by `shutdown` or by an exception.
pub data Phase : Type 0 where
  receiving : Phase
  stepping : (grad_idx i : ℕ) → Phase
  stopped : Phase
  raised : Error → Phase

pub record World (Weight Grad Half : Type 0) : Type 0 where
  pub fp32_partitioned_groups_flat : List Weight
  pub fp32_grad_bufs : List (List Grad)
  pub fp16_partitioned_groups_flat : List Half
  pub grad_buf_switch : ℕ
  pub adam_step_pending : Bool
  pub commands : List Command
  pub messages : List Message
  pub phase : Phase

-- How a call that may wait for a message ends.
pub data Outcome {ℓ} (A : Type ℓ) : Type ℓ where
  blocks : Outcome A
  raises : Error → Outcome A
  returns : A → Outcome A

module _ {Weight Grad Half : Type 0} where
  -- One round of the loop over the subgroups: `w.grad` is set, and `optimizer.step()` runs on the
  -- parameter group of the subgroup. An index out of range raises.
  pub step_sub_group :
      (ℕ → Weight → Grad → Weight)
      → (ℕ → ℕ)
      → ℕ
      → ℕ
      → World Weight Grad Half
      → World Weight Grad Half
  step_sub_group adam sub_group_to_group_id grad_idx i w =
      elim (get_elem? w.fp32_partitioned_groups_flat i) [
        | none ↦ record w { phase = raised index_error }
        | some weight ↦ elim (get_elem? (get_or w.fp32_grad_bufs grad_idx []) i) [
          | none ↦ record w { phase = raised index_error }
          | some grad ↦ record w {
            fp32_partitioned_groups_flat =
                set w.fp32_partitioned_groups_flat i (adam (sub_group_to_group_id i) weight grad);
            phase = stepping grad_idx (suc i);
          }
        ]
      ]

  -- `cmd = pipe.recv()` and the branch of the command; without a command the worker waits.
  pub receive : List Command → World Weight Grad Half → World Weight Grad Half
  receive [] w = w
  receive (set_affinity cpus ∷ commands) w = record w { commands = commands }
  receive (step grad_idx ∷ commands) w = record w {
    commands = commands;
    phase = stepping grad_idx 0;
  }
  receive (shutdown ∷ commands) w = record w { commands = commands; phase = stopped }

  -- `_adam_worker` from one point of its loop to the next
  pub adam_worker :
      (ℕ → Weight → Grad → Weight)
      → (ℕ → ℕ)
      → ℕ
      → Phase
      → World Weight Grad Half
      → World Weight Grad Half
  unfolding step_sub_group receive
  adam_worker adam sub_group_to_group_id num_subgroups receiving w = receive w.commands w
  adam_worker adam sub_group_to_group_id num_subgroups (stepping grad_idx i) w =
      if ltb i num_subgroups
      then step_sub_group adam sub_group_to_group_id grad_idx i w
      else record w { messages = w.messages ++ done ∷ []; phase = receiving }
  adam_worker adam sub_group_to_group_id num_subgroups stopped w = w
  adam_worker adam sub_group_to_group_id num_subgroups (raised e) w = w

  -- The end of `__partition_grads`: the gradient of a subgroup in the buffer that backward writes;
  -- `change` is the copy into a slice of it.
  pub offload_grad : ℕ → (Grad → Grad) → World Weight Grad Half → Result (World Weight Grad Half)
  offload_grad i change w =
      let buf = get_or w.fp32_grad_bufs w.grad_buf_switch [] in
      elim (get_elem? buf i) [
        | none ↦ err index_error
        | some grad ↦ ok (record w {
          fp32_grad_bufs = set w.fp32_grad_bufs w.grad_buf_switch (set buf i (change grad));
        })
      ]

  -- `step_dpu`
  pub step_dpu : Bool → World Weight Grad Half → World Weight Grad Half
  step_dpu first_step w = if first_step then record w { adam_step_pending = false } else record w {
    commands = w.commands ++ step (1 - w.grad_buf_switch) ∷ [];
    adam_step_pending = true;
  }

  -- The copies of all subgroups to fp16 and the toggle, at the end of `update_new_params`
  pub publish : (Weight → Half) → World Weight Grad Half → World Weight Grad Half
  publish half w = record w {
    fp16_partitioned_groups_flat = map half w.fp32_partitioned_groups_flat;
    grad_buf_switch = 1 - w.grad_buf_switch;
  }

  -- `result = self._adam_pipe_parent.recv()` with its assertion
  pub await_done :
      (Weight → Half) → List Message → World Weight Grad Half → Outcome (World Weight Grad Half)
  unfolding publish
  await_done half [] w = blocks
  await_done half (ready ∷ messages) w = raises assertion_error
  await_done half (done ∷ messages) w = returns (publish half (record w { messages = messages }))

  -- `update_new_params`
  pub update_new_params :
      (Weight → Half) → World Weight Grad Half → Outcome (World Weight Grad Half)
  unfolding await_done publish
  update_new_params half w =
      if w.adam_step_pending then await_done half w.messages w else returns (publish half w)

  -- `start_adam_process`: the worker has sent "ready" and waits for a command.
  pub start_adam_process : Option (List ℕ) → World Weight Grad Half → World Weight Grad Half
  start_adam_process none w = record w { commands = []; messages = []; phase = receiving }
  start_adam_process (some cpus) w = record w {
    commands = set_affinity cpus ∷ [];
    messages = [];
    phase = receiving;
  }

  -- `stop_adam_process`: the command to the worker
  pub stop_adam_process : World Weight Grad Half → World Weight Grad Half
  stop_adam_process w = record w { commands = w.commands ++ shutdown ∷ [] }

-- What happens while an update runs: the worker goes on, or backward writes a gradient.
pub data Action (Grad : Type 0) : Type 0 where
  work : Action Grad
  write : ℕ → (Grad → Grad) → Action Grad

module _ {Weight Grad Half : Type 0} where
  pub perform :
      (ℕ → Weight → Grad → Weight)
      → (ℕ → ℕ)
      → ℕ
      → List (Action Grad)
      → World Weight Grad Half
      → Result (World Weight Grad Half)
  unfolding adam_worker offload_grad
  perform adam group n [] w = ok w
  perform adam group n (work ∷ rest) w =
      perform adam group n rest (adam_worker adam group n w.phase w)
  perform adam group n (write i change ∷ rest) w =
      offload_grad i change w >>= perform adam group n rest

  -- `update_new_params` while the worker goes on, for at most `rounds` rounds
  pub update_within :
      (ℕ → Weight → Grad → Weight)
      → (ℕ → ℕ)
      → ℕ
      → (Weight → Half)
      → ℕ
      → World Weight Grad Half
      → Outcome (World Weight Grad Half)
  unfolding adam_worker update_new_params
  update_within adam group n half zero w = update_new_params half w
  update_within adam group n half (suc rounds) w = elim (update_new_params half w) [
    | blocks ↦ update_within adam group n half rounds (adam_worker adam group n w.phase w)
    | raises e ↦ raises e
    | returns v ↦ returns v
  ]

  -- An iteration of the training loop: `step_dpu`, the forward and backward passes, and
  -- `update_new_params`.
  pub iteration :
      (ℕ → Weight → Grad → Weight)
      → (ℕ → ℕ)
      → ℕ
      → (Weight → Half)
      → ℕ
      → Bool
      → List (Action Grad)
      → World Weight Grad Half
      → Outcome (World Weight Grad Half)
  unfolding step_dpu perform update_within
  iteration adam group n half rounds first_step actions w =
      elim (perform adam group n actions (step_dpu first_step w)) [
        | err e ↦ raises e
        | ok v ↦ update_within adam group n half rounds v
      ]

  -- The iterations of a run, the first with `first_step`.
  pub train :
      (ℕ → Weight → Grad → Weight)
      → (ℕ → ℕ)
      → ℕ
      → (Weight → Half)
      → ℕ
      → Bool
      → List (List (Action Grad))
      → World Weight Grad Half
      → Outcome (World Weight Grad Half)
  unfolding iteration
  train adam group n half rounds first_step [] w = returns w
  train adam group n half rounds first_step (actions ∷ rest) w =
      elim (iteration adam group n half rounds first_step actions w) [
        | blocks ↦ blocks
        | raises e ↦ raises e
        | returns v ↦ train adam group n half rounds false rest v
      ]
