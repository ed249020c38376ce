-- ===== src/Offload/Tests.antt =====
-- Two submodules that share a parameter, in one training step.
use understanding_smartnic.Prelude.{
  ℕ, ◌≤◌, map, none, length, ◌≡◌, refl, List, [], ◌∷◌, some, true, false, ok, arith, ◌>>=◌, err,
  runtime_error,
}
use understanding_smartnic.Partition.{available, not_available}
use understanding_smartnic.Coordinator.{Param, Module, Coordinator, init, complete_mode, reset_step}
use understanding_smartnic.Coordinator.Trace.{trace_from}
use understanding_smartnic.Offload.{
  ModuleState, ZeroOffload, registered, before_backward, run_before_backward_function,
}
use understanding_smartnic.Offload.Recorded.{
  Call, pre_forward, pre_backward, post, perform_all, perform_all-reset_step,
}
use understanding_smartnic.Offload.FullCopy.{
  FullParam, CopyHandle, free, save, stash, synchronize, make_copies, gather_copies, wait_copies,
}
use understanding_smartnic.Offload.Restored.{saved, wait_copies-save}
use understanding_smartnic.Offload.Pooled.{
  start, next, saving, copying, freeing, stashing, gathering, gathered, Steps-one,
}
use understanding_smartnic.Offload.Once.{times, marked, times-before_backward}

abbrev weight : Param
weight = record {
  status = not_available;
  numel = 3;
  active = [];
  persist = false;
  external = false;
}

abbrev inner : Module
inner = record { id = 1; iter_params = 5 ∷ 4 ∷ [] }

abbrev outer : Module
outer = record { id = 0; iter_params = 5 ∷ [] }

abbrev offload : ZeroOffload
offload = record {
  coordinator = init 10 20 100 (λ p. weight);
  fwd_module_stack = 0 ∷ [];
  modules = λ i. registered;
}

-- The inner submodule runs inside the outer one, and backward goes the other way.
abbrev training : List Call
training =
    pre_forward outer
    ∷ pre_forward inner
    ∷ post inner
    ∷ post outer
    ∷ pre_backward outer
    ∷ pre_backward inner
    ∷ post inner
    ∷ post outer
    ∷ []

perform_all-reset_step_example :
    (t : ZeroOffload) × (e : Coordinator) × (perform_all (λ t e. true) training offload ≡ ok t)
    × (reset_step true t.coordinator ≡ ok e)
    × (e.trace_mode ≡ complete_mode)
    × (e.submodule_order ≡ outer ∷ inner ∷ outer ∷ inner ∷ [])
    × (e.param_queue ≡ trace_from 0 (outer ∷ inner ∷ outer ∷ inner ∷ []))
    × (e.step_id ≡ 0)
unfolding init
perform_all-reset_step_example =
    perform_all-reset_step (λ t e. true) training offload (refl, refl, (λ i. refl), refl, refl)
      (refl, λ q e. cc)

-- A submodule with two tensors in its output, in its third forward call.
abbrev called : ModuleState
called = record registered {
  call_counter = 3;
  fwd_call_stack = 3 ∷ [];
  active_fwd_call = some 3;
  last_bwd_pre_call = some 2;
  applied_pre_backward_ref_cnt = 2;
}

abbrev reached : ZeroOffload
reached = record offload { modules = λ i. called }

times-before_backward_example :
    times 2 (run_before_backward_function (λ t e. true) inner) reached
    ≡ before_backward (λ t e. true) inner (marked inner 3 reached)
times-before_backward_example =
    times-before_backward (λ t e. true) inner reached 3 1 refl refl (omega arith)

-- A parameter of two rows and two columns without CPU tensors, and one that kept one from before.
abbrev square : FullParam ℕ
square = record {
  ds_status = available;
  ds_numel = 4;
  ds_shape = 2 ∷ 2 ∷ [];
  tensor = record { contents = 1 ∷ 2 ∷ 3 ∷ 4 ∷ []; shape = 2 ∷ 2 ∷ []; dtype = 16 };
  cpu_full_param = none;
  cpu_full_param_pool = none;
  buffers = [];
  copies = [];
}

abbrev bias : FullParam ℕ
bias = record {
  ds_status = available;
  ds_numel = 1;
  ds_shape = 1 ∷ [];
  tensor = record { contents = 9 ∷ []; shape = 1 ∷ []; dtype = 16 };
  cpu_full_param = none;
  cpu_full_param_pool = some 0;
  buffers =
      record {
        array = record { contents = 7 ∷ []; shape = 1 ∷ []; dtype = 16 };
        on_cpu = true;
        is_pinned = true;
      }
      ∷ [];
  copies = [];
}

wait_copies-save_example :
    (h : CopyHandle ℕ) × (gather_copies true
        (map (λ p. synchronize (free (save (λ i. i) p))) (square ∷ bias ∷ []))
      ≡ ok (some h))
    × (wait_copies h ≡ (
      ok tt,
      record { params = map (saved (λ p i. i)) (square ∷ bias ∷ []); is_complete = true },
    ))
    × (map (λ p. p.tensor) (map (saved (λ p i. i)) (square ∷ bias ∷ []))
        ≡ square.tensor ∷ bias.tensor ∷ [])
wait_copies-save_example =
    wait_copies-save (λ p i. i) (square ∷ bias ∷ [])
      ((refl, refl, refl, refl), ((refl, refl, refl, refl), tt))

-- Nothing waits for the copy to the CPU: if it has not been made yet, the wait succeeds and restores
-- what the pooled tensor held before.
stale :
    (gather_copies true (free (save (λ i. i) bias) ∷ []) >>= λ h. elim h [
      | none ↦ err runtime_error
      | some c ↦ ok ((wait_copies c).1.params)
    ])
    ≡ ok (record (save (λ i. i) bias) { tensor = record bias.tensor { contents = 7 ∷ [] } } ∷ [])
unfolding gather_copies wait_copies save free
stale = refl

-- One copy of the parameter, and another in the next iteration, when it has other contents.
abbrev copied_once : FullParam ℕ
copied_once = make_copies 1 (save (λ i. i) square)

abbrev stashed : FullParam ℕ
stashed = stash (free copied_once)

abbrev changed : FullParam ℕ
changed = gathered (5 ∷ 6 ∷ 7 ∷ 8 ∷ []) stashed

abbrev copied_again : FullParam ℕ
copied_again = save (λ i. i) changed

Steps-one_example : length copied_again.buffers ≤ 1
unfolding save make_copies free stash
Steps-one_example = Steps-one square copied_again refl refl refl (
    next square _ _ (saving (λ i. i) refl) (
      next (save (λ i. i) square) _ _ (copying 1) (
        next copied_once _ _ freeing (
          next (free copied_once) _ _ stashing (
            next stashed _ _ (gathering (5 ∷ 6 ∷ 7 ∷ 8 ∷ []))
              (next changed _ _ (saving (λ i. i) refl) (start copied_again)))))))
