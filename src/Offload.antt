-- ===== src/Offload.antt =====
-- src/smartnic_offload/parameter_offload.py, `ZeroOffload`: the hooks that torch runs around a
-- submodule and what they do with the coordinator. The model is training, so there is one coordinator.
-- NVTX ranges and the timing of phases are left out, as are outputs that are themselves parameters.
-- Offload/FullCopy.antt has the CPU copies of parameters. A call number of None is `none`, a stack has
-- its last element first.
pub mod Recorded
pub mod Once
pub mod FullCopy
pub mod Restored
pub mod Pooled
mod Tests
use understanding_smartnic.Prelude.{
  ℕ, suc, ◌+◌, ◌-◌, List, [], ◌∷◌, Option, none, some, Bool, true, false, ◌==◌, ltb, if◌then◌else◌,
  Result, ok, err, ◌>>=◌, index_error, ℤ, pos, negsuc, ◌+ℤ◌, ◌-ℤ◌,
}
use understanding_smartnic.Coordinator.{
  Module, Coordinator, put, is_record_trace, trace_prologue, record_module,
}
use understanding_smartnic.Coordinator.Fetch.{fetch_sub_module}
use understanding_smartnic.Coordinator.Release.{release_sub_module}

-- The attributes that the hooks keep on a submodule.
pub record ModuleState : Type 0 where
  pub call_counter : ℕ
  pub fwd_call_stack : List ℕ
  pub active_fwd_call : Option ℕ
  pub bwd_active_call : Option ℕ
  pub last_bwd_pre_call : Option ℕ
  pub applied_pre_backward_ref_cnt : ℕ
  pub ds_grads_remaining : ℤ

-- `_register_hooks_recursively`, what it sets on a submodule
abbrev pub registered : ModuleState
registered = record {
  call_counter = 0;
  fwd_call_stack = [];
  active_fwd_call = none;
  bwd_active_call = none;
  last_bwd_pre_call = none;
  applied_pre_backward_ref_cnt = 0;
  ds_grads_remaining = pos 0;
}

-- `ZeroOffload`, its coordinator, `FWD_MODULE_STACK` and the submodules by their id.
pub record ZeroOffload : Type 0 where
  pub coordinator : Coordinator
  pub fwd_module_stack : List ℕ
  pub modules : ℕ → ModuleState

-- The first lines of both `pre_sub_module` functions: the trace, and then the fetch.
unfoldable pub enter : (ℕ → ℕ → Bool) → Module → Coordinator → Result Coordinator
enter query m c = do
  d ← trace_prologue m c
  e ← if is_record_trace d then record_module m d else ok d
  fetch_sub_module query m e

-- `pre_sub_module_forward_function`
unfoldable pub pre_sub_module_forward_function :
    (ℕ → ℕ → Bool) → Module → ZeroOffload → Result ZeroOffload
unfolding enter
pre_sub_module_forward_function query m s = do
  c ← enter query m s.coordinator
  ok (record s { coordinator = c; fwd_module_stack = m.id ∷ s.fwd_module_stack })

-- `post_sub_module_forward_function`, `post_sub_module_backward_function`
unfoldable pub post_sub_module_function : Module → ZeroOffload → Result ZeroOffload
post_sub_module_function m s = do
  c ← release_sub_module m s.coordinator
  ok (record s { coordinator = c })

-- `pre_sub_module_backward_function`
unfoldable pub pre_sub_module_backward_function :
    (ℕ → ℕ → Bool) → Module → ZeroOffload → Result ZeroOffload
unfolding enter
pre_sub_module_backward_function query m s = do
  c ← enter query m s.coordinator
  ok (record s { coordinator = c })

abbrev pub put_module : Module → ModuleState → ZeroOffload → ZeroOffload
put_module m x s = record s { modules = put m.id x s.modules }

-- `_pre_forward_module_hook`
unfoldable pub pre_forward_module_hook : (ℕ → ℕ → Bool) → Module → ZeroOffload → Result ZeroOffload
unfolding pre_sub_module_forward_function
pre_forward_module_hook query m s =
    let x = s.modules m.id in
    let call_id = suc x.call_counter in
    pre_sub_module_forward_function query m (
      put_module m
        (record x {
          call_counter = call_id;
          active_fwd_call = some call_id;
          fwd_call_stack = call_id ∷ x.fwd_call_stack;
        })
        s)

-- `_post_forward_module_hook`
unfoldable pub post_forward_module_hook : Module → ZeroOffload → Result ZeroOffload
unfolding post_sub_module_function
post_forward_module_hook m s = elim s.fwd_module_stack [
  | [] ↦ err index_error
  | top ∷ rest ↦ post_sub_module_function m (record s { fwd_module_stack = rest })
]

-- `PreBackwardFunction.forward`, for one tensor of the output
abbrev pub pre_backward_applied : Module → ZeroOffload → ZeroOffload
pre_backward_applied m s =
    let x = s.modules m.id in
    put_module m (record x { applied_pre_backward_ref_cnt = suc x.applied_pre_backward_ref_cnt }) s

-- The last element of the stack of forward calls.
abbrev pub top_call : List ℕ → Option ℕ
top_call [] = none
top_call (c ∷ cs) = some c

-- `last == call_id`, of a call that is not None
abbrev pub is_last : Option ℕ → ℕ → Bool
is_last none call_id = false
is_last (some l) call_id = l == call_id

-- The end of `_run_before_backward_function`.
unfoldable pub before_backward : (ℕ → ℕ → Bool) → Module → ZeroOffload → Result ZeroOffload
unfolding pre_sub_module_backward_function
before_backward query m s = do
  t ← pre_sub_module_backward_function query m s
  let x = t.modules m.id
  ok (
      put_module m (record x { applied_pre_backward_ref_cnt = x.applied_pre_backward_ref_cnt - 1 })
        t)

-- `_run_before_backward_function`, which `PreBackwardFunction.backward` calls
unfoldable pub run_before_backward_function :
    (ℕ → ℕ → Bool) → Module → ZeroOffload → Result ZeroOffload
unfolding before_backward
run_before_backward_function query m s =
    let x = s.modules m.id in
    let call_id = top_call x.fwd_call_stack in
    let active = record x { bwd_active_call = call_id } in
    if ltb 0 x.applied_pre_backward_ref_cnt
    then elim call_id [
      | none ↦ before_backward query m (put_module m active s)
      | some c ↦
          if is_last x.last_bwd_pre_call c
          then ok (put_module m active s)
          else before_backward query m
              (put_module m (record active { last_bwd_pre_call = some c }) s)
    ]
    else ok s

-- `_post_backward_module_hook` before it looks at the inputs, and `PostBackwardFunction.forward` for
-- one of them
abbrev pub grads_reset : Module → ZeroOffload → ZeroOffload
grads_reset m s = put_module m (record (s.modules m.id) { ds_grads_remaining = pos 0 }) s

abbrev pub post_backward_applied : Bool → Module → ZeroOffload → ZeroOffload
post_backward_applied requires_grad m s =
    let x = s.modules m.id in
    if requires_grad
    then put_module m (record x { ds_grads_remaining = x.ds_grads_remaining +ℤ pos 1 }) s
    else s

abbrev pub is_zero : ℤ → Bool
is_zero (pos n) = n == 0
is_zero (negsuc n) = false

abbrev pub pop : List ℕ → List ℕ
pop [] = []
pop (c ∷ cs) = cs

-- `_run_after_backward_function`
unfoldable pub run_after_backward_function : Module → ZeroOffload → Result ZeroOffload
unfolding post_sub_module_function
run_after_backward_function m s =
    if is_zero (s.modules m.id).ds_grads_remaining
    then (do
      t ← post_sub_module_function m s
      let x = t.modules m.id
      ok (
          put_module m (record x { fwd_call_stack = pop x.fwd_call_stack; bwd_active_call = none })
            t))
    else ok s

-- `PostBackwardFunction.backward`
unfoldable pub post_backward_reached : Module → ZeroOffload → Result ZeroOffload
unfolding run_after_backward_function
post_backward_reached m s =
    let x = s.modules m.id in
    let t = put_module m (record x { ds_grads_remaining = x.ds_grads_remaining -ℤ pos 1 }) s in
    if is_zero (t.modules m.id).ds_grads_remaining then run_after_backward_function m t else ok t
