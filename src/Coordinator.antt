-- ===== src/Coordinator.antt =====
-- src/smartnic_offload/partitioned_param_coordinator.py, class `PartitionedParameterCoordinator`:
-- its state, the parameters and the gathers that it acts on, and the recording of a trace. A
-- parameter is named by its `ds_id` and a submodule by its `id`; both are unique in the program.
-- Exceptions end the run, so an operation that raises returns no state.
pub mod Fetch
pub mod Release
pub mod Trace
pub mod Gather
pub mod Started
pub mod Settle
pub mod Wait
pub mod Fetched
pub mod Untouched
pub mod Expected
pub mod Quiet
pub mod Ready
pub mod Kept
pub mod Bounds
pub mod Released
pub mod Reset
mod Tests
use understanding_smartnic.Prelude.{
  ℕ, zero, suc, ◌+◌, ◌-◌, ◌<◌, List, [], ◌∷◌, ◌++◌, Option, none, some, Bool, true, false, not,
  ◌==◌, if◌then◌else◌, ltb, get_elem?, map, Result, ok, err, ◌>>=◌, ◌>>◌, guard, runtime_error,
  index_error, set_of, sort, is_in, ℤ, pos,
}
use understanding_smartnic.Partition.{ZeroParamStatus, available, not_available, inflight}

-- What the coordinator reads and writes of a parameter.
pub record Param : Type 0 where
  pub status : ZeroParamStatus
  pub numel : ℕ
  pub active : List ℕ
  pub persist : Bool
  pub external : Bool

-- A submodule: its id and its parameters in the order of `iter_params`, with repetitions.
pub record Module : Type 0 where
  pub id : ℕ
  pub iter_params : List ℕ

-- `__ParamInTrace`
pub record ParamInTrace : Type 0 where
  pub param : ℕ
  pub step_id_last_used_at : ℕ

-- `ZeRoTraceMode`
pub data ZeRoTraceMode : Type 0 where
  record_mode complete_mode invalid_mode : ZeRoTraceMode

-- `AllGatherHandle` and `AllGatherCoalescedHandle`, with the latter's `__complete`.
pub data Handle : Type 0 where
  single : ℕ → Handle
  coalesced : List ℕ → Bool → Handle

-- The coordinator, the parameters and the handles that live in the heap. In
-- `most_recent_step_id_param_fetched_for`, `none` is the default -1e10, and a `param_queue` of
-- None is empty, since it is only tested for being so. `clock` numbers the recorded events.
pub record Coordinator : Type 0 where
  pub params : ℕ → Param
  pub handles : ℕ → Handle
  pub next_handle : ℕ
  pub inflight_param_registry : List (ℕ × ℕ)
  pub step_id : ℕ
  pub trace_mode : ZeRoTraceMode
  pub submodule_order : List Module
  pub param_order : List ParamInTrace
  pub most_recent_step_id_param_fetched_for : ℕ → Option ℕ
  pub step_id_module_fetched_for : ℕ → List ℕ
  pub n_available_params : ℤ
  pub max_n_available_params : ℕ
  pub max_reuse_dist_in_numel : ℕ
  pub param_queue : List ParamInTrace
  pub prefetch_bucket_sz : ℕ
  pub ongoing_fetch_events : List ℕ
  pub clock : ℕ

-- A map with one key changed.
abbrev pub put {ℓ} : {A : Type ℓ} → ℕ → A → (ℕ → A) → ℕ → A
put k v f i = if i == k then v else f i

abbrev pub never : ℕ → Option ℕ
never p = none

-- `__init__`, over the parameters that there are
unfoldable pub init : ℕ → ℕ → ℕ → (ℕ → Param) → Coordinator
init prefetch_bucket_sz max_reuse max_available params = record {
  params = params;
  handles = λ h. coalesced [] true;
  next_handle = 0;
  inflight_param_registry = [];
  step_id = 0;
  trace_mode = record_mode;
  submodule_order = [];
  param_order = [];
  most_recent_step_id_param_fetched_for = never;
  step_id_module_fetched_for = λ m. [];
  n_available_params = pos 0;
  max_n_available_params = max_available;
  max_reuse_dist_in_numel = max_reuse;
  param_queue = [];
  prefetch_bucket_sz = prefetch_bucket_sz;
  ongoing_fetch_events = [];
  clock = 0;
}

abbrev pub is_complete_trace : Coordinator → Bool
is_complete_trace c = elim c.trace_mode [
  | record_mode ↦ false
  | complete_mode ↦ true
  | invalid_mode ↦ false
]

abbrev pub is_invalid_trace : Coordinator → Bool
is_invalid_trace c = elim c.trace_mode [
  | record_mode ↦ false
  | complete_mode ↦ false
  | invalid_mode ↦ true
]

abbrev pub is_record_trace : Coordinator → Bool
is_record_trace c = elim c.trace_mode [
  | record_mode ↦ true
  | complete_mode ↦ false
  | invalid_mode ↦ false
]

-- `_clear_trace_structures`
pub clear_trace_structures : Coordinator → Coordinator
clear_trace_structures c = record c {
  submodule_order = [];
  param_order = [];
  most_recent_step_id_param_fetched_for = never;
  param_queue = [];
}

-- `_invalidate_trace`
pub invalidate_trace : Coordinator → Result Coordinator
unfolding clear_trace_structures
invalidate_trace c = do
  guard (not (is_invalid_trace c)) runtime_error
  ok (clear_trace_structures (record c { trace_mode = invalid_mode }))

-- `trace_prologue`
unfoldable pub trace_prologue : Module → Coordinator → Result Coordinator
unfolding invalidate_trace
trace_prologue sub_module c =
    if is_complete_trace c
    then elim (get_elem? c.submodule_order c.step_id) [
      | none ↦ err index_error
      | some m ↦ if not (sub_module.id == m.id) then invalidate_trace c else ok c
    ]
    else ok c

-- `record_module`
pub record_module : Module → Coordinator → Result Coordinator
record_module sub_module c = do
  guard (is_record_trace c) runtime_error
  ok (record c {
    submodule_order = c.submodule_order ++ sub_module ∷ [];
    step_id_module_fetched_for =
        put sub_module.id (c.step_id_module_fetched_for sub_module.id ++ c.step_id ∷ [])
          c.step_id_module_fetched_for;
  })

-- The entries of one submodule in the trace of parameters.
abbrev pub entries : Module → ℕ → List ParamInTrace
entries sub_module step =
    map (λ p. record { param = p; step_id_last_used_at = step })
      (sort (set_of sub_module.iter_params))

-- `record_parameters`
pub record_parameters : Module → Coordinator → Result Coordinator
record_parameters sub_module c = do
  guard (is_record_trace c) runtime_error
  elim (c.step_id_module_fetched_for sub_module.id) [
    | [] ↦ err index_error
    | step ∷ steps ↦ ok (record c {
      param_order = c.param_order ++ entries sub_module step;
      step_id_module_fetched_for = put sub_module.id steps c.step_id_module_fetched_for;
    })
  ]

pub record_all : List Module → Coordinator → Result Coordinator
unfolding record_parameters
record_all [] c = ok c
record_all (m ∷ ms) c = record_parameters m c >>= record_all ms

-- `construct_parameter_trace_from_module_trace`
pub construct_parameter_trace_from_module_trace : Coordinator → Result Coordinator
unfolding record_all
construct_parameter_trace_from_module_trace c =
    record_all c.submodule_order (record c { param_order = [] })

-- `reset_step`; `agrees` is what `assert_ints_same_as_other_ranks` finds for the orders.
pub reset_step : Bool → Coordinator → Result Coordinator
unfolding construct_parameter_trace_from_module_trace
reset_step agrees c = do
  guard (elim c.inflight_param_registry [ [] ↦ true | r ∷ rs ↦ false ]) runtime_error
  d ← elim c.trace_mode [
    | complete_mode ↦ ok c
    | record_mode ↦ do
      guard agrees runtime_error
      t ← construct_parameter_trace_from_module_trace c
      ok (record t { trace_mode = complete_mode })
    | invalid_mode ↦ do guard agrees runtime_error; ok (record c { trace_mode = record_mode })
  ]
  ok (record d {
    param_queue = d.param_order;
    most_recent_step_id_param_fetched_for = never;
    step_id_module_fetched_for = λ m. [];
    step_id = 0;
    n_available_params = pos 0;
  })
