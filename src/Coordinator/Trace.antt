-- ===== src/Coordinator/Trace.antt =====
-- The trace: what a recorded pass becomes at `reset_step`.
use understanding_smartnic.Prelude.{
  ℕ, suc, ◌≡◌, ◌≢◌, refl, sym, ◌∙◌, ap, List, [], ◌∷◌, ◌++◌, Bool, true, ◌==◌, if◌then◌else◌,
  Result, ok, err, ◌>>=◌, pos, runtime_error, ◌⊎◌, inl, inr, arith,
}
use mathlib.Core.List.{append-nil, append_assoc}
use native.Mathlib.Decide.{ℕ_discrete}
use understanding_smartnic.Coordinator.{
  Module, ParamInTrace, Coordinator, record_mode, complete_mode, entries, record_module, record_all,
  record_parameters, construct_parameter_trace_from_module_trace, reset_step, put, never,
}

-- A pass while recording: each submodule is recorded, and its fetch counts a step.
unfoldable pub record_pass : List Module → Coordinator → Result Coordinator
unfolding record_module
record_pass [] c = ok c
record_pass (m ∷ ms) c =
    record_module m c >>= λ d. record_pass ms (record d { step_id = suc d.step_id })

-- The parameters of the submodules with the steps at which these run.
unfoldable pub trace_from : ℕ → List Module → List ParamInTrace
trace_from k [] = []
trace_from k (m ∷ ms) = entries m k ++ trace_from (suc k) ms

-- The steps at which the submodule `i` runs.
abbrev pub positions : ℕ → List Module → ℕ → List ℕ
positions k [] i = []
positions k (m ∷ ms) i = if i == m.id then k ∷ positions (suc k) ms i else positions (suc k) ms i

-- A recording state: the steps of the submodules that are still to be listed.
abbrev Recorded : Coordinator → ℕ → List Module → Type 0
Recorded d k ms =
    (d.trace_mode ≡ record_mode) × ((i : ℕ) → d.step_id_module_fetched_for i ≡ positions k ms i)

abbrev pub Passed : Coordinator → List Module → Coordinator → Type 0
Passed c ms d =
    (d.trace_mode ≡ record_mode)
    × (d.submodule_order ≡ c.submodule_order ++ ms)
    × (d.inflight_param_registry ≡ c.inflight_param_registry)
    × ((i : ℕ)
        → d.step_id_module_fetched_for i
          ≡ c.step_id_module_fetched_for i ++ positions c.step_id ms i)

List-cases : (l : List (ℕ × ℕ)) → (l ≡ []) ⊎ ((x : ℕ × ℕ) × (xs : List (ℕ × ℕ)) × (l ≡ x ∷ xs))
List-cases [] = inl refl
List-cases (x ∷ xs) = inr (x, xs, refl)

==_refl : (n : ℕ) → (n == n) ≡ true
==_refl n = ground arith

-- What `record_module` and `record_parameters` do when they do not raise.
abbrev pub record_one : Module → Coordinator → Coordinator
record_one m c = record c {
  submodule_order = c.submodule_order ++ m ∷ [];
  step_id_module_fetched_for =
      put m.id (c.step_id_module_fetched_for m.id ++ c.step_id ∷ []) c.step_id_module_fetched_for;
}

pub record_module_lem :
    (m : Module) (c : Coordinator)
    → c.trace_mode ≡ record_mode
    → record_module m c ≡ ok (record_one m c)
unfolding record_module
record_module_lem m c mode = rw mode refl

abbrev list_one : Module → ℕ → List ℕ → Coordinator → Coordinator
list_one m step steps c = record c {
  param_order = c.param_order ++ entries m step;
  step_id_module_fetched_for = put m.id steps c.step_id_module_fetched_for;
}

record_parameters_lem :
    (m : Module) (c : Coordinator) (step : ℕ) (steps : List ℕ)
    → c.trace_mode ≡ record_mode
    → c.step_id_module_fetched_for m.id ≡ step ∷ steps
    → record_parameters m c ≡ ok (list_one m step steps c)
unfolding record_parameters
record_parameters_lem m c step steps mode e = ground arith

positions_self :
    (k : ℕ) (m : Module) (ms : List Module)
    → positions k (m ∷ ms) m.id ≡ k ∷ positions (suc k) ms m.id
positions_self k m ms = ground arith

pub put_positions :
    (m : Module) (ms : List Module) (c : Coordinator) (i : ℕ)
    → (record_one m c).step_id_module_fetched_for i ++ positions (suc c.step_id) ms i
      ≡ c.step_id_module_fetched_for i ++ positions c.step_id (m ∷ ms) i
put_positions m ms c i = elim (ℕ_discrete i m.id) [
  | yes e ↦
      rw (e, ==_refl m.id)
        (append_assoc (c.step_id_module_fetched_for m.id) (c.step_id ∷ [])
          (positions (suc c.step_id) ms m.id))
  | no n ↦ ground arith
]

next_positions :
    (k : ℕ) (m : Module) (ms : List Module) (c : Coordinator) (i : ℕ)
    → c.step_id_module_fetched_for i ≡ positions k (m ∷ ms) i
    → put m.id (positions (suc k) ms m.id) c.step_id_module_fetched_for i ≡ positions (suc k) ms i
next_positions k m ms c i e = elim (ℕ_discrete i m.id) [
  | yes h ↦ rw (h, ==_refl m.id) refl
  | no n ↦ ground arith
]

passed :
    (ms : List Module) (c : Coordinator)
    → c.trace_mode ≡ record_mode
    → (d : Coordinator) × (record_pass ms c ≡ ok d) × Passed c ms d
unfolding record_pass
passed [] c mode = (
  c,
  refl,
  (
    mode,
    sym (append-nil c.submodule_order),
    refl,
    λ i. sym (append-nil (c.step_id_module_fetched_for i)),
  ),
)
passed (m ∷ ms) c mode =
    let c1 = record_one m c in
    let ih = passed ms (record c1 { step_id = suc c1.step_id }) mode in
    (
      ih.0,
      rw (record_module_lem m c mode) ih.1,
      (
        ih.2.0,
        ih.2.1 ∙ append_assoc c.submodule_order (m ∷ []) ms,
        ih.2.2,
        λ i. ih.2.3 i ∙ put_positions m ms c i,
      ),
    )

listed :
    (ms : List Module) (k : ℕ) (c : Coordinator)
    → Recorded c k ms
    → (d : Coordinator) × (record_all ms c ≡ ok d)
      × (d.param_order ≡ c.param_order ++ trace_from k ms)
      × (d.submodule_order ≡ c.submodule_order)
unfolding record_all trace_from
listed [] k c h = (c, refl, sym (append-nil c.param_order), refl)
listed (m ∷ ms) k c h =
    let steps = positions (suc k) ms m.id in
    let c1 = list_one m k steps c in
    let ih = listed ms (suc k) c1 (h.0, λ i. next_positions k m ms c i (h.1 i)) in
    (
      ih.0,
      rw (record_parameters_lem m c k steps (h.0) (h.1 m.id ∙ positions_self k m ms)) ih.1,
      ih.2 ∙ append_assoc c.param_order (entries m k) (trace_from (suc k) ms),
      ih.3,
    )

-- A coordinator at the start of a pass that it records.
abbrev pub IsRecording : Coordinator → Type 0
IsRecording c =
    (c.trace_mode ≡ record_mode)
    × (c.submodule_order ≡ [])
    × ((i : ℕ) → c.step_id_module_fetched_for i ≡ [])
    × (c.step_id ≡ 0)
    × (c.inflight_param_registry ≡ [])

-- What `reset_step` leaves of a trace that it has completed.
abbrev closed : Coordinator → Coordinator
closed t = record t {
  trace_mode = complete_mode;
  param_queue = t.param_order;
  most_recent_step_id_param_fetched_for = never;
  step_id_module_fetched_for = λ m. [];
  step_id = 0;
  n_available_params = pos 0;
}

reset_step-closes :
    (d t : Coordinator)
    → d.trace_mode ≡ record_mode
    → d.inflight_param_registry ≡ []
    → record_all d.submodule_order (record d { param_order = [] }) ≡ ok t
    → reset_step true d ≡ ok (closed t)
unfolding reset_step construct_parameter_trace_from_module_trace
reset_step-closes d t mode quiet made = ground arith

-- The step that closes a recorded pass.
pub reset_step-Passed :
    (ms : List Module) (c d : Coordinator)
    → IsRecording c
    → Passed c ms d
    → (e : Coordinator) × (reset_step true d ≡ ok e)
      × (e.trace_mode ≡ complete_mode)
      × (e.submodule_order ≡ ms)
      × (e.param_order ≡ trace_from 0 ms)
      × (e.param_queue ≡ trace_from 0 ms)
      × (e.step_id ≡ 0)
reset_step-Passed ms c d (mode, order, fetched, zeroth, quiet)
      (d_mode, d_order, d_quiet, d_fetched) =
    let all : d.submodule_order ≡ ms = d_order ∙ ap (λ o. o ++ ms) order in
    let (t, made, t_params, t_order) =
      listed ms 0 (record d { param_order = [] })
        (
          d_mode,
          λ i.
              d_fetched i
              ∙ ap (λ l. l ++ positions c.step_id ms i) (fetched i)
              ∙ ap (λ k. positions k ms i) zeroth,
        ) in
    let listing : record_all d.submodule_order (record d { param_order = [] }) ≡ ok t =
      ap (λ o. record_all o (record d { param_order = [] })) all ∙ made in
    (
      closed t,
      reset_step-closes d t d_mode (d_quiet ∙ quiet) listing,
      refl,
      t_order ∙ all,
      t_params,
      t_params,
      refl,
    )

-- From the start of a pass, recording any submodules and then resetting, with no gather in flight
-- and the same orders on all ranks, succeeds: the trace is complete, it has the submodules in the
-- order in which they ran, and the order and the queue of the parameters are those submodules'
-- parameters, sorted and with the true step of each, however often a submodule ran.
pub reset_step-recorded :
    (ms : List Module) (c : Coordinator)
    → IsRecording c
    → (e : Coordinator) × ((record_pass ms c >>= reset_step true) ≡ ok e)
      × (e.trace_mode ≡ complete_mode)
      × (e.submodule_order ≡ ms)
      × (e.param_order ≡ trace_from 0 ms)
      × (e.param_queue ≡ trace_from 0 ms)
      × (e.step_id ≡ 0)
reset_step-recorded ms c start =
    let (d, run, done) = passed ms c (start.0) in
    let (e, reset, mode, order, params, queue, step) = reset_step-Passed ms c d start done in
    (e, rw run reset, mode, order, params, queue, step)

-- A step with a gather in flight is never closed, whatever the trace.
reset_step-inflight :
    (agrees : Bool) (c : Coordinator)
    → c.inflight_param_registry ≢ []
    → reset_step agrees c ≡ err runtime_error
unfolding reset_step
reset_step-inflight agrees c n = elim (List-cases c.inflight_param_registry) [
  | inl e ↦ absurd (n e)
  | inr (r, rs, e) ↦ ground arith
]
