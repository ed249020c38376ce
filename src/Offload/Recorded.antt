-- ===== src/Offload/Recorded.antt =====
-- A pass through the hooks, while the trace is recorded.
use understanding_smartnic.Prelude.{
  ℕ, suc, ◌≡◌, refl, sym, ◌∙◌, ap, List, [], ◌∷◌, ◌++◌, Bool, true, false, Result, ok, ◌>>=◌, is_in,
  arith,
}
use mathlib.Core.List.{append-nil, append_assoc}
use understanding_smartnic.Partition.{available}
use understanding_smartnic.Coordinator.{
  Module, Coordinator, record_mode, complete_mode, trace_prologue, is_record_trace, reset_step,
  is_complete_trace,
}
use understanding_smartnic.Coordinator.Quiet.{
  IsQuiet, SameTrace, fetch_sub_module-IsQuiet, release_sub_module-Kept,
}
use understanding_smartnic.Coordinator.Trace.{
  Passed, IsRecording, positions, record_one, record_module_lem, put_positions, trace_from,
  reset_step-Passed,
}
use understanding_smartnic.Offload.{
  ZeroOffload, enter, pre_sub_module_forward_function, pre_sub_module_backward_function,
  post_sub_module_function,
}

-- The calls of the four functions that the hooks make, in the order in which torch makes them.
pub data Call : Type 0 where
  pre_forward pre_backward post : Module → Call

abbrev pub perform : (ℕ → ℕ → Bool) → Call → ZeroOffload → Result ZeroOffload
perform query (pre_forward m) s = pre_sub_module_forward_function query m s
perform query (pre_backward m) s = pre_sub_module_backward_function query m s
perform query (post m) s = post_sub_module_function m s

abbrev pub perform_all : (ℕ → ℕ → Bool) → List Call → ZeroOffload → Result ZeroOffload
perform_all query [] s = ok s
perform_all query (call ∷ calls) s = perform query call s >>= perform_all query calls

-- The submodules that run, forward and backward.
abbrev pub entered : List Call → List Module
entered [] = []
entered (pre_forward m ∷ calls) = m ∷ entered calls
entered (pre_backward m ∷ calls) = m ∷ entered calls
entered (post m ∷ calls) = entered calls

enter_lem :
    (query : ℕ → ℕ → Bool) (m : Module) (c : Coordinator)
    → IsQuiet c
    → c.trace_mode ≡ record_mode
    → (d : Coordinator) × (enter query m c ≡ ok d)
      × IsQuiet d
      × SameTrace (record_one m c) d
      × (d.step_id ≡ suc c.step_id)
      × ((q : ℕ)
          → is_in q m.iter_params ≡ true
          → ((d.params q).status ≡ available) × (is_in m.id (d.params q).active ≡ true))
unfolding enter trace_prologue
enter_lem query m c quiet mode =
    let (d, run, still, same, ready, step) =
      fetch_sub_module-IsQuiet query m (record_one m c) quiet mode in
    let open_trace : is_complete_trace c ≡ false = ground (arith, mode) in
    let recording : is_record_trace c ≡ true = ground (arith, mode) in
    (d, rw (open_trace, recording, record_module_lem m c mode, run) refl, still, same, step, ready)

-- The submodule that ran first, and those that followed.
Passed-cons :
    (m : Module) (ms : List Module) (c d e : Coordinator)
    → IsQuiet c
    → IsQuiet d
    → SameTrace (record_one m c) d
    → d.step_id ≡ suc c.step_id
    → Passed d ms e
    → Passed c (m ∷ ms) e
Passed-cons m ms c d e quiet quiet' (mode, order, fetched) step
      (e_mode, e_order, e_quiet, e_fetched) =
    (
      e_mode,
      e_order ∙ ap (λ o. o ++ ms) order ∙ append_assoc c.submodule_order (m ∷ []) ms,
      e_quiet ∙ quiet'.0 ∙ sym quiet.0,
      λ i.
          e_fetched i
          ∙ ap (λ f. f i ++ positions d.step_id ms i) fetched
          ∙ ap (λ k. (record_one m c).step_id_module_fetched_for i ++ positions k ms i) step
          ∙ put_positions m ms c i,
    )

Passed-same :
    (ms : List Module) (c d e : Coordinator)
    → IsQuiet c
    → IsQuiet d
    → SameTrace c d
    → d.step_id ≡ c.step_id
    → Passed d ms e
    → Passed c ms e
Passed-same ms c d e quiet quiet' (mode, order, fetched) step
      (e_mode, e_order, e_quiet, e_fetched) =
    (
      e_mode,
      e_order ∙ ap (λ o. o ++ ms) order,
      e_quiet ∙ quiet'.0 ∙ sym quiet.0,
      λ i.
          e_fetched i
          ∙ ap (λ f. f i ++ positions d.step_id ms i) fetched
          ∙ ap (λ k. c.step_id_module_fetched_for i ++ positions k ms i) step,
    )

enter-Passed :
    (query : ℕ → ℕ → Bool) (m : Module) (c : Coordinator)
    → IsQuiet c
    → c.trace_mode ≡ record_mode
    → (d : Coordinator) × (enter query m c ≡ ok d)
      × IsQuiet d
      × (d.trace_mode ≡ record_mode)
      × ((ms : List Module) (e : Coordinator) → Passed d ms e → Passed c (m ∷ ms) e)
enter-Passed query m c quiet mode =
    let (d, run, still, (d_mode, order, fetched), step, ready) = enter_lem query m c quiet mode in
    (
      d,
      run,
      still,
      d_mode ∙ mode,
      λ ms e p. Passed-cons m ms c d e quiet still (d_mode, order, fetched) step p,
    )

perform_all-Passed :
    (query : ℕ → ℕ → Bool) (calls : List Call) (s : ZeroOffload)
    → IsQuiet s.coordinator
    → s.coordinator.trace_mode ≡ record_mode
    → (t : ZeroOffload) × (perform_all query calls s ≡ ok t)
      × IsQuiet t.coordinator
      × Passed s.coordinator (entered calls) t.coordinator
unfolding pre_sub_module_forward_function pre_sub_module_backward_function post_sub_module_function
perform_all-Passed query [] s quiet mode = (
  s,
  refl,
  quiet,
  (
    mode,
    sym (append-nil s.coordinator.submodule_order),
    refl,
    λ i. sym (append-nil (s.coordinator.step_id_module_fetched_for i)),
  ),
)
perform_all-Passed query (pre_forward m ∷ calls) s quiet mode =
    let (d, run, still, d_mode, more) = enter-Passed query m s.coordinator quiet mode in
    let (t, rest, t_quiet, passed) =
      perform_all-Passed query calls
        (record s { coordinator = d; fwd_module_stack = m.id ∷ s.fwd_module_stack }) still d_mode in
    (t, rw run rest, t_quiet, more (entered calls) t.coordinator passed)
perform_all-Passed query (pre_backward m ∷ calls) s quiet mode =
    let (d, run, still, d_mode, more) = enter-Passed query m s.coordinator quiet mode in
    let (t, rest, t_quiet, passed) =
      perform_all-Passed query calls (record s { coordinator = d }) still d_mode in
    (t, rw run rest, t_quiet, more (entered calls) t.coordinator passed)
perform_all-Passed query (post m ∷ calls) s quiet mode =
    let (d, run, still, (d_mode, order, fetched), step) =
      release_sub_module-Kept m s.coordinator quiet mode in
    let (t, rest, t_quiet, passed) =
      perform_all-Passed query calls (record s { coordinator = d }) still (d_mode ∙ mode) in
    (
      t,
      rw run rest,
      t_quiet,
      Passed-same (entered calls) s.coordinator d t.coordinator quiet still (d_mode, order, fetched)
          step passed,
    )

-- The first pass, from the hooks to the trace: whatever submodules the hooks enter and leave, forward
-- and backward and in any order, from the start of a pass that is recorded and with no gather in
-- flight, every call returns, and the step that closes the pass, with the same orders on all ranks,
-- returns too. The trace is then complete; it has the submodules in the order in which they were
-- entered, and the queue of the parameters has theirs, sorted and with the true step of each.
pub perform_all-reset_step :
    (query : ℕ → ℕ → Bool) (calls : List Call) (s : ZeroOffload)
    → IsRecording s.coordinator
    → IsQuiet s.coordinator
    → (t : ZeroOffload) × (e : Coordinator) × (perform_all query calls s ≡ ok t)
      × (reset_step true t.coordinator ≡ ok e)
      × (e.trace_mode ≡ complete_mode)
      × (e.submodule_order ≡ entered calls)
      × (e.param_queue ≡ trace_from 0 (entered calls))
      × (e.step_id ≡ 0)
perform_all-reset_step query calls s start quiet =
    let (t, run, still, passed) = perform_all-Passed query calls s quiet (start.0) in
    let (e, reset, mode, order, params, queue, step) =
      reset_step-Passed (entered calls) s.coordinator t.coordinator start passed in
    (t, e, run, reset, mode, order, queue, step)
