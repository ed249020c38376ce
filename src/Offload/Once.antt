-- ===== src/Offload/Once.antt =====
-- However many tensors a submodule takes and gives, backward enters and leaves it once for a call.
use understanding_smartnic.Prelude.{
  ℕ, zero, suc, ◌-◌, ◌<◌, ◌≡◌, refl, sym, ◌∙◌, ap, some, Bool, true, false, ltb, Result, ok, err,
  ◌>>=◌, arith,
}
use native.Mathlib.Decide.{ℕ_discrete}
use understanding_smartnic.Coordinator.{Module, Coordinator, put}
use understanding_smartnic.Offload.{
  ModuleState, ZeroOffload, enter, pre_sub_module_backward_function, put_module, top_call, is_last,
  before_backward, run_before_backward_function,
}

-- A call, so many times.
abbrev pub times : ℕ → (ZeroOffload → Result ZeroOffload) → ZeroOffload → Result ZeroOffload
times zero call s = ok s
times (suc n) call s = call s >>= times n call

put_same : (k : ℕ) (f : ℕ → ModuleState) → put k (f k) f ≡ f
put_same k f = λ i j. at_ j i
  where
    at_ : (j : ℕ) → put k (f k) f j ≡ f j
    at_ j = elim (ℕ_discrete j k) [ yes e ↦ rw e (ground arith) | no n ↦ ground arith ]

put_self : (k : ℕ) (x : ModuleState) (f : ℕ → ModuleState) → put k x f k ≡ x
put_self k x f = ground arith

-- The state of a submodule whose forward call is on the stack and has been handled.
abbrev IsHandled : ℕ → ModuleState → Type 0
IsHandled call x =
    (top_call x.fwd_call_stack ≡ some call)
    × (x.bwd_active_call ≡ some call)
    × (x.last_bwd_pre_call ≡ some call)

-- Another callback for a handled call changes nothing.
run_before_backward_function-IsHandled :
    (query : ℕ → ℕ → Bool) (m : Module) (s : ZeroOffload) (call : ℕ)
    → IsHandled call (s.modules m.id)
    → run_before_backward_function query m s ≡ ok s
unfolding run_before_backward_function
run_before_backward_function-IsHandled query m s call (top, active, last) =
    let x = s.modules m.id in
    let again : ModuleState = record x {
      bwd_active_call = top_call x.fwd_call_stack;
      last_bwd_pre_call = some call;
    } in
    let as_before : again ≡ x =
      ap (λ o. record x { bwd_active_call = o; last_bwd_pre_call = some call }) (top ∙ sym active)
      ∙ ap (λ o. record x { last_bwd_pre_call = o }) (sym last) in
    let same : put_module m again s ≡ s =
      ap (λ y. put_module m y s) as_before
      ∙ ap (λ f. record s { modules = f }) (put_same m.id s.modules) in
    elim (ℕ_discrete x.applied_pre_backward_ref_cnt 0) [
      | yes e ↦ rw e refl
      | no n ↦
          let counted : ltb 0 x.applied_pre_backward_ref_cnt ≡ true = ground arith in
          let seen : is_last (some call) call ≡ true = ground arith in
          rw (counted, top, last, seen) (ap ok same)
    ]

times-IsHandled :
    (query : ℕ → ℕ → Bool) (m : Module) (s : ZeroOffload) (call n : ℕ)
    → IsHandled call (s.modules m.id)
    → times n (run_before_backward_function query m) s ≡ ok s
times-IsHandled query m s call zero h = refl
times-IsHandled query m s call (suc n) h =
    rw (run_before_backward_function-IsHandled query m s call h)
      (times-IsHandled query m s call n h)

-- The state in which a submodule is entered for a call.
abbrev pub marked : Module → ℕ → ZeroOffload → ZeroOffload
marked m call s =
    put_module m
      (record (s.modules m.id) { bwd_active_call = some call; last_bwd_pre_call = some call }) s

IsHandled-put :
    (k call : ℕ) (x : ModuleState) (f : ℕ → ModuleState)
    → IsHandled call x
    → IsHandled call (put k x f k)
IsHandled-put k call x f h = rw (put_self k x f) h

-- What follows the entry, for what the entry gives.
abbrev left : Module → ℕ → ZeroOffload → Result Coordinator → Result ZeroOffload
left m call s r = (r >>= λ c. ok (record (marked m call s) { coordinator = c })) >>= λ t. ok (
    put_module m
      (record (t.modules m.id) {
        applied_pre_backward_ref_cnt = (t.modules m.id).applied_pre_backward_ref_cnt - 1;
      })
      t)

left_after :
    (query : ℕ → ℕ → Bool) (m : Module) (s : ZeroOffload) (call n : ℕ) (r : Result Coordinator)
    → top_call (s.modules m.id).fwd_call_stack ≡ some call
    → (left m call s r >>= times n (run_before_backward_function query m)) ≡ left m call s r
left_after query m s call n (err e) top = refl
left_after query m s call n (ok c) top =
    let x = s.modules m.id in
    let entered : ModuleState = record x {
      bwd_active_call = some call;
      last_bwd_pre_call = some call;
    } in
    let now = put m.id entered s.modules in
    let counted : ModuleState = record (now m.id) {
      applied_pre_backward_ref_cnt = (now m.id).applied_pre_backward_ref_cnt - 1;
    } in
    times-IsHandled query m (record s { coordinator = c; modules = put m.id counted now }) call n
      (IsHandled-put m.id call counted now
        (IsHandled-put m.id call entered s.modules (top, refl, refl)))

first-before_backward :
    (query : ℕ → ℕ → Bool) (m : Module) (s : ZeroOffload) (call : ℕ)
    → top_call (s.modules m.id).fwd_call_stack ≡ some call
    → is_last (s.modules m.id).last_bwd_pre_call call ≡ false
    → 0 < (s.modules m.id).applied_pre_backward_ref_cnt
    → run_before_backward_function query m s ≡ before_backward query m (marked m call s)
unfolding run_before_backward_function
first-before_backward query m s call top fresh counted =
    let x = s.modules m.id in
    let some_left : ltb 0 x.applied_pre_backward_ref_cnt ≡ true = ground arith in
    rw (some_left, top, fresh)
      (ap
        (λ o.
          before_backward query m
            (put_module m (record x { bwd_active_call = o; last_bwd_pre_call = some call }) s))
        top)

before_backward-times :
    (query : ℕ → ℕ → Bool) (m : Module) (s : ZeroOffload) (call n : ℕ)
    → top_call (s.modules m.id).fwd_call_stack ≡ some call
    → (before_backward query m (marked m call s) >>= times n (run_before_backward_function query m))
      ≡ before_backward query m (marked m call s)
unfolding before_backward pre_sub_module_backward_function
before_backward-times query m s call n top =
    left_after query m s call n (enter query m s.coordinator) top

-- When a forward call of a submodule is on top of its stack and has not been handled, and some tensor
-- of its output is counted, then the first callback of backward enters the submodule, and however many
-- callbacks follow for the same call, they change nothing: all of them together do what entering the
-- submodule once does, its errors included.
pub times-before_backward :
    (query : ℕ → ℕ → Bool) (m : Module) (s : ZeroOffload) (call n : ℕ)
    → top_call (s.modules m.id).fwd_call_stack ≡ some call
    → is_last (s.modules m.id).last_bwd_pre_call call ≡ false
    → 0 < (s.modules m.id).applied_pre_backward_ref_cnt
    → times (suc n) (run_before_backward_function query m) s
      ≡ before_backward query m (marked m call s)
times-before_backward query m s call n top fresh counted =
    ap (λ r. r >>= times n (run_before_backward_function query m))
      (first-before_backward query m s call top fresh counted)
    ∙ before_backward-times query m s call n top
