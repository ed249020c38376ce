-- ===== src/Coordinator/Released.antt =====
-- The release of a submodule: parameters that others use stay.
use understanding_smartnic.Prelude.{
  ℕ, ◌≡◌, ◌≢◌, inl, inr, refl, sym, ◌∙◌, ap, List, [], ◌∷◌, Bool, true, false, not, ◌&&◌,
  if◌then◌else◌, ok, ◌>>=◌, is_in, discard, set_of, is_in-discard_ne, Bool-cases, arith,
}
use mathlib.Core.Bool.{true≢false}
use native.Mathlib.Decide.{ℕ_discrete}
use understanding_smartnic.Partition.{ZeroParamStatus, is_available}
use understanding_smartnic.Coordinator.{
  Param, Module, Coordinator, complete_mode, put, is_complete_trace,
}
use understanding_smartnic.Coordinator.Kept.{params_to_release_lem}
use understanding_smartnic.Coordinator.Release.{
  is_idle, release_param, deactivate, release_all, release_sub_module, params_to_release,
}

-- A parameter with a status and an active submodule.
abbrev pub Used : ℕ → ℕ → ZeroParamStatus → Coordinator → Type 0
Used q k s c = ((c.params q).status ≡ s) × (is_in k (c.params q).active ≡ true)

is_idle-false : (k : ℕ) (ms : List ℕ) → is_in k ms ≡ true → is_idle ms ≡ false
is_idle-false k [] e = cc
is_idle-false k (m ∷ ms) e = refl

and_right : (a : Bool) {b : Bool} → (a && b) ≡ true → b ≡ true
and_right true e = e
and_right false e = cc

put_ne : (p q : ℕ) (v : Param) (h : ℕ → Param) → q ≢ p → put p v h q ≡ h q
put_ne p q v h n = ground arith

put_eq : (p q : ℕ) (v : Param) (h : ℕ → Param) → q ≡ p → put p v h q ≡ v
put_eq p q v h e = ground arith

Used-put :
    (q k p : ℕ) (s : ZeroParamStatus) (c : Coordinator) (v : Param)
    → q ≢ p
    → Used q k s c
    → ((put p v c.params q).status ≡ s) × (is_in k (put p v c.params q).active ≡ true)
Used-put q k p s c v n (e, i) =
    let same = put_ne p q v c.params n in
    (ap (λ x. x.status) same ∙ e, ap (λ x. is_in k x.active) same ∙ i)

release_param-Used :
    (q k p : ℕ) (s : ZeroParamStatus) (c : Coordinator)
    → Used q k s c
    → Used q k s (release_param p c)
unfolding release_param
release_param-Used q k p s c (e, i) =
    elim (Bool-cases (is_available (c.params p).status && is_idle (c.params p).active)) [
      | inr f ↦ rw f (e, i)
      | inl f ↦ elim (ℕ_discrete q p) [
        | yes g ↦ absurd (
            true≢false (
              sym (and_right (is_available (c.params p).status) f)
              ∙ ap (λ x. is_idle (c.params x).active) (sym g)
              ∙ is_idle-false k (c.params q).active i))
        | no n ↦ rw f (Used-put q k p s c _ n (e, i))
      ]
    ]

deactivate-Used :
    (q k m p : ℕ) (s : ZeroParamStatus) (c : Coordinator)
    → k ≢ m
    → Used q k s c
    → Used q k s (record c { params = deactivate m p c.params })
deactivate-Used q k m p s c ne (e, i) = elim (ℕ_discrete q p) [
  | yes g ↦
      let same =
        put_eq p q (record (c.params p) { active = discard m (c.params p).active }) c.params g in
      (
        ap (λ x. x.status) same ∙ ap (λ x. (c.params x).status) (sym g) ∙ e,
        ap (λ x. is_in k x.active) same
            ∙ is_in-discard_ne m k (c.params p).active ne
            ∙ ap (λ x. is_in k (c.params x).active) (sym g)
            ∙ i,
      )
  | no n ↦
      Used-put q k p s c (record (c.params p) { active = discard m (c.params p).active }) n (e, i)
]

release_all-Used :
    (q k m : ℕ) (s : ZeroParamStatus) (set ps : List ℕ) (c : Coordinator)
    → k ≢ m
    → Used q k s c
    → Used q k s (release_all m set ps c)
unfolding release_all
release_all-Used q k m s set [] c ne u = u
release_all-Used q k m s set (p ∷ ps) c ne u =
    let d = record c { params = deactivate m p c.params } in
    let v = deactivate-Used q k m p s c ne u in
    elim (Bool-cases (is_in p set && not (d.params p).external)) [
      | inl e ↦
          rw (release_all, e)
            (release_all-Used q k m s set ps (release_param p d) ne
              (release_param-Used q k p s d v))
      | inr e ↦ rw (release_all, e) (release_all-Used q k m s set ps d ne v)
    ]

complete_eq : (c : Coordinator) → is_complete_trace c ≡ true → c.trace_mode ≡ complete_mode
complete_eq c e = ground arith

release_complete :
    (m : Module) (c : Coordinator) (set : List ℕ)
    → is_complete_trace c ≡ true
    → params_to_release m c.step_id c ≡ ok set
    → release_sub_module m c ≡ ok (release_all m.id set m.iter_params c)
unfolding release_sub_module
release_complete m c set e run =
    ap
      (λ b. (if b then params_to_release m c.step_id c else ok (set_of m.iter_params)) >>= λ s.
        ok (release_all m.id s m.iter_params c))
      e
    ∙ ap (λ r. r >>= λ s. ok (release_all m.id s m.iter_params c)) run

-- Releasing a submodule always returns, on a complete trace or not, and a parameter that another
-- submodule is using keeps its status and its place among that submodule's parameters.
pub release_sub_module-Used :
    (m : Module) (c : Coordinator) (q k : ℕ)
    → k ≢ m.id
    → is_in k (c.params q).active ≡ true
    → (d : Coordinator) × (release_sub_module m c ≡ ok d)
      × ((d.params q).status ≡ (c.params q).status)
      × (is_in k (d.params q).active ≡ true)
unfolding release_sub_module
release_sub_module-Used m c q k ne i = elim (Bool-cases (is_complete_trace c)) [
  | inl e ↦
      let (set, run, _) = params_to_release_lem m c.step_id c q (complete_eq c e) in
      let u = release_all-Used q k m.id (c.params q).status set m.iter_params c ne (refl, i) in
      (release_all m.id set m.iter_params c, release_complete m c set e run, u.0, u.1)
  | inr e ↦
      let u =
        release_all-Used q k m.id (c.params q).status (set_of m.iter_params) m.iter_params c ne
          (refl, i) in
      (release_all m.id (set_of m.iter_params) m.iter_params c, rw e refl, u.0, u.1)
]
