-- ===== src/Coordinator/Quiet.antt =====
-- While a pass is recorded no gather is left in flight: fetching and releasing a submodule keep it so,
-- and leave the recording alone.
use understanding_smartnic.Prelude.{
  ℕ, suc, ◌≡◌, ◌≢◌, inl, inr, refl, sym, ◌∙◌, ap, List, [], ◌∷◌, none, Bool, true, false, not, ◌&&◌,
  ok, is_in, set_of, is_in-set_of, Distinct-set_of, Bool-cases, arith,
}
use native.Mathlib.Decide.{ℕ_discrete}
use understanding_smartnic.Partition.{available, not_available, inflight, is_available}
use understanding_smartnic.Coordinator.{Param, Module, Coordinator, record_mode, is_complete_trace}
use understanding_smartnic.Coordinator.Fetch.{lookup, set_status, fetch_sub_module}
use understanding_smartnic.Coordinator.Release.{
  is_idle, deactivate, release_param, release_all, release_sub_module,
}
use understanding_smartnic.Coordinator.Gather.{IsCoherent}
use understanding_smartnic.Coordinator.Started.{all_gather_params-started}
use understanding_smartnic.Coordinator.Fetched.{acquire_lem}
use understanding_smartnic.Coordinator.Ready.{gathered}
use understanding_smartnic.Coordinator.Untouched.{lookup-nil}
use understanding_smartnic.Coordinator.Settle.{inflight≢available, none≢some}

-- No gather is in flight.
abbrev pub IsQuiet : Coordinator → Type 0
IsQuiet c = (c.inflight_param_registry ≡ []) × ((q : ℕ) → (c.params q).status ≢ inflight)

IsQuiet→IsCoherent : (c : Coordinator) → IsQuiet c → IsCoherent c
unfolding lookup
IsQuiet→IsCoherent c (empty, still) = (
  (λ p f. absurd (still p f)),
  λ p n l.
      let nothing : lookup p c.inflight_param_registry ≡ none = rw empty refl in
      absurd (none≢some (sym nothing ∙ l)),
)

lookup-empty : (q : ℕ) → lookup q [] ≡ none
unfolding lookup
lookup-empty q = refl

not_available≢inflight : not_available ≢ inflight
not_available≢inflight e = cc

-- The recording is the same.
abbrev pub SameTrace : Coordinator → Coordinator → Type 0
SameTrace c d =
    (d.trace_mode ≡ c.trace_mode)
    × (d.submodule_order ≡ c.submodule_order)
    × (d.step_id_module_fetched_for ≡ c.step_id_module_fetched_for)

-- Fetching a submodule in a pass that is recorded, with no gather in flight.
pub fetch_sub_module-IsQuiet :
    (query : ℕ → ℕ → Bool) (m : Module) (c : Coordinator)
    → IsQuiet c
    → c.trace_mode ≡ record_mode
    → (d : Coordinator) × (fetch_sub_module query m c ≡ ok d)
      × IsQuiet d
      × SameTrace c d
      × ((q : ℕ)
          → is_in q m.iter_params ≡ true
          → ((d.params q).status ≡ available) × (is_in m.id (d.params q).active ≡ true))
      × (d.step_id ≡ suc c.step_id)
unfolding fetch_sub_module
fetch_sub_module-IsQuiet query m c (empty, still) mode =
    let ps = set_of m.iter_params in
    let (d, run, good, params, count, d_mode, step, order, fetched, queue, recent, others) =
      all_gather_params-started ps c (IsQuiet→IsCoherent c (empty, still))
        (Distinct-set_of m.iter_params) in
    let here : (q : ℕ) → is_in q ps ≡ true → (d.params q).status ≢ not_available =
      λ q i. gathered c.params d.params q ps (params q) i in
    let (e, run', good', all, later, mode', step', (order', fetched', queue', recent', alone)) =
      acquire_lem query m.id ps d good here in
    let inside : (q : ℕ) → is_in q m.iter_params ≡ true → is_in q ps ≡ true =
      λ q i. is_in-set_of q m.iter_params ∙ i in
    let recording : is_complete_trace e ≡ false = ground (arith, mode' ∙ d_mode ∙ mode) in
    let nowhere : (q : ℕ) → lookup q e.inflight_param_registry ≡ none = λ q.
      elim (Bool-cases (is_in q ps)) [
        | inl i ↦ alone q (inr i)
        | inr i ↦ alone q (inl (others q i ∙ rw empty (lookup-empty q)))
      ] in
    let stopped : (q : ℕ) → (e.params q).status ≢ inflight = λ q f. elim (Bool-cases (is_in q ps)) [
      | inl i ↦ inflight≢available (sym f ∙ (all q i).0)
      | inr i ↦
          let same : d.params q ≡ c.params q = params q ∙ rw i refl in
          still q (ap (λ x. x.status) (sym same) ∙ (later q).3 f)
    ] in
    (
      record e { step_id = suc e.step_id },
      rw (run, run', recording) refl,
      (lookup-nil e.inflight_param_registry nowhere, stopped),
      (mode' ∙ d_mode, order' ∙ order, fetched' ∙ fetched),
      (λ q i. all q (inside q i)),
      ap suc (step' ∙ step),
    )

status-deactivate : (m p : ℕ) (h : ℕ → Param) (q : ℕ) → (deactivate m p h q).status ≡ (h q).status
status-deactivate m p h q = elim (ℕ_discrete q p) [
  | yes e ↦ rw e (ground arith)
  | no n ↦ ground arith
]

-- A release ends no gather and starts none.
release_param-still :
    (p : ℕ) (c : Coordinator)
    → ((q : ℕ) → (c.params q).status ≢ inflight)
    → (q : ℕ) → ((release_param p c).params q).status ≢ inflight
unfolding release_param
release_param-still p c still q f =
    elim (Bool-cases (is_available (c.params p).status && is_idle (c.params p).active)) [
      | inr e ↦ still q (rw e at f)
      | inl e ↦ elim (ℕ_discrete q p) [
        | yes k ↦
            let gone : (set_status p not_available c.params q).status ≡ not_available =
              rw k (ground arith) in
            not_available≢inflight (sym gone ∙ rw e at f)
        | no k ↦
            let same : (set_status p not_available c.params q).status ≡ (c.params q).status =
              ground arith in
            still q (sym same ∙ rw e at f)
      ]
    ]

release_param-SameTrace :
    (p : ℕ) (c : Coordinator)
    → SameTrace c (release_param p c)
      × ((release_param p c).inflight_param_registry ≡ c.inflight_param_registry)
      × ((release_param p c).step_id ≡ c.step_id)
unfolding release_param
release_param-SameTrace p c =
    elim (Bool-cases (is_available (c.params p).status && is_idle (c.params p).active)) [
      | inl e ↦ rw e ((refl, refl, refl), refl, refl)
      | inr e ↦ rw e ((refl, refl, refl), refl, refl)
    ]

-- What the release of parameters keeps.
abbrev Kept : Coordinator → Coordinator → Type 0
Kept c d = IsQuiet d × SameTrace c d × (d.step_id ≡ c.step_id)

Kept-trans : (c d e : Coordinator) → Kept c d → Kept d e → Kept c e
Kept-trans c d e (quiet, (a, b, f), step) (quiet', (a', b', f'), step') =
    (quiet', (a' ∙ a, b' ∙ b, f' ∙ f), step' ∙ step)

release_all-Kept :
    (m : ℕ) (set ps : List ℕ) (c : Coordinator) → IsQuiet c → Kept c (release_all m set ps c)
unfolding release_all
release_all-Kept m set [] c quiet = (quiet, (refl, refl, refl), refl)
release_all-Kept m set (p ∷ ps) c (empty, still) =
    let d = record c { params = deactivate m p c.params } in
    let still' : (q : ℕ) → (d.params q).status ≢ inflight =
      λ q f. still q (sym (status-deactivate m p c.params q) ∙ f) in
    elim (Bool-cases (is_in p set && not (d.params p).external)) [
      | inr e ↦ rw (release_all, e) (release_all-Kept m set ps d (empty, still'))
      | inl e ↦
          let (same, reg, step) = release_param-SameTrace p d in
          let quiet : IsQuiet (release_param p d) = (reg ∙ empty, release_param-still p d still') in
          rw (release_all, e)
            (Kept-trans c (release_param p d) (release_all m set ps (release_param p d))
              (quiet, same, step) (release_all-Kept m set ps (release_param p d) quiet))
    ]

-- Releasing a submodule in a pass that is recorded.
pub release_sub_module-Kept :
    (m : Module) (c : Coordinator)
    → IsQuiet c
    → c.trace_mode ≡ record_mode
    → (d : Coordinator) × (release_sub_module m c ≡ ok d)
      × IsQuiet d
      × SameTrace c d
      × (d.step_id ≡ c.step_id)
unfolding release_sub_module
release_sub_module-Kept m c quiet mode =
    let (quiet', same, step) = release_all-Kept m.id (set_of m.iter_params) m.iter_params c quiet in
    let recording : is_complete_trace c ≡ false = ground (arith, mode) in
    (release_all m.id (set_of m.iter_params) m.iter_params c, rw recording refl, quiet', same, step)
