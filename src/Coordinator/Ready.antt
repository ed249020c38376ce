-- ===== src/Coordinator/Ready.antt =====
-- `fetch_sub_module`: the prefetch, and what holds when the whole function returns.
use understanding_smartnic.Prelude.{
  ℕ, suc, ◌≡◌, ◌≢◌, ◌⊎◌, ◌↔◌, inl, inr, refl, sym, ◌∙◌, ap, List, [], ◌∷◌, Option, Bool, true,
  false, not, ◌&&◌, if◌then◌else◌, ltb, ok, err, runtime_error, length, is_in, set_of, is_same_set,
  is_in-set_of, Distinct, Distinct-set_of, Bool-cases, ℤ, pos, ltb_ℤ, arith,
}
use mathlib.Core.Bool.{true≢false}
use understanding_smartnic.Coordinator.Fetched.{acquire_lem}
use understanding_smartnic.Partition.{available, not_available, inflight}
use understanding_smartnic.Coordinator.{Param, Module, ParamInTrace, Coordinator, is_complete_trace}
use understanding_smartnic.Coordinator.Fetch.{
  choose, prefetch, prefetch_limit, advance_queue, fetch_sub_module, is_not_available, not_fetched,
  discard_queue,
}
use understanding_smartnic.Coordinator.Gather.{IsCoherent}
use understanding_smartnic.Coordinator.Started.{all_gather_params_lem, all_gather_params-started}
use understanding_smartnic.Coordinator.Expected.{
  Awaits, is_awaited, is_same_set-Awaits, Awaits-is_same_set,
}

-- The prefetch.
Distinct-chosen :
    (b : Bool) (x : ℕ) (set : List ℕ)
    → Distinct set
    → Distinct (if b && not (is_in x set) then x ∷ set else set)
Distinct-chosen false x set d = d
Distinct-chosen true x set d = elim (Bool-cases (is_in x set)) [
  | inl i ↦ rw i d
  | inr i ↦ rw i (i, d)
]

Distinct-choose :
    (h : ℕ → Param) (limit : ℤ) (ts : List ParamInTrace) (recent : ℕ → Option ℕ) (set : List ℕ)
    (numel : ℕ)
    → Distinct set
    → Distinct (choose h limit ts recent set numel).chosen
unfolding choose
Distinct-choose h limit [] recent set numel d = d
Distinct-choose h limit (t ∷ ts) recent set numel d = elim (Bool-cases (ltb_ℤ (pos numel) limit)) [
  | inr e ↦ rw e d
  | inl e ↦ rw e (
      Distinct-choose h limit ts _ _ _
        (Distinct-chosen (is_not_available (h t.param).status) t.param set d))
]

prefetch_lem :
    (c : Coordinator)
    → IsCoherent c
    → (d : Coordinator) × (prefetch c ≡ ok d)
      × IsCoherent d
      × ((q : ℕ) → (c.params q).status ≡ available → d.params q ≡ c.params q)
      × (d.step_id ≡ c.step_id)
unfolding prefetch
prefetch_lem c coherent = elim (Bool-cases (ltb 0 c.prefetch_bucket_sz)) [
  | inr e ↦ (c, rw e refl, coherent, (λ q f. refl), refl)
  | inl e ↦
      let s =
        choose c.params (prefetch_limit c) c.param_queue c.most_recent_step_id_param_fetched_for []
          0 in
      let (d, run, good, same, count, mode, step) =
        all_gather_params_lem s.chosen
          (record c { param_queue = s.queue; most_recent_step_id_param_fetched_for = s.recent })
          coherent
          (Distinct-choose c.params (prefetch_limit c) c.param_queue
            c.most_recent_step_id_param_fetched_for [] 0 tt) in
      (d, rw e run, good, (λ q f. same q ∙ ground (arith, f)), step)
]

-- The queue moves on, or it does not start with what is awaited.
advance_queue_lem :
    (ps : List ℕ) (c : Coordinator)
    → IsCoherent c
    → Distinct ps
    → ((d : Coordinator) × (advance_queue ps c ≡ ok d)
        × Awaits (is_awaited c.most_recent_step_id_param_fetched_for c.step_id ps) c.param_queue
        × IsCoherent d
        × ((q : ℕ) → (c.params q).status ≡ available → d.params q ≡ c.params q)
        × (d.step_id ≡ c.step_id))
      ⊎ ((¬ Awaits (is_awaited c.most_recent_step_id_param_fetched_for c.step_id ps) c.param_queue)
          × (advance_queue ps c ≡ err runtime_error))
unfolding advance_queue
advance_queue_lem ps c coherent dist =
    let recent = c.most_recent_step_id_param_fetched_for in
    let new = not_fetched recent c.step_id ps in
    let s = discard_queue (length new) c.param_queue recent [] in
    elim (Bool-cases (is_same_set s.chosen new)) [
      | inr e ↦ inr (
        (λ a. true≢false (sym (Awaits-is_same_set recent c.step_id ps c.param_queue dist a) ∙ e)),
        rw e refl,
      )
      | inl e ↦
          let (d, run, good, same, step) =
            prefetch_lem
              (record c { param_queue = s.queue; most_recent_step_id_param_fetched_for = s.recent })
              coherent in
          inl (
            d,
            rw e run,
            is_same_set-Awaits recent c.step_id ps c.param_queue dist e,
            good,
            same,
            step,
          )
    ]

inflight≢not_available : inflight ≢ not_available
inflight≢not_available e = cc

pub gathered :
    (h h' : ℕ → Param) (q : ℕ) (ps : List ℕ)
    → h' q ≡ (
        if is_in q ps && is_not_available (h q).status
        then record (h q) { status = inflight }
        else h q)
    → is_in q ps ≡ true
    → (h' q).status ≢ not_available
gathered h h' q ps e i = elim (Bool-cases (is_not_available (h q).status)) [
  | inl k ↦ λ f.
      let moved : h' q ≡ record (h q) { status = inflight } = e ∙ rw (i, k) refl in
      inflight≢not_available (sym (ap (λ x. x.status) moved) ∙ f)
  | inr k ↦ λ f.
      let same : h' q ≡ h q = e ∙ rw (i, k) refl in
      true≢false (sym (ap is_not_available (ap (λ x. x.status) (sym same) ∙ f)) ∙ k)
]

complete_same :
    (c e : Coordinator) (b : Bool)
    → e.trace_mode ≡ c.trace_mode
    → is_complete_trace e ≡ b
    → is_complete_trace c ≡ b
complete_same c e b mode k = rw mode at k

-- What a caller of `fetch_sub_module` gets.
abbrev pub Ready : Coordinator → Module → Coordinator → Type 0
Ready c m d =
    IsCoherent d
    × ((q : ℕ)
        → is_in q m.iter_params ≡ true
        → ((d.params q).status ≡ available) × (is_in m.id (d.params q).active ≡ true))
    × (d.step_id ≡ suc c.step_id)

-- The queue starts with entries of exactly those parameters of the submodule that were not met at
-- this step or later.
abbrev pub IsNext : Module → Coordinator → Type 0
IsNext m c =
    Awaits (is_awaited c.most_recent_step_id_param_fetched_for c.step_id m.iter_params)
      c.param_queue

-- The waits before the test change nothing that it reads.
IsNext-kept :
    (m : Module) (c e : Coordinator)
    → e.param_queue ≡ c.param_queue
    → e.most_recent_step_id_param_fetched_for ≡ c.most_recent_step_id_param_fetched_for
    → e.step_id ≡ c.step_id
    → Awaits
        (is_awaited e.most_recent_step_id_param_fetched_for e.step_id (set_of m.iter_params))
        e.param_queue
      ↔ IsNext m c
IsNext-kept m c e queue recent step =
    let same : (q : ℕ)
        → is_awaited e.most_recent_step_id_param_fetched_for e.step_id (set_of m.iter_params) q
          ≡ is_awaited c.most_recent_step_id_param_fetched_for c.step_id m.iter_params q =
      λ q. rw (is_in-set_of q m.iter_params, recent, step) refl in
    (
      λ a. (a.0, a.1, sym queue ∙ a.2, λ q. a.3 q ∙ same q),
      λ a. (a.0, a.1, queue ∙ a.2, λ q. a.3 q ∙ sym (same q)),
    )

-- Fetching a submodule in a coherent state, whichever gathers are in flight and whatever the events
-- answer, returns while the trace is not complete; with a complete trace it returns exactly when the
-- queue starts with entries of exactly those parameters of the submodule that were not met at this
-- step or later, and raises RuntimeError otherwise. When it returns, every parameter of the submodule
-- is available and has the submodule among its active ones, one step is counted, and the state is
-- coherent again.
pub fetch_sub_module_lem :
    (query : ℕ → ℕ → Bool) (m : Module) (c : Coordinator)
    → IsCoherent c
    → ((d : Coordinator) × (fetch_sub_module query m c ≡ ok d)
        × ((is_complete_trace c ≡ false) ⊎ IsNext m c)
        × Ready c m d)
      ⊎ ((is_complete_trace c ≡ true)
          × (¬ IsNext m c)
          × (fetch_sub_module query m c ≡ err runtime_error))
unfolding fetch_sub_module
fetch_sub_module_lem query m c coherent =
    let ps = set_of m.iter_params in
    let dist = Distinct-set_of m.iter_params in
    let (d, run, good, params, count, mode, step, order, fetched, queue, recent, others) =
      all_gather_params-started ps c coherent dist in
    let here : (q : ℕ) → is_in q ps ≡ true → (d.params q).status ≢ not_available =
      λ q i. gathered c.params d.params q ps (params q) i in
    let (e, run', good', all, later, mode', step', (order', fetched', queue', recent', alone)) =
      acquire_lem query m.id ps d good here in
    let next = IsNext-kept m c e (queue' ∙ queue) (recent' ∙ recent) (step' ∙ step) in
    let inside : (q : ℕ) → is_in q m.iter_params ≡ true → is_in q ps ≡ true =
      λ q i. is_in-set_of q m.iter_params ∙ i in
    elim (Bool-cases (is_complete_trace e)) [
      | inr k ↦ inl (
        record e { step_id = suc e.step_id },
        rw (run, run', k) refl,
        inl (complete_same c e false (mode' ∙ mode) k),
        (good', (λ q i. all q (inside q i)), ap suc (step' ∙ step)),
      )
      | inl k ↦ elim (advance_queue_lem ps e good' dist) [
        | inr (other, bad) ↦ inr (
          complete_same c e true (mode' ∙ mode) k,
          (λ a. other (next.1 a)),
          rw (run, run', k, bad) refl,
        )
        | inl (f, run'', first, good'', same, step'') ↦ inl (
          record f { step_id = suc f.step_id },
          rw (run, run', k, run'') refl,
          inr (next.0 first),
          (
            good'',
            (λ q i.
                let (there, active) = all q (inside q i) in
                (
                  ap (λ x. x.status) (same q there) ∙ there,
                  ap (λ x. is_in m.id x.active) (same q there) ∙ active,
                )),
            ap suc (step'' ∙ step' ∙ step),
          ),
        )
      ]
    ]
