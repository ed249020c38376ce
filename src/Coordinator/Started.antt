-- ===== src/Coordinator/Started.antt =====
-- `__all_gather_params` keeps the registry coherent.
use understanding_smartnic.Prelude.{
  ℕ, suc, ◌<◌, ◌≡◌, ◌≢◌, inl, inr, refl, sym, ◌∙◌, ap, List, [], ◌∷◌, none, some, Bool, true, false,
  ◌==◌, ◌&&◌, if◌then◌else◌, ok, ◌>>=◌, is_in, sort, Distinct, Distinct-sort, is_in-sort,
  Bool-cases, pos, ◌+ℤ◌, arith,
}
use understanding_smartnic.Partition.{not_available, inflight}
use understanding_smartnic.Coordinator.{Param, Handle, single, coalesced, Coordinator, put}
use understanding_smartnic.Coordinator.Fetch.{
  lookup, mark_inflight, make_handle, all_gather_coalesced, register, partitioned, numels, kick_off,
  all_gather_params, is_not_available,
}
use understanding_smartnic.Coordinator.Gather.{
  Good, IsCoherent, Marked, mark_inflight_lem, enlisted, lookup-enlisted, register_lem,
  is_in-partitioned, Distinct-partitioned, is_not_available_eq, unregistered,
}

-- What a gather leaves as it was.
abbrev pub Frame : Coordinator → Coordinator → Type 0
Frame c d =
    (d.trace_mode ≡ c.trace_mode)
    × (d.step_id ≡ c.step_id)
    × (d.n_available_params ≡ c.n_available_params)
    × (d.submodule_order ≡ c.submodule_order)
    × (d.step_id_module_fetched_for ≡ c.step_id_module_fetched_for)
    × (d.param_queue ≡ c.param_queue)
    × (d.most_recent_step_id_param_fetched_for ≡ c.most_recent_step_id_param_fetched_for)

-- Parameters that are not gathered keep their state.
Good-keep :
    (h h' : ℕ → Param) (reg reg' : List (ℕ × ℕ)) (p n : ℕ) (handle : Handle)
    → ((r : ℕ) → (h r).status ≢ not_available → (h' r ≡ h r) × (lookup r reg' ≡ lookup r reg))
    → Good h reg p n handle
    → Good h' reg' p n handle
Good-keep h h' reg reg' p n (single q) same (e, f) =
    (e, ap (λ x. x.status) ((same p (λ k. cc)).0) ∙ f)
Good-keep h h' reg reg' p n (coalesced ps true) same f =
    ap (λ x. x.status) ((same p (λ k. cc)).0) ∙ f
Good-keep h h' reg reg' p n (coalesced ps false) same (i, d, all) = (
  i,
  d,
  λ q j. let (f, l) = all q j in let (x, y) = same q (λ k. cc) in (ap (λ z. z.status) x ∙ f, y ∙ l),
)

==_refl : (n : ℕ) → (n == n) ≡ true
==_refl n = ground arith

-- The new handle.
Good-new :
    (h : ℕ → Param) (reg : List (ℕ × ℕ)) (p n : ℕ) (ps : List ℕ)
    → is_in p ps ≡ true
    → Distinct ps
    → ((q : ℕ) → is_in q ps ≡ true → ((h q).status ≡ inflight) × (lookup q reg ≡ some n))
    → Good h reg p n (make_handle ps)
unfolding make_handle
Good-new h reg p n [] i d all = cc
Good-new h reg p n (q ∷ []) i d all = (ground (arith, i), (all p i).0)
Good-new h reg p n (q ∷ r ∷ ps) i d all = (i, d, all)

-- The state after a gather of `ps`.
abbrev started : List ℕ → (ℕ → Param) → Coordinator → Coordinator
started ps h c = record c {
  params = h;
  handles = put c.next_handle (make_handle (sort ps)) c.handles;
  next_handle = suc c.next_handle;
  inflight_param_registry = enlisted ps c.next_handle c.inflight_param_registry;
}

module _ (ps : List ℕ) (c : Coordinator) (h : ℕ → Param) (coherent : IsCoherent c)
    (marked : Marked inflight ps c.params h)
    (gone : (q : ℕ) → is_in q ps ≡ true → (c.params q).status ≡ not_available) where
  in_flight :
      (q : ℕ)
      → is_in q ps ≡ true
      → ((h q).status ≡ inflight)
        × (lookup q (enlisted ps c.next_handle c.inflight_param_registry) ≡ some c.next_handle)
  in_flight q i = (
    ap (λ x. x.status) (marked q) ∙ rw i refl,
    lookup-enlisted q ps c.next_handle c.inflight_param_registry ∙ rw i refl,
  )

  untouched :
      (q : ℕ)
      → is_in q ps ≡ false
      → (h q ≡ c.params q)
        × (lookup q (enlisted ps c.next_handle c.inflight_param_registry)
            ≡ lookup q c.inflight_param_registry)
  untouched q i = (
    marked q ∙ rw i refl,
    lookup-enlisted q ps c.next_handle c.inflight_param_registry ∙ rw i refl,
  )

  kept :
      (r : ℕ)
      → (c.params r).status ≢ not_available
      → (h r ≡ c.params r)
        × (lookup r (enlisted ps c.next_handle c.inflight_param_registry)
            ≡ lookup r c.inflight_param_registry)
  kept r n = elim (Bool-cases (is_in r ps)) [
    | inl i ↦ absurd (n (gone r i))
    | inr i ↦ untouched r i
  ]

  -- What the registry says of a parameter of the gather, and of any other.
  abbrev Told : ℕ → ℕ → Type 0
  Told q n =
      (n < suc c.next_handle)
      × Good h (enlisted ps c.next_handle c.inflight_param_registry) q n
          (put c.next_handle (make_handle (sort ps)) c.handles n)

  new : (q n : ℕ) → is_in q ps ≡ true → Distinct ps → some c.next_handle ≡ some n → Told q n
  new q n i d e =
      let k : n ≡ c.next_handle = cc in
      rw (k, ==_refl c.next_handle)
        (
          omega arith,
          Good-new h (enlisted ps c.next_handle c.inflight_param_registry) q c.next_handle (sort ps)
              (is_in-sort q ps ∙ i) (Distinct-sort ps d)
              (λ r j. in_flight r (sym (is_in-sort r ps) ∙ j)),
        )

  old : (q n : ℕ) → is_in q ps ≡ false → lookup q c.inflight_param_registry ≡ some n → Told q n
  old q n i l =
      let (k, good) = coherent.1 q n l in
      let e : (n == c.next_handle) ≡ false = ground arith in
      rw e (
        omega arith,
        Good-keep c.params h c.inflight_param_registry
            (enlisted ps c.next_handle c.inflight_param_registry) q n (c.handles n) kept good,
      )

  started-IsCoherent : Distinct ps → IsCoherent (started ps h c)
  started-IsCoherent d = (
    (λ q f. elim (Bool-cases (is_in q ps)) [
      | inl i ↦ (c.next_handle, (in_flight q i).1)
      | inr i ↦
          let (n, l) = coherent.0 q (ap (λ x. x.status) (sym ((untouched q i).0)) ∙ f) in
          (n, (untouched q i).1 ∙ l)
    ]),
    λ q n l. elim (Bool-cases (is_in q ps)) [
      | inl i ↦ new q n i d (sym ((in_flight q i).1) ∙ l)
      | inr i ↦ old q n i (sym ((untouched q i).1) ∙ l)
    ],
  )

started_run :
    (ps : List ℕ) (h : ℕ → Param) (c : Coordinator)
    → mark_inflight ps c.params ≡ ok h
    → Distinct ps
    → ((q : ℕ)
        → is_in q ps ≡ true
        → ((h q).status ≡ inflight) × (lookup q c.inflight_param_registry ≡ none))
    → (all_gather_coalesced ps c >>= λ r. register ps (r.0) (r.1)) ≡ ok (started ps h c)
unfolding all_gather_coalesced
started_run ps h c e d all = rw e (
    register_lem ps c.next_handle
      (record c {
        params = h;
        handles = put c.next_handle (make_handle (sort ps)) c.handles;
        next_handle = suc c.next_handle;
      })
      d all)

and_right : (a : Bool) {b : Bool} → (a && b) ≡ true → b ≡ true
and_right true e = e
and_right false e = cc

-- Starting the gathers of parameters that are not available.
pub kick_off_lem :
    (ps : List ℕ) (c : Coordinator)
    → IsCoherent c
    → Distinct ps
    → ((q : ℕ) → is_in q ps ≡ true → (c.params q).status ≡ not_available)
    → (d : Coordinator) × (kick_off ps c ≡ ok d)
      × IsCoherent d
      × Marked inflight ps c.params d.params
      × Frame c d
      × ((q : ℕ)
          → is_in q ps ≡ false
          → lookup q d.inflight_param_registry ≡ lookup q c.inflight_param_registry)
unfolding kick_off
kick_off_lem [] c coherent d gone =
    (c, refl, coherent, (λ q. refl), (refl, refl, refl, refl, refl, refl, refl), λ q i. refl)
kick_off_lem (p ∷ ps) c coherent d gone =
    let (h, e, m) = mark_inflight_lem (p ∷ ps) c.params d gone in
    (
      started (p ∷ ps) h c,
      started_run (p ∷ ps) h c e d (λ q i.
          ((in_flight (p ∷ ps) c h coherent m gone q i).0, unregistered c q coherent (gone q i))),
      started-IsCoherent (p ∷ ps) c h coherent m gone d,
      m,
      (refl, refl, refl, refl, refl, refl, refl),
      λ q i. (untouched (p ∷ ps) c h coherent m gone q i).1,
    )

-- Also, the recording and the queue stay and no other parameter is registered or taken from the registry.
pub all_gather_params-started :
    (ps : List ℕ) (c : Coordinator)
    → IsCoherent c
    → Distinct ps
    → (d : Coordinator) × (all_gather_params ps c ≡ ok d)
      × IsCoherent d
      × ((q : ℕ)
          → d.params q ≡ (
              if is_in q ps && is_not_available (c.params q).status
              then record (c.params q) { status = inflight }
              else c.params q))
      × (d.n_available_params
          ≡ c.n_available_params +ℤ pos (numels c.params (partitioned c.params ps)))
      × (d.trace_mode ≡ c.trace_mode)
      × (d.step_id ≡ c.step_id)
      × (d.submodule_order ≡ c.submodule_order)
      × (d.step_id_module_fetched_for ≡ c.step_id_module_fetched_for)
      × (d.param_queue ≡ c.param_queue)
      × (d.most_recent_step_id_param_fetched_for ≡ c.most_recent_step_id_param_fetched_for)
      × ((q : ℕ)
          → is_in q ps ≡ false
          → lookup q d.inflight_param_registry ≡ lookup q c.inflight_param_registry)
unfolding all_gather_params
all_gather_params-started ps c coherent dist =
    let ns = partitioned c.params ps in
    let c1 = record c { n_available_params = c.n_available_params +ℤ pos (numels c.params ns) } in
    let (d, e, good, m, (mode, step, count, order, fetched, queue, recent), others) =
      kick_off_lem ns c1 coherent (Distinct-partitioned c.params ps dist) (λ q i.
        is_not_available_eq (c.params q).status
          (and_right (is_in q ps) (sym (is_in-partitioned c.params q ps) ∙ i))) in
    (
      d,
      e,
      good,
      (λ q.
          m q
          ∙ ap (λ b. if b then record (c.params q) { status = inflight } else c.params q)
              (is_in-partitioned c.params q ps)),
      count,
      mode,
      step,
      order,
      fetched,
      queue,
      recent,
      λ q i. others q (is_in-partitioned c.params q ps ∙ rw i refl),
    )

-- `__all_gather_params` on a set, in a coherent state, always succeeds: the parameters of the set
-- that were not available are in flight, nothing else of any parameter changes, every parameter in
-- flight is registered, and the elements of those started are counted as available.
pub all_gather_params_lem :
    (ps : List ℕ) (c : Coordinator)
    → IsCoherent c
    → Distinct ps
    → (d : Coordinator) × (all_gather_params ps c ≡ ok d)
      × IsCoherent d
      × ((q : ℕ)
          → d.params q ≡ (
              if is_in q ps && is_not_available (c.params q).status
              then record (c.params q) { status = inflight }
              else c.params q))
      × (d.n_available_params
          ≡ c.n_available_params +ℤ pos (numels c.params (partitioned c.params ps)))
      × (d.trace_mode ≡ c.trace_mode)
      × (d.step_id ≡ c.step_id)
all_gather_params_lem ps c coherent dist =
    let (d, e, good, same, count, mode, step, order, fetched, queue, recent, others) =
      all_gather_params-started ps c coherent dist in
    (d, e, good, same, count, mode, step)
