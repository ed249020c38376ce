-- ===== src/Coordinator/Bounds.antt =====
-- The bounds of the prefetch and of the queue of events.
use understanding_smartnic.Prelude.{
  ℕ, suc, ◌+◌, ◌≤◌, ◌<◌, ◌≡◌, inl, inr, refl, ap, List, [], ◌∷◌, ◌++◌, Option, Bool, true, false,
  not, ◌&&◌, ok, length, length-append, is_in, Bool-cases, Option-cases, >>=-eq-ok, ℤ, pos,
  pos_part, neg_part, ltb_ℤ, ◌-ℤ◌, arith,
}
use mathlib.Core.Path.{subst}
use understanding_smartnic.Coordinator.{Param, ParamInTrace, Coordinator}
use understanding_smartnic.Coordinator.Fetch.{
  choose, prefetch_limit, numels, is_not_available, sweep, pop_if_full, max_ongoing_fetch_events,
  await, wait, lookup, remove,
}

not_ltb_ℤ : (b : ℕ) (z : ℤ) → ltb_ℤ (pos b) z ≡ false → pos_part z ≤ b + neg_part z
not_ltb_ℤ b z e = ground arith

prefetch_limit_le :
    (c : Coordinator)
    → pos_part (prefetch_limit c) ≤ c.prefetch_bucket_sz + neg_part (prefetch_limit c)
unfolding prefetch_limit
prefetch_limit_le c =
    let room = pos c.max_n_available_params -ℤ c.n_available_params in
    elim (Bool-cases (ltb_ℤ (pos c.prefetch_bucket_sz) room)) [
      | inl e ↦ rw e (omega arith)
      | inr e ↦ rw e (not_ltb_ℤ c.prefetch_bucket_sz room e)
    ]

below :
    (b numel m n : ℕ) (limit : ℤ)
    → pos_part limit ≤ b + neg_part limit
    → ltb_ℤ (pos numel) limit ≡ true
    → n ≤ m
    → numel + n < b + m
below b numel m n limit le e small = ground arith

-- The elements chosen, one parameter at a time.
choose-bounded :
    (h : ℕ → Param) (limit : ℤ) (b m : ℕ) (ts : List ParamInTrace) (recent : ℕ → Option ℕ)
    (set : List ℕ) (numel : ℕ)
    → ((p : ℕ) → (h p).numel ≤ m)
    → pos_part limit ≤ b + neg_part limit
    → numel < b + m
    → numels h set ≡ numel
    → (numels h (choose h limit ts recent set numel).chosen < b + m)
unfolding choose numels
choose-bounded h limit b m [] recent set numel small le k e = rw e k
choose-bounded h limit b m (t ∷ ts) recent set numel small le k e =
    elim (Bool-cases (ltb_ℤ (pos numel) limit)) [
      | inr f ↦ rw (f, e) k
      | inl f ↦ elim (Bool-cases (is_not_available (h t.param).status && not (is_in t.param set))) [
        | inl g ↦
            rw (f, g)
              (choose-bounded h limit b m ts _ _ _ small le
                (below b numel m (h t.param).numel limit le f (small t.param)) (omega arith))
        | inr g ↦ rw (f, g) (choose-bounded h limit b m ts _ _ _ small le k e)
      ]
    ]

-- The prefetch never chooses a bucket and a whole parameter more: with parameters of at most `m`
-- elements and a bucket that is not empty, the elements that one prefetch starts to gather are
-- fewer than the bucket's size plus `m`, whatever is available and whatever the queue holds.
pub prefetch-bounded :
    (c : Coordinator) (m : ℕ)
    → ((p : ℕ) → (c.params p).numel ≤ m)
    → 0 < c.prefetch_bucket_sz
    → numels c.params
        (choose c.params
          (prefetch_limit c)
          c.param_queue
          c.most_recent_step_id_param_fetched_for
          []
          0).chosen
      < c.prefetch_bucket_sz + m
unfolding numels
prefetch-bounded c m small enabled =
    choose-bounded c.params (prefetch_limit c) c.prefetch_bucket_sz m c.param_queue
      c.most_recent_step_id_param_fetched_for [] 0 small (prefetch_limit_le c) (omega arith) refl

length-sweep : (query : ℕ → Bool) (es : List ℕ) → length (sweep query es) ≤ length es
unfolding sweep
length-sweep query [] = omega arith
length-sweep query (e ∷ es) = ground (arith, length-sweep query es)

length-pop_if_full :
    (es : List ℕ)
    → length es ≤ max_ongoing_fetch_events + 1
    → length (pop_if_full es) ≤ max_ongoing_fetch_events
unfolding pop_if_full
length-pop_if_full [] h = omega arith
length-pop_if_full (e ∷ es) h = ground arith

ok-inj : {c d : Coordinator} → ok c ≡ ok d → c ≡ d
ok-inj e = cc

-- If the queue of events holds at most one more than its limit of 1024, as an empty one does, then
-- so does it after a wait for a parameter, whatever the events answer.
await-events :
    (query : ℕ → ℕ → Bool) (p : ℕ) (c d : Coordinator)
    → length c.ongoing_fetch_events ≤ max_ongoing_fetch_events + 1
    → await query p c ≡ ok d
    → length d.ongoing_fetch_events ≤ max_ongoing_fetch_events + 1
unfolding await
await-events query p c d h e = elim (Option-cases (lookup p c.inflight_param_registry)) [
  | inl free ↦
      let same : c ≡ d = ok-inj (rw (await, free) at e) in
      subst (λ x. length x.ongoing_fetch_events ≤ max_ongoing_fetch_events + 1) same h
  | inr (n, has) ↦
      let es = pop_if_full (sweep (query c.clock) c.ongoing_fetch_events) in
      let (t, run, last) =
        >>=-eq-ok
          (wait n (record c { inflight_param_registry = remove p c.inflight_param_registry }))
          (λ t. ok (record t { ongoing_fetch_events = es ++ t.clock ∷ []; clock = suc t.clock }))
          (rw (await, has) at e) in
      let short : length es ≤ max_ongoing_fetch_events =
        length-pop_if_full (sweep (query c.clock) c.ongoing_fetch_events)
          (omega (arith, length-sweep (query c.clock) c.ongoing_fetch_events)) in
      let room : length (es ++ t.clock ∷ []) ≤ max_ongoing_fetch_events + 1 =
        omega (arith, length-append es (t.clock ∷ [])) in
      subst (λ x. length x ≤ max_ongoing_fetch_events + 1)
        (ap (λ x. x.ongoing_fetch_events) (ok-inj last)) room
]
