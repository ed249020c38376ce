-- ===== src/Coordinator/Wait.antt =====
-- Waiting for a registered parameter keeps the registry coherent and makes the parameter available.
use understanding_smartnic.Prelude.{
  ℕ, suc, ◌≡◌, ◌≢◌, ◌⊎◌, inl, inr, refl, sym, ◌∙◌, ap, List, [], ◌∷◌, ◌++◌, none, some, Bool, true,
  false, ok, is_in, Bool-cases, Option-cases, arith,
}
use mathlib.Core.Path.{subst}
use native.Mathlib.Decide.{ℕ_discrete}
use understanding_smartnic.Partition.{ZeroParamStatus, available, not_available, inflight}
use understanding_smartnic.Coordinator.{Param, Handle, single, coalesced, Coordinator, put}
use understanding_smartnic.Coordinator.Fetch.{
  lookup, remove, set_status, complete, wait, await, sweep, pop_if_full,
}
use understanding_smartnic.Coordinator.Gather.{Good, IsCoherent, Marked, complete_lem}
use understanding_smartnic.Coordinator.Settle.{Ripe, settled, none≢some}
use understanding_smartnic.Coordinator.Untouched.{Untouched, removed, absent}

-- What waiting for a parameter with a handle achieves.
abbrev pub Settled : Coordinator → ℕ → Coordinator → Type 0
Settled c p d =
    IsCoherent d
    × ((d.params p).status ≡ available)
    × Ripe c.params d.params
    × (d.trace_mode ≡ c.trace_mode)
    × (d.step_id ≡ c.step_id)
    × (d.n_available_params ≡ c.n_available_params)
    × Untouched (p ∷ []) c d

-- The registry without the parameter.
abbrev taken : Coordinator → ℕ → Coordinator
taken c p = record c { inflight_param_registry = remove p c.inflight_param_registry }

put_self : (n : ℕ) (x : Handle) (hs : ℕ → Handle) → put n x hs n ≡ x
put_self n x hs = ground arith

put_ne : (n k : ℕ) (x : Handle) (hs : ℕ → Handle) → k ≢ n → put n x hs k ≡ hs k
put_ne n k x hs ne = ground arith

status-set_self :
    (p q : ℕ) (h : ℕ → Param) → q ≡ p → (set_status q available h p).status ≡ available
status-set_self p q h e = ground arith

set_status_ne : (q r : ℕ) (h : ℕ → Param) → r ≢ q → set_status q available h r ≡ h r
set_status_ne q r h ne = ground arith

Ripe-single :
    (p q : ℕ) (h : ℕ → Param) → q ≡ p → (h p).status ≡ inflight → Ripe h (set_status q available h)
Ripe-single p q h e f r = elim (ℕ_discrete r q) [
  | yes k ↦ inr (ap (λ x. (h x).status) (k ∙ e) ∙ f, rw k (ground arith))
  | no k ↦ inl (set_status_ne q r h k)
]

Ripe-Marked :
    (ps : List ℕ) (h h' : ℕ → Param)
    → Marked available ps h h'
    → ((q : ℕ) → is_in q ps ≡ true → (h q).status ≡ inflight)
    → Ripe h h'
Ripe-Marked ps h h' m all q = elim (Bool-cases (is_in q ps)) [
  | inl i ↦ inr (all q i, m q ∙ rw i refl)
  | inr i ↦ inl (m q ∙ rw i refl)
]

known :
    (c : Coordinator) (r n : ℕ) (handle : Handle)
    → IsCoherent c
    → lookup r c.inflight_param_registry ≡ some n
    → c.handles n ≡ handle
    → Good c.params c.inflight_param_registry r n handle
known c r n handle coherent l is =
    subst (λ x. Good c.params c.inflight_param_registry r n x) is ((coherent.1 r n l).1)

wait-single :
    (c : Coordinator) (p n q : ℕ)
    → c.handles n ≡ single q
    → wait n (taken c p) ≡ ok (record (taken c p) { params = set_status q available c.params })
unfolding wait
wait-single c p n q is = rw (wait, is) refl

wait_complete :
    (c : Coordinator) (p n : ℕ) (ps : List ℕ)
    → c.handles n ≡ coalesced ps true
    → wait n (taken c p) ≡ ok (taken c p)
unfolding wait
wait_complete c p n ps is = rw (wait, is) refl

wait-coalesced :
    (c : Coordinator) (p n : ℕ) (ps : List ℕ) (h : ℕ → Param)
    → c.handles n ≡ coalesced ps false
    → complete ps c.params ≡ ok h
    → wait n (taken c p)
      ≡ ok (record (taken c p) { params = h; handles = put n (coalesced ps true) c.handles })
unfolding wait
wait-coalesced c p n ps h is e = rw (wait, is, e) refl

wait_lem :
    (c : Coordinator) (p n : ℕ) (handle : Handle)
    → IsCoherent c
    → lookup p c.inflight_param_registry ≡ some n
    → c.handles n ≡ handle
    → Good c.params c.inflight_param_registry p n handle
    → (d : Coordinator) × (wait n (taken c p) ≡ ok d) × Settled c p d
wait_lem c p n (single q) coherent l is (e, f) =
    let h = set_status q available c.params in
    (
      record (taken c p) { params = h },
      wait-single c p n q is,
      (
        settled c p n h c.handles coherent l (Ripe-single p q c.params e f)
            (status-set_self p q c.params e)
            (λ r ne m. set_status_ne q r c.params (λ k. ne (k ∙ e))) (λ k ne. refl)
            (λ r ne m. absurd (ne (sym ((known c r n (single q) coherent m is).0) ∙ e))),
        status-set_self p q c.params e,
        Ripe-single p q c.params e f,
        refl,
        refl,
        refl,
        (refl, refl, refl, refl, removed p c.inflight_param_registry),
      ),
    )
wait_lem c p n (coalesced ps true) coherent l is f = (
  taken c p,
  wait_complete c p n ps is,
  (
    settled c p n c.params c.handles coherent l (λ q. inl refl) f (λ r ne m. refl) (λ k ne. refl)
        (λ r ne m.
          subst (λ x. Good c.params (remove p c.inflight_param_registry) r n x) (sym is)
            (known c r n (coalesced ps true) coherent m is)),
    f,
    (λ q. inl refl),
    refl,
    refl,
    refl,
    (refl, refl, refl, refl, removed p c.inflight_param_registry),
  ),
)
wait_lem c p n (coalesced ps false) coherent l is (i, dist, all) =
    let flying : (q : ℕ) → is_in q ps ≡ true → (c.params q).status ≡ inflight =
      λ q j. (all q j).0 in
    let (h, e, m) = complete_lem ps c.params dist flying in
    let hs = put n (coalesced ps true) c.handles in
    let arrived : (r : ℕ) → is_in r ps ≡ true → (h r).status ≡ available =
      λ r j. ap (λ x. x.status) (m r) ∙ rw j refl in
    (
      record (taken c p) { params = h; handles = hs },
      wait-coalesced c p n ps h is e,
      (
        settled c p n h hs coherent l (Ripe-Marked ps c.params h m flying) (arrived p i)
            (λ r ne k. elim (Bool-cases (is_in r ps)) [
              | inl j ↦ absurd (k ((all r j).1))
              | inr j ↦ m r ∙ rw j refl
            ])
            (λ k ne. put_ne n k (coalesced ps true) c.handles ne)
            (λ r ne k.
              subst (λ x. Good h (remove p c.inflight_param_registry) r n x)
                (sym (put_self n (coalesced ps true) c.handles))
                (arrived r ((known c r n (coalesced ps false) coherent k is).0))),
        arrived p i,
        Ripe-Marked ps c.params h m flying,
        refl,
        refl,
        refl,
        (refl, refl, refl, refl, removed p c.inflight_param_registry),
      ),
    )

status-cases : (s : ZeroParamStatus) → (s ≡ available) ⊎ ((s ≡ not_available) ⊎ (s ≡ inflight))
status-cases available = inl refl
status-cases not_available = inr (inl refl)
status-cases inflight = inr (inr refl)

here_available :
    (c : Coordinator) (p : ℕ)
    → IsCoherent c
    → (c.params p).status ≢ not_available
    → lookup p c.inflight_param_registry ≡ none
    → (c.params p).status ≡ available
here_available c p coherent here free = elim (status-cases (c.params p).status) [
  | inl e ↦ e
  | inr (inl e) ↦ absurd (here e)
  | inr (inr e) ↦ let (n, l) = coherent.0 p e in absurd (none≢some (sym free ∙ l))
]

-- The state with the event of the wait.
abbrev awaited : (ℕ → ℕ → Bool) → Coordinator → Coordinator → Coordinator
awaited query c d = record d {
  ongoing_fetch_events = pop_if_full (sweep (query c.clock) c.ongoing_fetch_events) ++ d.clock ∷ [];
  clock = suc d.clock;
}

-- The body of the loop of `fetch_sub_module`, for a parameter that is in flight or available.
pub await_lem :
    (query : ℕ → ℕ → Bool) (p : ℕ) (c : Coordinator)
    → IsCoherent c
    → (c.params p).status ≢ not_available
    → (d : Coordinator) × (await query p c ≡ ok d) × Settled c p d
unfolding await
await_lem query p c coherent here = elim (Option-cases (lookup p c.inflight_param_registry)) [
  | inl e ↦ (
    c,
    rw (await, e) refl,
    (
      coherent,
      here_available c p coherent here e,
      (λ q. inl refl),
      refl,
      refl,
      refl,
      (refl, refl, refl, refl, absent p c.inflight_param_registry e),
    ),
  )
  | inr (n, e) ↦
      let (d, run, all) = wait_lem c p n (c.handles n) coherent e refl ((coherent.1 p n e).1) in
      (awaited query c d, rw (await, e, run) refl, all)
]
