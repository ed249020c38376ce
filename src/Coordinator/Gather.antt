-- ===== src/Coordinator/Gather.antt =====
-- The registry of parameters in flight: what it says of the parameters and the handles, and that
-- `__all_gather_params` starts exactly the gathers that are missing.
use understanding_smartnic.Prelude.{
  ℕ, ◌<◌, ◌≡◌, ◌≢◌, inl, inr, refl, ◌∙◌, List, [], ◌∷◌, none, some, true, false, if◌then◌else◌, ok,
  is_in, Distinct, Distinct-ne, is_in-cons, is_in-head, Bool-cases, Option-cases, ◌&&◌, arith,
}
use native.Mathlib.Decide.{ℕ_discrete}
use understanding_smartnic.Partition.{ZeroParamStatus, available, not_available, inflight}
use understanding_smartnic.Coordinator.{Param, Handle, single, coalesced, Coordinator}
use understanding_smartnic.Coordinator.Fetch.{
  lookup, set_status, mark_inflight, register, partitioned, complete, is_not_available,
}

-- What a registered handle tells of the parameter: a single gather is under way; so are all those of
-- a coalesced one, which are registered with it; or it has been waited for.
abbrev pub Good : (ℕ → Param) → List (ℕ × ℕ) → ℕ → ℕ → Handle → Type 0
Good h reg p n (single q) = (q ≡ p) × ((h p).status ≡ inflight)
Good h reg p n (coalesced ps true) = (h p).status ≡ available
Good h reg p n (coalesced ps false) =
    (is_in p ps ≡ true)
    × Distinct ps
    × ((q : ℕ) → is_in q ps ≡ true → ((h q).status ≡ inflight) × (lookup q reg ≡ some n))

-- Every parameter in flight is registered, and every registered handle tells the truth and is old.
abbrev pub IsCoherent : Coordinator → Type 0
IsCoherent c =
    ((p : ℕ)
      → (c.params p).status ≡ inflight
      → (n : ℕ) × (lookup p c.inflight_param_registry ≡ some n))
    × ((p n : ℕ)
        → lookup p c.inflight_param_registry ≡ some n
        → (n < c.next_handle) × Good c.params c.inflight_param_registry p n (c.handles n))

-- Parameters of a list with their status set.
abbrev pub Marked : ZeroParamStatus → List ℕ → (ℕ → Param) → (ℕ → Param) → Type 0
Marked s ps h h' = (q : ℕ) → h' q ≡ (if is_in q ps then record (h q) { status = s } else h q)

Marked-cons :
    (s : ZeroParamStatus) (p : ℕ) (ps : List ℕ) (h h' : ℕ → Param)
    → is_in p ps ≡ false
    → Marked s ps (set_status p s h) h'
    → Marked s (p ∷ ps) h h'
Marked-cons s p ps h h' n m q = elim (ℕ_discrete q p) [
  | yes e ↦ m q ∙ (rw (e, n) (ground arith))
  | no k ↦ m q ∙ ground arith
]

-- The status of a later member is not changed with the head's.
status-later :
    (s s' : ZeroParamStatus) (p : ℕ) (ps : List ℕ) (h : ℕ → Param)
    → Distinct (p ∷ ps)
    → ((q : ℕ) → is_in q (p ∷ ps) ≡ true → (h q).status ≡ s)
    → (q : ℕ) → is_in q ps ≡ true
    → (set_status p s' h q).status ≡ s
status-later s s' p ps h d all q i =
    let k : q ≢ p = Distinct-ne p q ps d i in
    let e : (h q).status ≡ s = all q (is_in-cons q p ps i) in ground arith

pub mark_inflight_lem :
    (ps : List ℕ) (h : ℕ → Param)
    → Distinct ps
    → ((q : ℕ) → is_in q ps ≡ true → (h q).status ≡ not_available)
    → (h' : ℕ → Param) × (mark_inflight ps h ≡ ok h') × Marked inflight ps h h'
unfolding mark_inflight
mark_inflight_lem [] h d all = (h, refl, λ q. refl)
mark_inflight_lem (p ∷ ps) h d all =
    let (h', e, m) =
      mark_inflight_lem ps (set_status p inflight h) (d.1) (status-later _ _ p ps h d all) in
    (h', rw (all p (is_in-head p ps)) e, Marked-cons inflight p ps h h' (d.0) m)

pub complete_lem :
    (ps : List ℕ) (h : ℕ → Param)
    → Distinct ps
    → ((q : ℕ) → is_in q ps ≡ true → (h q).status ≡ inflight)
    → (h' : ℕ → Param) × (complete ps h ≡ ok h') × Marked available ps h h'
unfolding complete
complete_lem [] h d all = (h, refl, λ q. refl)
complete_lem (p ∷ ps) h d all =
    let (h', e, m) =
      complete_lem ps (set_status p available h) (d.1) (status-later _ _ p ps h d all) in
    (h', rw (all p (is_in-head p ps)) e, Marked-cons available p ps h h' (d.0) m)

-- The registry after `register`.
abbrev pub enlisted : List ℕ → ℕ → List (ℕ × ℕ) → List (ℕ × ℕ)
enlisted [] n reg = reg
enlisted (p ∷ ps) n reg = enlisted ps n ((p, n) ∷ reg)

pub lookup-enlisted :
    (q : ℕ) (ps : List ℕ) (n : ℕ) (reg : List (ℕ × ℕ))
    → lookup q (enlisted ps n reg) ≡ (if is_in q ps then some n else lookup q reg)
unfolding lookup
lookup-enlisted q [] n reg = refl
lookup-enlisted q (p ∷ ps) n reg = lookup-enlisted q ps n ((p, n) ∷ reg) ∙ ground arith

lookup-cons_ne : (q p n : ℕ) (reg : List (ℕ × ℕ)) → q ≢ p → lookup q ((p, n) ∷ reg) ≡ lookup q reg
unfolding lookup
lookup-cons_ne q p n reg k = ground arith

pub register_lem :
    (ps : List ℕ) (n : ℕ) (c : Coordinator)
    → Distinct ps
    → ((q : ℕ)
        → is_in q ps ≡ true
        → ((c.params q).status ≡ inflight) × (lookup q c.inflight_param_registry ≡ none))
    → register ps n c
      ≡ ok (record c { inflight_param_registry = enlisted ps n c.inflight_param_registry })
unfolding register
register_lem [] n c d all = refl
register_lem (p ∷ ps) n c d all =
    let (flying, free) = all p (is_in-head p ps) in
    rw (flying, free)
      (register_lem ps n (record c { inflight_param_registry = (p, n) ∷ c.inflight_param_registry })
        (d.1)
        (λ q i.
          let (f, l) = all q (is_in-cons q p ps i) in
          (f, lookup-cons_ne q p n c.inflight_param_registry (Distinct-ne p q ps d i) ∙ l)))

-- The parameters that `partitioned` selects.
pub is_in-partitioned :
    (h : ℕ → Param) (q : ℕ) (ps : List ℕ)
    → is_in q (partitioned h ps) ≡ (is_in q ps && is_not_available (h q).status)
unfolding partitioned
is_in-partitioned h q [] = refl
is_in-partitioned h q (p ∷ ps) = elim (ℕ_discrete q p) [
  | yes e ↦ rw e (ground (arith, is_in-partitioned h p ps))
  | no n ↦ ground (arith, is_in-partitioned h q ps)
]

pub Distinct-partitioned : (h : ℕ → Param) (ps : List ℕ) → Distinct ps → Distinct (partitioned h ps)
unfolding partitioned
Distinct-partitioned h [] d = tt
Distinct-partitioned h (p ∷ ps) d = elim (Bool-cases (is_not_available (h p).status)) [
  | inl e ↦ rw e (is_in-partitioned h p ps ∙ rw (d.0) refl, Distinct-partitioned h ps (d.1))
  | inr e ↦ rw e (Distinct-partitioned h ps (d.1))
]

pub is_not_available_eq : (s : ZeroParamStatus) → is_not_available s ≡ true → s ≡ not_available
is_not_available_eq not_available e = refl
is_not_available_eq available e = cc
is_not_available_eq inflight e = cc

-- Registered parameters are under way or available.
Good-gone :
    (h : ℕ → Param) (reg : List (ℕ × ℕ)) (p n : ℕ) (handle : Handle)
    → (h p).status ≡ not_available
    → ¬ Good h reg p n handle
Good-gone h reg p n (single q) e (_, f) = cc
Good-gone h reg p n (coalesced ps true) e f = cc
Good-gone h reg p n (coalesced ps false) e (i, d, f) = let (g, _) = f p i in cc

-- A parameter that is not available is not registered.
pub unregistered :
    (c : Coordinator) (p : ℕ)
    → IsCoherent c
    → (c.params p).status ≡ not_available
    → lookup p c.inflight_param_registry ≡ none
unregistered c p coherent gone = elim (Option-cases (lookup p c.inflight_param_registry)) [
  | inl e ↦ e
  | inr (n, e) ↦
      absurd
        (Good-gone c.params c.inflight_param_registry p n (c.handles n) gone ((coherent.1 p n e).1))
]
