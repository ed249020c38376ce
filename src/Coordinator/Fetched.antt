-- ===== src/Coordinator/Fetched.antt =====
-- The loop of `fetch_sub_module` over the parameters that the submodule needs.
use understanding_smartnic.Prelude.{
  ℕ, ◌≡◌, ◌≢◌, inl, inr, refl, sym, ◌∙◌, ap, List, [], ◌∷◌, Bool, true, false, ◌==◌, ok, is_in, add,
  is_in-add_self, is_in-cons, is_in-head, arith,
}
use native.Mathlib.Decide.{ℕ_discrete}
use understanding_smartnic.Partition.{available, not_available, inflight}
use understanding_smartnic.Coordinator.{Param, Handle, single, coalesced, Coordinator}
use understanding_smartnic.Coordinator.Fetch.{activate, acquire}
use understanding_smartnic.Coordinator.Gather.{Good, IsCoherent}
use understanding_smartnic.Coordinator.Wait.{await_lem}
use understanding_smartnic.Coordinator.Settle.{Ripe}
use understanding_smartnic.Coordinator.Untouched.{Untouched, Untouched-nil, Untouched-cons}

Good-status :
    (h h' : ℕ → Param) (reg : List (ℕ × ℕ)) (p n : ℕ) (handle : Handle)
    → ((q : ℕ) → (h' q).status ≡ (h q).status)
    → Good h reg p n handle
    → Good h' reg p n handle
Good-status h h' reg p n (single q) same (e, f) = (e, same p ∙ f)
Good-status h h' reg p n (coalesced ps true) same f = same p ∙ f
Good-status h h' reg p n (coalesced ps false) same (i, d, all) =
    (i, d, λ q j. let (f, l) = all q j in (same q ∙ f, l))

status-activate : (m p : ℕ) (h : ℕ → Param) (q : ℕ) → (activate m p h q).status ≡ (h q).status
status-activate m p h q = elim (ℕ_discrete q p) [
  | yes e ↦ rw e (ground arith)
  | no n ↦ ground arith
]

activate-IsCoherent :
    (m p : ℕ) (c : Coordinator)
    → IsCoherent c
    → IsCoherent (record c { params = activate m p c.params })
activate-IsCoherent m p c coherent = (
  (λ q f. coherent.0 q (sym (status-activate m p c.params q) ∙ f)),
  λ q n l.
      let (old, good) = coherent.1 q n l in
      (
        old,
        Good-status c.params (activate m p c.params) c.inflight_param_registry q n (c.handles n)
            (status-activate m p c.params) good,
      ),
)

-- While a submodule is fetched, gathers arrive and submodules become active.
abbrev pub Later : (ℕ → Param) → (ℕ → Param) → Type 0
Later h h' =
    (q : ℕ)
    → (((h q).status ≢ not_available) → (h' q).status ≢ not_available)
      × (((h q).status ≡ available) → (h' q).status ≡ available)
      × ((m : ℕ) → is_in m (h q).active ≡ true → is_in m (h' q).active ≡ true)
      × (((h' q).status ≡ inflight) → (h q).status ≡ inflight)

available≢not_available : available ≢ not_available
available≢not_available e = cc

Later-trans : (h h' h'' : ℕ → Param) → Later h h' → Later h' h'' → Later h h''
Later-trans h h' h'' a b q = (
  (λ e. (b q).0 ((a q).0 e)),
  (λ e. (b q).1 ((a q).1 e)),
  (λ m i. (b q).2 m ((a q).2 m i)),
  λ e. (a q).3 ((b q).3 e),
)

Later-Ripe : (h h' : ℕ → Param) → Ripe h h' → Later h h'
Later-Ripe h h' ripe q = elim (ripe q) [
  | inl e ↦ (
    (λ n k. n (ap (λ x. x.status) (sym e) ∙ k)),
    (λ f. ap (λ x. x.status) e ∙ f),
    (λ m i. ap (λ x. is_in m x.active) e ∙ i),
    λ f. ap (λ x. x.status) (sym e) ∙ f,
  )
  | inr (f, e) ↦ (
    (λ n k. available≢not_available (ap (λ x. x.status) (sym e) ∙ k)),
    (λ k. ap (λ x. x.status) e),
    (λ m i. ap (λ x. is_in m x.active) e ∙ i),
    λ k. f,
  )
]

==_refl : (n : ℕ) → (n == n) ≡ true
==_refl n = ground arith

is_in-add : (k m : ℕ) (xs : List ℕ) → is_in k xs ≡ true → is_in k (add m xs) ≡ true
is_in-add k m xs i = ground (arith, i)

active-activate_self : (m p : ℕ) (h : ℕ → Param) → is_in m (activate m p h p).active ≡ true
active-activate_self m p h = rw (==_refl p) (is_in-add_self m (h p).active)

is_in-tail : (q p : ℕ) (ps : List ℕ) → q ≢ p → is_in q (p ∷ ps) ≡ true → is_in q ps ≡ true
is_in-tail q p ps n i = ground (arith, i)

active-activate :
    (m p : ℕ) (h : ℕ → Param) (q k : ℕ)
    → is_in k (h q).active ≡ true
    → is_in k (activate m p h q).active ≡ true
active-activate m p h q k i = elim (ℕ_discrete q p) [
  | yes e ↦
      let j : is_in k (h p).active ≡ true = ap (λ x. is_in k (h x).active) (sym e) ∙ i in
      rw e (rw (==_refl p) (is_in-add k m (h p).active j))
  | no n ↦ ground (arith, i)
]

Later-activate : (m p : ℕ) (h : ℕ → Param) → Later h (activate m p h)
Later-activate m p h q =
    let s = status-activate m p h q in
    ((λ n k. n (sym s ∙ k)), (λ f. s ∙ f), (λ k i. active-activate m p h q k i), λ f. sym s ∙ f)

-- The loop over the parameters of the submodule.
pub acquire_lem :
    (query : ℕ → ℕ → Bool) (m : ℕ) (ps : List ℕ) (c : Coordinator)
    → IsCoherent c
    → ((q : ℕ) → is_in q ps ≡ true → (c.params q).status ≢ not_available)
    → (d : Coordinator) × (acquire query m ps c ≡ ok d)
      × IsCoherent d
      × ((q : ℕ)
          → is_in q ps ≡ true
          → ((d.params q).status ≡ available) × (is_in m (d.params q).active ≡ true))
      × Later c.params d.params
      × (d.trace_mode ≡ c.trace_mode)
      × (d.step_id ≡ c.step_id)
      × Untouched ps c d
unfolding acquire
acquire_lem query m [] c coherent here = (
  c,
  refl,
  coherent,
  (λ q i. cc),
  (λ q. ((λ n. n), (λ e. e), (λ k i. i), λ f. f)),
  refl,
  refl,
  Untouched-nil c,
)
acquire_lem query m (p ∷ ps) c coherent here =
    let h1 = activate m p c.params in
    let c1 = record c { params = h1 } in
    let (d, run, (good, there, ripe, mode, step, count, alone)) =
      await_lem query p c1 (activate-IsCoherent m p c coherent)
        (λ e. here p (is_in-head p ps) (sym (status-activate m p c.params p) ∙ e)) in
    let soon : Later c.params d.params =
      Later-trans c.params h1 d.params (Later-activate m p c.params)
        (Later-Ripe h1 d.params ripe) in
    let (e, run', good', all, later, mode', step', rest) =
      acquire_lem query m ps d good (λ q i. (soon q).0 (here q (is_in-cons q p ps i))) in
    (
      e,
      rw (run, there) run',
      good',
      (λ q i. elim (ℕ_discrete q p) [
        | yes k ↦ (
          ap (λ x. (e.params x).status) k ∙ (later p).1 there,
          ap (λ x. is_in m (e.params x).active) k
              ∙ (later p).2 m
                  ((Later-Ripe h1 d.params ripe p).2 m (active-activate_self m p c.params)),
        )
        | no k ↦ all q (is_in-tail q p ps k i)
      ]),
      Later-trans c.params d.params e.params soon later,
      mode' ∙ mode,
      step' ∙ step,
      Untouched-cons p ps c d e alone rest,
    )
