-- ===== src/Coordinator/Settle.antt =====
-- A registered parameter that is taken from the registry and has arrived: the registry stays coherent.
use understanding_smartnic.Prelude.{
  ℕ, ◌≡◌, ◌≢◌, ◌⊎◌, inl, inr, refl, sym, ◌∙◌, ap, List, [], ◌∷◌, none, some, true, false, arith,
}
use mathlib.Core.Path.{subst}
use native.Mathlib.Decide.{ℕ_discrete}
use understanding_smartnic.Partition.{available, inflight}
use understanding_smartnic.Coordinator.{Param, Handle, single, coalesced, Coordinator}
use understanding_smartnic.Coordinator.Fetch.{lookup, remove}
use understanding_smartnic.Coordinator.Gather.{Good, IsCoherent}

pub lookup-remove_self : (p : ℕ) (reg : List (ℕ × ℕ)) → lookup p (remove p reg) ≡ none
unfolding lookup remove
lookup-remove_self p [] = refl
lookup-remove_self p ((q, h) ∷ rs) = ground (arith, lookup-remove_self p rs)

pub lookup-remove_ne :
    (p q : ℕ) (reg : List (ℕ × ℕ)) → q ≢ p → lookup q (remove p reg) ≡ lookup q reg
unfolding lookup remove
lookup-remove_ne p q [] n = refl
lookup-remove_ne p q ((r, h) ∷ rs) n = ground (arith, lookup-remove_ne p q rs n)

pub inflight≢available : inflight ≢ available
inflight≢available e = cc

pub none≢some : {n : ℕ} → none ≢ some n
none≢some e = cc

some-inj : {m n : ℕ} → some m ≡ some n → m ≡ n
some-inj e = cc

-- Parameters only go from in flight to available.
abbrev pub Ripe : (ℕ → Param) → (ℕ → Param) → Type 0
Ripe h h' =
    (q : ℕ)
    → (h' q ≡ h q) ⊎ (((h q).status ≡ inflight) × (h' q ≡ record (h q) { status = available }))

-- The parameter `p` is taken from the registry where it has handle `n`, and waited for.
module _ (c : Coordinator) (p n : ℕ) (h : ℕ → Param) (hs : ℕ → Handle) (coherent : IsCoherent c)
    (registered : lookup p c.inflight_param_registry ≡ some n) (ripe : Ripe c.params h)
    (done : (h p).status ≡ available)
    (same : (r : ℕ) → r ≢ p → lookup r c.inflight_param_registry ≢ some n → h r ≡ c.params r)
    (others : (k : ℕ) → k ≢ n → hs k ≡ c.handles k)
    (mine : (q : ℕ)
      → q ≢ p
      → lookup q c.inflight_param_registry ≡ some n
      → Good h (remove p c.inflight_param_registry) q n (hs n)) where
  rest : (r k : ℕ) → lookup r c.inflight_param_registry ≡ some k → k ≢ n → r ≢ p
  rest r k l ne e =
      ne (some-inj (sym l ∙ ap (λ x. lookup x c.inflight_param_registry) e ∙ registered))

  still : (r k : ℕ) → lookup r c.inflight_param_registry ≡ some k → k ≢ n → h r ≡ c.params r
  still r k l ne = same r (rest r k l ne) (λ e. ne (some-inj (sym l ∙ e)))

  -- A parameter with another handle.
  Good-other :
      (q k : ℕ) (handle : Handle)
      → lookup q c.inflight_param_registry ≡ some k
      → k ≢ n
      → Good c.params c.inflight_param_registry q k handle
      → Good h (remove p c.inflight_param_registry) q k handle
  Good-other q k (single r) l ne (e, f) = (e, ap (λ x. x.status) (still q k l ne) ∙ f)
  Good-other q k (coalesced ps true) l ne f = ap (λ x. x.status) (still q k l ne) ∙ f
  Good-other q k (coalesced ps false) l ne (i, d, all) = (
    i,
    d,
    λ r j.
        let (f, m) = all r j in
        (
          ap (λ x. x.status) (still r k m ne) ∙ f,
          lookup-remove_ne p r c.inflight_param_registry (rest r k m ne) ∙ m,
        ),
  )

  pub settled : IsCoherent (record c {
    params = h;
    handles = hs;
    inflight_param_registry = remove p c.inflight_param_registry;
  })
  settled = (
    (λ q f. elim (ripe q) [
      | inl e ↦
          let (k, l) = coherent.0 q (ap (λ x. x.status) (sym e) ∙ f) in
          let ne : q ≢ p =
            λ e'. absurd (inflight≢available (sym f ∙ ap (λ x. (h x).status) e' ∙ done)) in
          (k, lookup-remove_ne p q c.inflight_param_registry ne ∙ l)
      | inr (i, e) ↦ absurd (inflight≢available (sym f ∙ ap (λ x. x.status) e))
    ]),
    λ q k l.
        let ne : q ≢ p = λ e. none≢some (
          sym (lookup-remove_self p c.inflight_param_registry)
          ∙ ap (λ x. lookup x (remove p c.inflight_param_registry)) (sym e)
          ∙ l) in
        let l' : lookup q c.inflight_param_registry ≡ some k =
          sym (lookup-remove_ne p q c.inflight_param_registry ne) ∙ l in
        let (old, good) = coherent.1 q k l' in
        elim (ℕ_discrete k n) [
          | yes e ↦ (
            old,
            subst (λ x. Good h (remove p c.inflight_param_registry) q x (hs x)) (sym e)
                (mine q ne (l' ∙ ap some e)),
          )
          | no n' ↦ (
            old,
            subst (λ x. Good h (remove p c.inflight_param_registry) q k x) (sym (others k n'))
                (Good-other q k (c.handles k) l' n' good),
          )
        ],
  )
