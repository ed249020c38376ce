-- ===== src/Coordinator/Untouched.antt =====
-- What the waits of `fetch_sub_module` leave alone: the recording, the queue, and the registry but for the
-- parameters that they wait for.
use understanding_smartnic.Prelude.{
  ℕ, ◌≡◌, ◌⊎◌, inl, inr, refl, ◌∙◌, ap, List, [], ◌∷◌, none, true, is_in, arith,
}
use native.Mathlib.Decide.{ℕ_discrete}
use understanding_smartnic.Coordinator.{Coordinator}
use understanding_smartnic.Coordinator.Fetch.{lookup, remove}
use understanding_smartnic.Coordinator.Settle.{lookup-remove_self, lookup-remove_ne}

-- The recording and the queue stay, and a parameter that is not registered, or is one of `ps`, is not registered
-- afterwards.
abbrev pub Untouched : List ℕ → Coordinator → Coordinator → Type 0
Untouched ps c d =
    (d.submodule_order ≡ c.submodule_order)
    × (d.step_id_module_fetched_for ≡ c.step_id_module_fetched_for)
    × (d.param_queue ≡ c.param_queue)
    × (d.most_recent_step_id_param_fetched_for ≡ c.most_recent_step_id_param_fetched_for)
    × ((q : ℕ)
        → (lookup q c.inflight_param_registry ≡ none) ⊎ (is_in q ps ≡ true)
        → lookup q d.inflight_param_registry ≡ none)

pub Untouched-nil : (c : Coordinator) → Untouched [] c c
Untouched-nil c = (refl, refl, refl, refl, λ q. (λ x. elim x [ inl l ↦ l | inr i ↦ cc ]))

-- One wait and those that follow.
pub Untouched-cons :
    (p : ℕ) (ps : List ℕ) (c d e : Coordinator)
    → Untouched (p ∷ []) c d
    → Untouched ps d e
    → Untouched (p ∷ ps) c e
Untouched-cons p ps c d e (a, b, queue, recent, f) (a', b', queue', recent', f') = (
  a' ∙ a,
  b' ∙ b,
  queue' ∙ queue,
  recent' ∙ recent,
  λ q. (λ x. elim x [
    | inl l ↦ f' q (inl (f q (inl l)))
    | inr i ↦ elim (ℕ_discrete q p) [
      | yes k ↦ f' q (inl (f q (inr (ground arith))))
      | no k ↦ f' q (inr (ground (arith, i)))
    ]
  ]),
)

-- The registry without a parameter.
pub removed :
    (p : ℕ) (reg : List (ℕ × ℕ)) (q : ℕ)
    → (lookup q reg ≡ none) ⊎ (is_in q (p ∷ []) ≡ true)
    → lookup q (remove p reg) ≡ none
removed p reg q x = elim (ℕ_discrete q p) [
  | yes k ↦ ap (λ r. lookup r (remove p reg)) k ∙ lookup-remove_self p reg
  | no k ↦ elim x [
    | inl l ↦ lookup-remove_ne p q reg k ∙ l
    | inr i ↦ absurd (k (ground (arith, i)))
  ]
]

-- A parameter that is not there.
pub absent :
    (p : ℕ) (reg : List (ℕ × ℕ))
    → lookup p reg ≡ none
    → (q : ℕ) → (lookup q reg ≡ none) ⊎ (is_in q (p ∷ []) ≡ true)
    → lookup q reg ≡ none
absent p reg e q x = elim x [
  | inl l ↦ l
  | inr i ↦ let k : q ≡ p = ground (arith, i) in ap (λ r. lookup r reg) k ∙ e
]

-- A registry in which nothing is found.
pub lookup-nil : (reg : List (ℕ × ℕ)) → ((q : ℕ) → lookup q reg ≡ none) → reg ≡ []
unfolding lookup
lookup-nil [] all = refl
lookup-nil ((p, n) ∷ reg) all = let e = all p in ground (arith, e)
