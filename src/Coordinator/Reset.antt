-- ===== src/Coordinator/Reset.antt =====
-- `release_and_reset_all`: nothing stays gathered.
use understanding_smartnic.Prelude.{
  ℕ, ◌≡◌, ◌≢◌, ◌⊎◌, inl, inr, refl, sym, ◌∙◌, ap, List, [], ◌∷◌, none, true, ◌==◌, ok, is_in,
  is_in-head, is_in-cons, arith,
}
use mathlib.Core.Path.{subst}
use native.Mathlib.Decide.{ℕ_discrete}
use understanding_smartnic.Partition.{ZeroParamStatus, available, not_available, inflight}
use understanding_smartnic.Coordinator.{Coordinator, put}
use understanding_smartnic.Coordinator.Fetch.{lookup}
use understanding_smartnic.Coordinator.Release.{
  release_param, reset_all, check_released, release_and_reset_all,
}

-- One round of the loop.
abbrev round : ℕ → Coordinator → Coordinator
round p c =
    release_param p (record c { params = put p (record (c.params p) { active = [] }) c.params })

abbrev pub Released : ℕ → Coordinator → Type 0
Released q c = ((c.params q).status ≡ not_available) × ((c.params q).active ≡ [])

==_refl : (n : ℕ) → (n == n) ≡ true
==_refl n = ground arith

landed_cases : (s : ZeroParamStatus) → s ≢ inflight → (s ≡ available) ⊎ (s ≡ not_available)
landed_cases available n = inl refl
landed_cases not_available n = inr refl
landed_cases inflight n = absurd (n refl)

-- The parameter after its round, and any other parameter.
round_self : (p : ℕ) (c : Coordinator) → (c.params p).status ≢ inflight → Released p (round p c)
unfolding release_param
round_self p c landed = elim (landed_cases (c.params p).status landed) [
  | inl e ↦ ground arith
  | inr e ↦ ground arith
]

round_ne : (p q : ℕ) (c : Coordinator) → q ≢ p → (round p c).params q ≡ c.params q
unfolding release_param
round_ne p q c n = ground arith

round_registry :
    (p : ℕ) (c : Coordinator) → (round p c).inflight_param_registry ≡ c.inflight_param_registry
unfolding release_param
round_registry p c = ground arith

not_available≢inflight : not_available ≢ inflight
not_available≢inflight e = cc

is_in_tail : (q p : ℕ) (ps : List ℕ) → q ≢ p → is_in q (p ∷ ps) ≡ true → is_in q ps ≡ true
is_in_tail q p ps n i = ground (arith, i)

round_landed :
    (p q : ℕ) (c : Coordinator)
    → (c.params q).status ≢ inflight
    → ((round p c).params q).status ≢ inflight
round_landed p q c landed = elim (ℕ_discrete q p) [
  | yes k ↦ λ g.
      let (a, b) = round_self p c (λ f. landed (ap (λ x. (c.params x).status) k ∙ f)) in
      not_available≢inflight (sym a ∙ ap (λ x. ((round p c).params x).status) (sym k) ∙ g)
  | no n ↦ λ g. landed (ap (λ x. x.status) (sym (round_ne p q c n)) ∙ g)
]

round-Released : (p q : ℕ) (c : Coordinator) → Released q c → Released q (round p c)
round-Released p q c (e, f) = elim (ℕ_discrete q p) [
  | yes k ↦
      let landed : (c.params p).status ≢ inflight =
        λ g. not_available≢inflight (sym e ∙ ap (λ x. (c.params x).status) k ∙ g) in
      let (a, b) = round_self p c landed in
      (ap (λ x. ((round p c).params x).status) k ∙ a, ap (λ x. ((round p c).params x).active) k ∙ b)
  | no n ↦ let same = round_ne p q c n in (ap (λ x. x.status) same ∙ e, ap (λ x. x.active) same ∙ f)
]

reset_all-Released :
    (ps : List ℕ) (c : Coordinator)
    → ((q : ℕ) → is_in q ps ≡ true → (c.params q).status ≢ inflight)
    → ((q : ℕ) → is_in q ps ≡ true → lookup q c.inflight_param_registry ≡ none)
    → (d : Coordinator) × (reset_all ps c ≡ ok d)
      × ((q : ℕ) → is_in q ps ≡ true → Released q d)
      × ((q : ℕ) → Released q c → Released q d)
unfolding reset_all
reset_all-Released [] c landed free = (c, refl, (λ q i. cc), λ q r. r)
reset_all-Released (p ∷ ps) c landed free =
    let mine = round_self p c (landed p (is_in-head p ps)) in
    let (d, run, all, keeps) =
      reset_all-Released ps (round p c) (λ q i. round_landed p q c (landed q (is_in-cons q p ps i)))
        (λ q i. ap (lookup q) (round_registry p c) ∙ free q (is_in-cons q p ps i)) in
    (
      d,
      rw (free p (is_in-head p ps)) run,
      (λ q i. elim (ℕ_discrete q p) [
        | yes k ↦ subst (λ x. Released x d) (sym k) (keeps p mine)
        | no n ↦ all q (is_in_tail q p ps n i)
      ]),
      λ q r. keeps q (round-Released p q c r),
    )

check_released_lem :
    (ps : List ℕ) (c : Coordinator)
    → ((q : ℕ) → is_in q ps ≡ true → Released q c)
    → check_released ps c ≡ ok tt
unfolding check_released
check_released_lem [] c all = refl
check_released_lem (p ∷ ps) c all =
    rw (all p (is_in-head p ps)).0 (check_released_lem ps c (λ q i. all q (is_in-cons q p ps i)))

-- When none of the parameters is in flight or registered, `release_and_reset_all` succeeds, and
-- afterwards each of them is partitioned and in no active submodule, whatever submodules were using
-- it before.
pub release_and_reset_all-Released :
    (ps : List ℕ) (c : Coordinator)
    → ((q : ℕ) → is_in q ps ≡ true → (c.params q).status ≢ inflight)
    → ((q : ℕ) → is_in q ps ≡ true → lookup q c.inflight_param_registry ≡ none)
    → (d : Coordinator) × (release_and_reset_all ps c ≡ ok d)
      × ((q : ℕ) → is_in q ps ≡ true → Released q d)
unfolding release_and_reset_all
release_and_reset_all-Released ps c landed free =
    let (d, run, all, keeps) = reset_all-Released ps c landed free in
    (d, rw (run, check_released_lem ps d all) refl, all)
