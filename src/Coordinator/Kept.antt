-- ===== src/Coordinator/Kept.antt =====
-- What `__params_to_release` selects, and what is never released.
use understanding_smartnic.Prelude.{
  ℕ, ◌+◌, ◌<◌, ◌≡◌, ◌↔◌, refl, sym, ◌∙◌, ap, List, [], ◌∷◌, ◌++◌, Option, Bool, true, false, not,
  ◌&&◌, ◌==◌, if◌then◌else◌, drop, ok, ◌⊎◌, inl, inr, is_in, discard, is_in-discard_self,
  is_in-discard_ne, Bool-cases, arith,
}
use mathlib.Core.List.{head-eq_of_cons-eq, tail-eq_of_cons-eq}
use native.Mathlib.Decide.{ℕ_discrete, dec_lt}
use understanding_smartnic.Coordinator.{Param, Module, Coordinator, complete_mode}
use understanding_smartnic.Coordinator.Fetch.{numels}
use understanding_smartnic.Coordinator.Release.{
  candidates, is_after, discard_skipped, discard_all, traverse, discard_reused, params_to_release,
}

-- The elements of the parameters of submodules.
unfoldable pub distance : (ℕ → Param) → List Module → ℕ
unfolding numels
distance h [] = 0
distance h (m ∷ ms) = numels h m.iter_params + distance h ms

traverse_lem : (h : ℕ → Param) (ps : List ℕ) (t : ℕ) → traverse h ps t ≡ t + numels h ps
unfolding traverse numels
traverse_lem h [] t = omega arith
traverse_lem h (p ∷ ps) t = omega (arith, traverse_lem h ps (t + (h p).numel))

is_in-discard : (z x : ℕ) (ys : List ℕ) → is_in z (discard x ys) ≡ (not (z == x) && is_in z ys)
is_in-discard z x ys = elim (ℕ_discrete z x) [
  | yes e ↦ rw (e, is_in-discard_self x ys) (ground arith)
  | no n ↦ rw (is_in-discard_ne x z ys n) (ground arith)
]

is_in-candidates :
    (h : ℕ → Param) (z : ℕ) (ps : List ℕ)
    → is_in z (candidates h ps) ≡ (is_in z ps && not (h z).persist)
unfolding candidates
is_in-candidates h z [] = refl
is_in-candidates h z (p ∷ ps) = elim (ℕ_discrete z p) [
  | yes e ↦ rw e (ground (arith, is_in-candidates h p ps))
  | no n ↦ ground (arith, is_in-candidates h z ps)
]

is_in-discard_skipped :
    (r : ℕ → Option ℕ) (step z : ℕ) (ps set : List ℕ)
    → is_in z (discard_skipped r step ps set)
      ≡ (not (is_in z ps && is_after (r z) step) && is_in z set)
unfolding discard_skipped
is_in-discard_skipped r step z [] set = refl
is_in-discard_skipped r step z (p ∷ ps) set =
    rw (is_in-discard_skipped r step z ps (if is_after (r p) step then discard p set else set))
      (elim (ℕ_discrete z p) [
        | yes e ↦ rw e (ground (arith, is_in-discard p p set))
        | no n ↦ ground (arith, is_in-discard z p set)
      ])

is_in-discard_all :
    (z : ℕ) (ps set : List ℕ) → is_in z (discard_all ps set) ≡ (not (is_in z ps) && is_in z set)
unfolding discard_all
is_in-discard_all z [] set = refl
is_in-discard_all z (p ∷ ps) set =
    rw (is_in-discard_all z ps (discard p set), is_in-discard z p set) (ground arith)

-- A parameter that a submodule among `ms` uses, and that is less than `max_reuse` elements away
-- when `t` elements have been passed.
abbrev pub Reused : (ℕ → Param) → ℕ → ℕ → List Module → ℕ → Type 0
Reused h max_reuse t ms p =
    (before : List Module) × (m : Module) × (after : List Module) × (ms ≡ before ++ m ∷ after)
    × (t + distance h before < max_reuse)
    × (is_in p m.iter_params ≡ true)

Reused-nil : (h : ℕ → Param) (max_reuse t p : ℕ) → ¬ Reused h max_reuse t [] p
Reused-nil h max_reuse t p ([], m, after, e, _, _) = cc
Reused-nil h max_reuse t p (b ∷ bs, m, after, e, _, _) = cc

Reused-later :
    (h : ℕ → Param) (max_reuse t p : ℕ) (m : Module) (ms : List Module)
    → Reused h max_reuse (t + numels h m.iter_params) ms p
    → Reused h max_reuse t (m ∷ ms) p
unfolding distance
Reused-later h max_reuse t p m ms (bs, n, after, e, near, i) =
    (m ∷ bs, n, after, ap (◌∷◌ m) e, omega arith, i)

Reused-inv :
    (h : ℕ → Param) (max_reuse t p : ℕ) (m : Module) (ms : List Module)
    → Reused h max_reuse t (m ∷ ms) p
    → (t < max_reuse)
      × ((is_in p m.iter_params ≡ true) ⊎ Reused h max_reuse (t + numels h m.iter_params) ms p)
unfolding distance
Reused-inv h max_reuse t p m ms ([], n, after, e, near, i) =
    (omega arith, inl (ap (λ k. is_in p k.iter_params) (head-eq_of_cons-eq e) ∙ i))
Reused-inv h max_reuse t p m ms (b ∷ bs, n, after, e, near, i) =
    let same : numels h m.iter_params ≡ numels h b.iter_params =
      ap (λ k. numels h k.iter_params) (head-eq_of_cons-eq e) in
    (omega arith, inr (bs, n, after, tail-eq_of_cons-eq e, omega arith, i))

Reused-here :
    (h : ℕ → Param) (max_reuse t p : ℕ) (m : Module) (ms : List Module)
    → t < max_reuse
    → is_in p m.iter_params ≡ true
    → Reused h max_reuse t (m ∷ ms) p
unfolding distance
Reused-here h max_reuse t p m ms near i = ([], m, ms, refl, omega arith, i)

nil_sound :
    (h : ℕ → Param) (max_reuse t p : ℕ) (set : List ℕ)
    → is_in p (discard_reused h max_reuse [] t set) ≡ true
    → (is_in p set ≡ true) × ¬ Reused h max_reuse t [] p
unfolding discard_reused
nil_sound h max_reuse t p set e = (e, Reused-nil h max_reuse t p)

nil_complete :
    (h : ℕ → Param) (max_reuse t p : ℕ) (set : List ℕ)
    → is_in p set ≡ true
    → is_in p (discard_reused h max_reuse [] t set) ≡ true
unfolding discard_reused
nil_complete h max_reuse t p set e = e

not-and_true : (a b : Bool) → (not a && b) ≡ true → (a ≡ false) × (b ≡ true)
not-and_true true b e = cc
not-and_true false b e = (refl, e)

-- One round of the loop.
discard_reused-near :
    (h : ℕ → Param) (max_reuse t : ℕ) (m : Module) (ms : List Module) (set : List ℕ)
    → t < max_reuse
    → discard_reused h max_reuse (m ∷ ms) t set
      ≡ discard_reused h max_reuse ms (t + numels h m.iter_params) (discard_all m.iter_params set)
unfolding discard_reused
discard_reused-near h max_reuse t m ms set k =
    rw (sym (traverse_lem h m.iter_params t)) (ground arith)

discard_reused-far :
    (h : ℕ → Param) (max_reuse t : ℕ) (m : Module) (ms : List Module) (set : List ℕ)
    → ¬ (t < max_reuse)
    → discard_reused h max_reuse (m ∷ ms) t set ≡ set
unfolding discard_reused
discard_reused-far h max_reuse t m ms set k = ground arith

-- What the loop over the following submodules leaves of a set.
discard_reused_sound :
    (h : ℕ → Param) (max_reuse p : ℕ) (ms : List Module) (t : ℕ) (set : List ℕ)
    → is_in p (discard_reused h max_reuse ms t set) ≡ true
    → (is_in p set ≡ true) × ¬ Reused h max_reuse t ms p
discard_reused_sound h max_reuse p [] t set e = (nil_sound h max_reuse t p set e)
discard_reused_sound h max_reuse p (m ∷ ms) t set e = elim (dec_lt t max_reuse) [
  | no n ↦ (
    ap (is_in p) (sym (discard_reused-far h max_reuse t m ms set n)) ∙ e,
    λ r. n ((Reused-inv h max_reuse t p m ms r).0),
  )
  | yes k ↦
      let (left, far) =
        discard_reused_sound h max_reuse p ms (t + numels h m.iter_params)
          (discard_all m.iter_params set)
          (ap (is_in p) (sym (discard_reused-near h max_reuse t m ms set k)) ∙ e) in
      let (out, kept) =
        not-and_true (is_in p m.iter_params) (is_in p set)
          (sym (is_in-discard_all p m.iter_params set) ∙ left) in
      (kept, λ r. elim ((Reused-inv h max_reuse t p m ms r).1) [ inl i ↦ cc | inr l ↦ far l ])
]

discard_reused_complete :
    (h : ℕ → Param) (max_reuse p : ℕ) (ms : List Module) (t : ℕ) (set : List ℕ)
    → is_in p set ≡ true
    → ¬ Reused h max_reuse t ms p
    → is_in p (discard_reused h max_reuse ms t set) ≡ true
discard_reused_complete h max_reuse p [] t set e n = nil_complete h max_reuse t p set e
discard_reused_complete h max_reuse p (m ∷ ms) t set e n = elim (dec_lt t max_reuse) [
  | no k ↦ ap (is_in p) (discard_reused-far h max_reuse t m ms set k) ∙ e
  | yes k ↦
      let out : is_in p m.iter_params ≡ false = elim (Bool-cases (is_in p m.iter_params)) [
        | inl i ↦ absurd (n (Reused-here h max_reuse t p m ms k i))
        | inr i ↦ i
      ] in
      ap (is_in p) (discard_reused-near h max_reuse t m ms set k)
      ∙ discard_reused_complete h max_reuse p ms (t + numels h m.iter_params)
          (discard_all m.iter_params set) (is_in-discard_all p m.iter_params set ∙ ground arith)
          (λ r. n (Reused-later h max_reuse t p m ms r))
]

selected_from :
    (i a q : Bool) → (not (i && a) && (i && not q)) ≡ true → (i ≡ true) × (q ≡ false) × (a ≡ false)
selected_from true false false e = (refl, refl, refl)
selected_from false a q e = cc
selected_from true true q e = cc
selected_from true false true e = cc

selected_to :
    {i a q : Bool} → i ≡ true → q ≡ false → a ≡ false → (not (i && a) && (i && not q)) ≡ true
selected_to i q a = rw (i, q, a) refl

-- `__params_to_release` succeeds on a complete trace. It selects exactly the submodule's
-- parameters that do not persist, that the prefetch has not skipped for a later step, and that no
-- submodule uses which follows within the reuse distance.
pub params_to_release_lem :
    (m : Module) (step : ℕ) (c : Coordinator) (p : ℕ)
    → c.trace_mode ≡ complete_mode
    → (set : List ℕ) × (params_to_release m step c ≡ ok set)
      × ((is_in p set ≡ true) ↔ (
          (is_in p m.iter_params ≡ true)
          × ((c.params p).persist ≡ false)
          × (is_after (c.most_recent_step_id_param_fetched_for p) step ≡ false)
          × ¬ Reused c.params c.max_reuse_dist_in_numel 0 (drop step c.submodule_order) p))
unfolding params_to_release
params_to_release_lem m step c p mode =
    let base =
      discard_skipped c.most_recent_step_id_param_fetched_for step m.iter_params
        (candidates c.params m.iter_params) in
    let has : is_in p base ≡ (
        not (is_in p m.iter_params && is_after (c.most_recent_step_id_param_fetched_for p) step)
        && (is_in p m.iter_params && not (c.params p).persist)) =
      is_in-discard_skipped c.most_recent_step_id_param_fetched_for step p m.iter_params
        (candidates c.params m.iter_params)
      ∙ ap
          (λ b.
            not (is_in p m.iter_params && is_after (c.most_recent_step_id_param_fetched_for p) step)
            && b)
          (is_in-candidates c.params p m.iter_params) in
    (
      discard_reused c.params c.max_reuse_dist_in_numel (drop step c.submodule_order) 0 base,
      ground arith,
      (
        (λ e.
            let (r, n) =
              discard_reused_sound c.params c.max_reuse_dist_in_numel p
                (drop step c.submodule_order) 0 base e in
            let (i, q, a) =
              selected_from (is_in p m.iter_params)
                (is_after (c.most_recent_step_id_param_fetched_for p) step) (c.params p).persist
                (sym has ∙ r) in
            (i, q, a, n)),
        λ (i, q, a, n).
            discard_reused_complete c.params c.max_reuse_dist_in_numel p
              (drop step c.submodule_order) 0 base (has ∙ selected_to i q a) n,
      ),
    )
