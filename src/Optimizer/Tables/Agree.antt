-- ===== src/Optimizer/Tables/Agree.antt =====
-- What later entries leave of the tables of gradient positions.
use understanding_smartnic.Prelude.{
  ℕ, suc, ◌+◌, ◌<◌, ◌≡◌, ◌≢◌, refl, sym, ap, ◌∙◌, List, [], ◌∷◌, ◌++◌, Option, some, length, ok,
  ◌>>=◌, arith,
}
use mathlib.Core.Path.{subst}
use understanding_smartnic.Tensor.{concat}
use understanding_smartnic.Optimizer.{Parameter, partition_numel}
use understanding_smartnic.Optimizer.Tables.{
  put, GradPosition, number_params, number_groups, set_positions, set_grad_positions, grad_offsets,
}

pub put_self : {V : Type 0} (k : ℕ) (v : V) (d : ℕ → Option V) → put k v d k ≡ some v
put_self k v d = ground arith

put_ne : {V : Type 0} (k j : ℕ) (v : V) (d : ℕ → Option V) → j ≢ k → put k v d j ≡ d j
put_ne k j v d h = ground arith

module _ {ℓ} {A : Type ℓ} where
  -- No parameter of the list has this value of the key.
  abbrev pub IsFresh : (Parameter A → ℕ) → ℕ → List (Parameter A) → Type 0
  IsFresh key k [] = Unit
  IsFresh key k (p ∷ ps) = (key p ≢ k) × IsFresh key k ps

  -- All parameters have different values of the key.
  abbrev pub AreApart : (Parameter A → ℕ) → List (Parameter A) → Type 0
  AreApart key [] = Unit
  AreApart key (p ∷ ps) = IsFresh key (key p) ps × AreApart key ps

  number_params_fresh :
      (k count : ℕ) (ps : List (Parameter A)) (d : ℕ → Option ℕ)
      → IsFresh (λ p. p.id) k ps
      → number_params count ps d k ≡ d k
  unfolding number_params
  number_params_fresh k count [] d f = refl
  number_params_fresh k count (p ∷ ps) d (n, f) =
      number_params_fresh k (suc count) ps (put p.id count d) f
      ∙ put_ne p.id k count d (λ e. n (sym e))

  pub grad_offsets_fresh :
      (k offset : ℕ) (ps : List (Parameter A)) (d : ℕ → Option ℕ)
      → IsFresh (λ p. p.ds_id) k ps
      → grad_offsets offset ps d k ≡ d k
  unfolding grad_offsets
  grad_offsets_fresh k offset [] d f = refl
  grad_offsets_fresh k offset (p ∷ ps) d (n, f) =
      grad_offsets_fresh k (offset + partition_numel p) ps (put p.ds_id offset d) f
      ∙ put_ne p.ds_id k offset d (λ e. n (sym e))

  -- The parameters have the numbers from `count` on.
  abbrev pub AreNumbered : (ℕ → Option ℕ) → ℕ → List (Parameter A) → Type 0
  AreNumbered param_id count [] = Unit
  AreNumbered param_id count (p ∷ ps) =
      (param_id p.id ≡ some count) × AreNumbered param_id (suc count) ps

  pub number_params-AreNumbered :
      (count : ℕ) (ps : List (Parameter A)) (d : ℕ → Option ℕ)
      → AreApart (λ p. p.id) ps
      → AreNumbered (number_params count ps d) count ps
  unfolding number_params
  number_params-AreNumbered count [] d a = tt
  number_params-AreNumbered count (p ∷ ps) d (f, a) = (
    number_params_fresh p.id (suc count) ps (put p.id count d) f ∙ put_self p.id count d,
    number_params-AreNumbered (suc count) ps (put p.id count d) a,
  )

  number_params-append :
      (count : ℕ) (ps qs : List (Parameter A)) (d : ℕ → Option ℕ)
      → number_params count (ps ++ qs) d
        ≡ number_params (count + length ps) qs (number_params count ps d)
  unfolding number_params
  number_params-append count [] qs d =
      let same : count ≡ count + 0 = omega arith in ap (λ k. number_params k qs d) same
  number_params-append count (p ∷ ps) qs d =
      let same : suc count + length ps ≡ count + suc (length ps) = omega arith in
      number_params-append (suc count) ps qs (put p.id count d)
      ∙ ap (λ k. number_params k qs (number_params (suc count) ps (put p.id count d))) same

  pub number_groups-concat :
      (count : ℕ) (gs : List (List (Parameter A))) (d : ℕ → Option ℕ)
      → number_groups count gs d ≡ number_params count (concat gs) d
  unfolding number_groups number_params concat
  number_groups-concat count [] d = refl
  number_groups-concat count (g ∷ gs) d =
      number_groups-concat (count + length g) gs (number_params count g d)
      ∙ sym (number_params-append count g (concat gs) d)

  pub AreNumbered-split :
      (param_id : ℕ → Option ℕ) (count : ℕ) (ps qs : List (Parameter A))
      → AreNumbered param_id count (ps ++ qs)
      → AreNumbered param_id count ps × AreNumbered param_id (count + length ps) qs
  AreNumbered-split param_id count [] qs a =
      let same : count ≡ count + 0 = omega arith in
      (tt, subst (λ k. AreNumbered param_id k qs) same a)
  AreNumbered-split param_id count (p ∷ ps) qs (e, a) =
      let same : suc count + length ps ≡ count + suc (length ps) = omega arith in
      let (b, c) = AreNumbered-split param_id (suc count) ps qs a in
      ((e, b), subst (λ k. AreNumbered param_id k qs) same c)

  -- One step of `set_positions`.
  pub set_positions_step :
      (param_id : ℕ → Option ℕ) (i off k : ℕ) (p : Parameter A) (ps : List (Parameter A))
      (d : ℕ → Option GradPosition)
      → param_id p.id ≡ some k
      → set_positions param_id i off (p ∷ ps) d
        ≡ set_positions param_id i
            (off + partition_numel p)
            ps
            (put k (record { group = i; current_offset = off; num_elements = partition_numel p }) d)
  unfolding set_positions
  set_positions_step param_id i off k p ps d e = rw (e, set_positions) refl

  -- Numbered parameters are found, and smaller keys are left as they are.
  pub set_positions_kept :
      (param_id : ℕ → Option ℕ) (i off count : ℕ) (ps : List (Parameter A))
      (d : ℕ → Option GradPosition)
      → AreNumbered param_id count ps
      → (d' : ℕ → Option GradPosition) × (set_positions param_id i off ps d ≡ ok d')
        × ((k : ℕ) → k < count → d' k ≡ d k)
  unfolding set_positions
  set_positions_kept param_id i off count [] d a = (d, refl, λ k h. refl)
  set_positions_kept param_id i off count (p ∷ ps) d (e, a) =
      let v : GradPosition = record {
        group = i;
        current_offset = off;
        num_elements = partition_numel p;
      } in
      let (d', f, kept) =
        set_positions_kept param_id i (off + partition_numel p) (suc count) ps (put count v d) a in
      (
        d',
        set_positions_step param_id i off count p ps d e ∙ f,
        λ k h. kept k (omega arith) ∙ put_ne count k v d (omega arith),
      )

  pub set_grad_positions_kept :
      (param_id : ℕ → Option ℕ) (i count : ℕ) (gs : List (List (Parameter A)))
      (d : ℕ → Option GradPosition)
      → AreNumbered param_id count (concat gs)
      → (d' : ℕ → Option GradPosition) × (set_grad_positions param_id i gs d ≡ ok d')
        × ((k : ℕ) → k < count → d' k ≡ d k)
  unfolding set_grad_positions concat
  set_grad_positions_kept param_id i count [] d a = (d, refl, λ k h. refl)
  set_grad_positions_kept param_id i count (g ∷ gs) d a =
      let (b, c) = AreNumbered-split param_id count g (concat gs) a in
      let (d₁, e, kept) = set_positions_kept param_id i 0 count g d b in
      let (d₂, f, later) = set_grad_positions_kept param_id (suc i) (count + length g) gs d₁ c in
      (
        d₂,
        ap (λ r. r >>= set_grad_positions param_id (suc i) gs) e ∙ f,
        λ k h. later k (omega arith) ∙ kept k h,
      )
