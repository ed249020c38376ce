-- ===== src/Optimizer/Tables/Found.antt =====
-- The two tables of gradient positions agree.
use understanding_smartnic.Prelude.{
  ℕ, suc, ◌+◌, ◌≡◌, sym, ap, ◌∙◌, List, [], ◌∷◌, ◌++◌, Option, none, some, length, length-append,
  ok, ◌>>=◌, arith,
}
use mathlib.Core.Path.{subst}
use mathlib.Core.List.{append_assoc}
use understanding_smartnic.Tensor.{concat}
use understanding_smartnic.Optimizer.{Parameter, partition_numel, numel_of}
use understanding_smartnic.Optimizer.SubGroups.{numel_of-append}
use understanding_smartnic.Optimizer.Tables.{
  put, GradPosition, number_groups, set_positions, set_grad_positions, grad_offsets,
}
use understanding_smartnic.Optimizer.Tables.Agree.{
  put_self, AreApart, AreNumbered, number_params-AreNumbered, number_groups-concat,
  AreNumbered-split, set_positions_step, set_positions_kept, set_grad_positions_kept,
  grad_offsets_fresh,
}

module _ {ℓ} {A : Type ℓ} where
  -- The entry of a parameter behind others of its group.
  abbrev pub entry : ℕ → ℕ → Parameter A → GradPosition
  entry i off p = record { group = i; current_offset = off; num_elements = partition_numel p }

  set_positions_found :
      (param_id : ℕ → Option ℕ) (i off count : ℕ) (ps qs : List (Parameter A)) (p : Parameter A)
      (d : ℕ → Option GradPosition)
      → AreNumbered param_id count (ps ++ p ∷ qs)
      → (d' : ℕ → Option GradPosition) × (set_positions param_id i off (ps ++ p ∷ qs) d ≡ ok d')
        × (d' (count + length ps) ≡ some (entry i (off + numel_of ps) p))
  set_positions_found param_id i off count [] qs p d (e, a) =
      let (d', f, kept) =
        set_positions_kept param_id i (off + partition_numel p) (suc count) qs
          (put count (entry i off p) d) a in
      let here : count + 0 ≡ count = omega arith in
      let start : off ≡ off + 0 = omega arith in
      (
        d',
        set_positions_step param_id i off count p qs d e ∙ f,
        ap d' here
            ∙ kept count (omega arith)
            ∙ put_self count (entry i off p) d
            ∙ ap (λ k. some (entry i k p)) start,
      )
  set_positions_found param_id i off count (q ∷ ps) qs p d (e, a) =
      let (d', f, found) =
        set_positions_found param_id i (off + partition_numel q) (suc count) ps qs p
          (put count (entry i off q) d) a in
      let here : count + suc (length ps) ≡ suc count + length ps = omega arith in
      let start : off + partition_numel q + numel_of ps ≡ off + numel_of (q ∷ ps) = omega arith in
      (
        d',
        set_positions_step param_id i off count q (ps ++ p ∷ qs) d e ∙ f,
        ap d' here ∙ found ∙ ap (λ k. some (entry i k p)) start,
      )

  set_grad_positions_found :
      (param_id : ℕ → Option ℕ) (i count : ℕ) (gs hs : List (List (Parameter A)))
      (ps qs : List (Parameter A)) (p : Parameter A) (d : ℕ → Option GradPosition)
      → AreNumbered param_id count (concat (gs ++ (ps ++ p ∷ qs) ∷ hs))
      → (d' : ℕ → Option GradPosition) × (set_grad_positions param_id i
            (gs ++ (ps ++ p ∷ qs) ∷ hs)
            d
          ≡ ok d')
        × (d' (count + length (concat gs) + length ps)
            ≡ some (entry (i + length gs) (numel_of ps) p))
  unfolding set_grad_positions concat
  set_grad_positions_found param_id i count [] hs ps qs p d a =
      let g : List (Parameter A) = ps ++ p ∷ qs in
      let (b, c) = AreNumbered-split param_id count g (concat hs) a in
      let (d₁, e, found) = set_positions_found param_id i 0 count ps qs p d b in
      let (d₂, f, later) = set_grad_positions_kept param_id (suc i) (count + length g) hs d₁ c in
      let here : count + 0 + length ps ≡ count + length ps = omega arith in
      let same : 0 + numel_of ps ≡ numel_of ps = omega arith in
      let first : i ≡ i + 0 = omega arith in
      (
        d₂,
        ap (λ r. r >>= set_grad_positions param_id (suc i) hs) e ∙ f,
        ap d₂ here
            ∙ later (count + length ps) (omega (arith, length-append ps (p ∷ qs)))
            ∙ found
            ∙ ap (λ k. some (entry i k p)) same
            ∙ ap (λ k. some (entry k (numel_of ps) p)) first,
      )
  set_grad_positions_found param_id i count (g ∷ gs) hs ps qs p d a =
      let rest : List (List (Parameter A)) = gs ++ (ps ++ p ∷ qs) ∷ hs in
      let (b, c) = AreNumbered-split param_id count g (concat rest) a in
      let (d₁, e, kept) = set_positions_kept param_id i 0 count g d b in
      let (d₂, f, found) =
        set_grad_positions_found param_id (suc i) (count + length g) gs hs ps qs p d₁ c in
      let here : count + length (g ++ concat gs) + length ps
          ≡ count + length g + length (concat gs) + length ps =
        omega (arith, length-append g (concat gs)) in
      let later : suc i + length gs ≡ i + suc (length gs) = omega arith in
      (
        d₂,
        ap (λ r. r >>= set_grad_positions param_id (suc i) rest) e ∙ f,
        ap d₂ here ∙ found ∙ ap (λ k. some (entry k (numel_of ps) p)) later,
      )

  grad_offsets_found :
      (off : ℕ) (ps qs : List (Parameter A)) (p : Parameter A) (d : ℕ → Option ℕ)
      → AreApart (λ q. q.ds_id) (ps ++ p ∷ qs)
      → grad_offsets off (ps ++ p ∷ qs) d p.ds_id ≡ some (off + numel_of ps)
  unfolding grad_offsets
  grad_offsets_found off [] qs p d (f, a) =
      let start : off ≡ off + 0 = omega arith in
      grad_offsets_fresh p.ds_id (off + partition_numel p) qs (put p.ds_id off d) f
      ∙ put_self p.ds_id off d
      ∙ ap some start
  grad_offsets_found off (q ∷ ps) qs p d (f, a) =
      let start : off + partition_numel q + numel_of ps ≡ off + numel_of (q ∷ ps) = omega arith in
      grad_offsets_found (off + partition_numel q) ps qs p (put q.ds_id off d) a ∙ ap some start

  concat-append_middle :
      (gs hs : List (List (Parameter A))) (ps qs : List (Parameter A)) (p : Parameter A)
      → concat (gs ++ (ps ++ p ∷ qs) ∷ hs) ≡ (concat gs ++ ps) ++ p ∷ (qs ++ concat hs)
  unfolding concat
  concat-append_middle [] hs ps qs p = append_assoc ps (p ∷ qs) (concat hs)
  concat-append_middle (g ∷ gs) hs ps qs p =
      ap (◌++◌ g) (concat-append_middle gs hs ps qs p)
      ∙ sym (append_assoc g (concat gs ++ ps) (p ∷ (qs ++ concat hs)))
      ∙ ap (λ l. l ++ p ∷ (qs ++ concat hs)) (sym (append_assoc g (concat gs) ps))

  -- Let all parameters of the subgroups have different objects and different `ds_id`s. Then
  -- `set_grad_positions` finds every number, and for the parameter `p` of the subgroup behind `gs`,
  -- behind the parameters `ps`, the entry names the index of the subgroup, the elements of `ps` as the
  -- offset, and the elements of `p`; its offset in the flat buffer of partitions is that offset plus
  -- the elements of the subgroups before.
  pub set_grad_positions-grad_offsets :
      (gs hs : List (List (Parameter A))) (ps qs : List (Parameter A)) (p : Parameter A)
      → AreApart (λ q. q.id) (concat (gs ++ (ps ++ p ∷ qs) ∷ hs))
      → AreApart (λ q. q.ds_id) (concat (gs ++ (ps ++ p ∷ qs) ∷ hs))
      → (d : ℕ → Option GradPosition) × (k : ℕ) × (set_grad_positions
            (number_groups 0 (gs ++ (ps ++ p ∷ qs) ∷ hs) (λ j. none))
            0
            (gs ++ (ps ++ p ∷ qs) ∷ hs)
            (λ j. none)
          ≡ ok d)
        × (number_groups 0 (gs ++ (ps ++ p ∷ qs) ∷ hs) (λ j. none) p.id ≡ some k)
        × (d k ≡ some (entry (length gs) (numel_of ps) p))
        × (grad_offsets 0 (concat (gs ++ (ps ++ p ∷ qs) ∷ hs)) (λ j. none) p.ds_id
            ≡ some (numel_of (concat gs) + numel_of ps))
  set_grad_positions-grad_offsets gs hs ps qs p a b =
      let all : List (List (Parameter A)) = gs ++ (ps ++ p ∷ qs) ∷ hs in
      let param_id : ℕ → Option ℕ = number_groups 0 all (λ j. none) in
      let front : List (Parameter A) = concat gs ++ ps in
      let split = concat-append_middle gs hs ps qs p in
      let numbered : AreNumbered param_id 0 (concat all) =
        subst (λ f. AreNumbered f 0 (concat all)) (sym (number_groups-concat 0 all (λ j. none)))
          (number_params-AreNumbered 0 (concat all) (λ j. none) a) in
      let (d, e, found) =
        set_grad_positions_found param_id 0 0 gs hs ps qs p (λ j. none) numbered in
      let mine =
        (AreNumbered-split param_id 0 front (p ∷ (qs ++ concat hs))
          (subst (AreNumbered param_id 0) split numbered)).1.0 in
      let key : 0 + length front ≡ 0 + length (concat gs) + length ps =
        omega (arith, length-append (concat gs) ps) in
      let first : 0 + length gs ≡ length gs = omega arith in
      let total : 0 + numel_of front ≡ numel_of (concat gs) + numel_of ps =
        omega (arith, numel_of-append (concat gs) ps) in
      (
        d,
        0 + length (concat gs) + length ps,
        e,
        mine ∙ ap some key,
        found ∙ ap (λ k. some (entry k (numel_of ps) p)) first,
        ap (λ l. grad_offsets 0 l (λ j. none) p.ds_id) split
            ∙ grad_offsets_found 0 front (qs ++ concat hs) p (λ j. none)
                (subst (AreApart (λ q. q.ds_id)) split b)
            ∙ ap some total,
      )
