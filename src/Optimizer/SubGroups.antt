-- ===== src/Optimizer/SubGroups.antt =====
-- `_create_fp16_sub_groups` cuts a group into runs that are as short as the size allows.
use understanding_smartnic.Prelude.{
  ℕ, ◌+◌, ◌<◌, ◌≤◌, ◌≡◌, ◌⊎◌, inl, inr, refl, sym, ap, ◌∙◌, List, [], ◌∷◌, ◌++◌, some, Bool, true,
  false, ◌||◌, if◌then◌else◌, leb, ◌==◌, Bool-cases, arith,
}
use mathlib.Core.Path.{subst}
use mathlib.Core.List.{append-nil}
use understanding_smartnic.Prelude.Middle.{append_step}
use understanding_smartnic.Tensor.{concat}
use understanding_smartnic.Optimizer.{
  Parameter, partition_numel, numel_of, last_id, sub_groups_from, create_fp16_sub_groups,
}

module _ {ℓ} {A : Type ℓ} where
  abbrev is_full : ℕ → ℕ → ℕ → Parameter A → Bool
  is_full size last local p = leb size (local + partition_numel p) || (p.id == last)

  sub_groups_from-full :
      (size last local : ℕ) (sub_group : List (Parameter A)) (p : Parameter A)
      (ps : List (Parameter A))
      → is_full size last local p ≡ true
      → sub_groups_from size last sub_group local (p ∷ ps)
        ≡ (sub_group ++ p ∷ []) ∷ sub_groups_from size last [] 0 ps
  unfolding sub_groups_from
  sub_groups_from-full size last local sub_group p ps e =
      ap
        (λ b.
          let rest =
            sub_groups_from size last (if b then [] else sub_group ++ p ∷ [])
              (if b then 0 else local + partition_numel p) ps in
          if b then (sub_group ++ p ∷ []) ∷ rest else rest)
        e

  sub_groups_from-more :
      (size last local : ℕ) (sub_group : List (Parameter A)) (p : Parameter A)
      (ps : List (Parameter A))
      → is_full size last local p ≡ false
      → sub_groups_from size last sub_group local (p ∷ ps)
        ≡ sub_groups_from size last (sub_group ++ p ∷ []) (local + partition_numel p) ps
  unfolding sub_groups_from
  sub_groups_from-more size last local sub_group p ps e =
      ap
        (λ b.
          let rest =
            sub_groups_from size last (if b then [] else sub_group ++ p ∷ [])
              (if b then 0 else local + partition_numel p) ps in
          if b then (sub_group ++ p ∷ []) ∷ rest else rest)
        e

  is_full-last :
      (size last local : ℕ) (p : Parameter A) → last ≡ p.id → is_full size last local p ≡ true
  is_full-last size last local p e = ground arith

  is_full-below :
      (size last local : ℕ) (p : Parameter A)
      → is_full size last local p ≡ false
      → local + partition_numel p < size
  is_full-below size last local p e = ground arith

  sub_groups_from-concat :
      (size last local : ℕ) (sub_group : List (Parameter A)) (p : Parameter A)
      (ps : List (Parameter A))
      → last ≡ last_id (p ∷ ps)
      → concat (sub_groups_from size last sub_group local (p ∷ ps)) ≡ sub_group ++ p ∷ ps
  unfolding last_id concat sub_groups_from
  sub_groups_from-concat size last local sub_group p [] e =
      ap concat
        (sub_groups_from-full size last local sub_group p [] (is_full-last size last local p e))
      ∙ append-nil (sub_group ++ p ∷ [])
  sub_groups_from-concat size last local sub_group p (q ∷ ps) e =
      elim (Bool-cases (is_full size last local p)) [
        | inl f ↦
            ap concat (sub_groups_from-full size last local sub_group p (q ∷ ps) f)
            ∙ ap (◌++◌ (sub_group ++ p ∷ [])) (sub_groups_from-concat size last 0 [] q ps e)
            ∙ sym (append_step sub_group p (q ∷ ps))
        | inr f ↦
            ap concat (sub_groups_from-more size last local sub_group p (q ∷ ps) f)
            ∙ sub_groups_from-concat size last (local + partition_numel p) (sub_group ++ p ∷ []) q
                ps e
            ∙ sym (append_step sub_group p (q ∷ ps))
      ]

  pub numel_of-append :
      (ps qs : List (Parameter A)) → numel_of (ps ++ qs) ≡ numel_of ps + numel_of qs
  numel_of-append [] qs = omega arith
  numel_of-append (p ∷ ps) qs = omega (arith, numel_of-append ps qs)

  -- A subgroup that reaches `size` with its last parameter and not before, or has one parameter only.
  pub record IsMinimal (size : ℕ) (sub_group : List (Parameter A)) : Type ℓ where
    pub front : List (Parameter A)
    pub closer : Parameter A
    pub split : sub_group ≡ front ++ closer ∷ []
    pub below : (front ≡ []) ⊎ (numel_of front < size)

  -- All subgroups are minimal, and all but the last one reach the size, unless the parameter that
  -- ends them has the `id` of the last one.
  abbrev pub AreCut : ℕ → ℕ → List (List (Parameter A)) → Type ℓ
  AreCut size last [] = Unit
  AreCut size last (g ∷ gs) =
      ((m : IsMinimal size g) × ((size ≤ numel_of g) ⊎ (m.closer.id ≡ last))) × AreCut size last gs

  full-reason :
      (size last local : ℕ) (p : Parameter A)
      → is_full size last local p ≡ true
      → (size ≤ local + partition_numel p) ⊎ (p.id ≡ last)
  full-reason size last local p e = ground arith

  numel_of-grown :
      (sub_group : List (Parameter A)) (p : Parameter A) (local : ℕ)
      → local ≡ numel_of sub_group
      → numel_of (sub_group ++ p ∷ []) ≡ local + partition_numel p
  numel_of-grown sub_group p local e = omega (arith, numel_of-append sub_group (p ∷ []), e)

  sub_groups_from-AreCut :
      (size last local : ℕ) (sub_group ps : List (Parameter A))
      → local ≡ numel_of sub_group
      → (sub_group ≡ []) ⊎ (local < size)
      → AreCut size last (sub_groups_from size last sub_group local ps)
  unfolding sub_groups_from
  sub_groups_from-AreCut size last local sub_group [] e b = tt
  sub_groups_from-AreCut size last local sub_group (p ∷ ps) e b =
      let grown = numel_of-grown sub_group p local e in
      elim (Bool-cases (is_full size last local p)) [
        | inl f ↦
            let m : IsMinimal size (sub_group ++ p ∷ []) = record {
              front = sub_group;
              closer = p;
              split = refl;
              below = elim b [ inl x ↦ inl x | inr x ↦ inr (omega (arith, e)) ];
            } in
            let reached : (size ≤ numel_of (sub_group ++ p ∷ [])) ⊎ (p.id ≡ last) =
              elim (full-reason size last local p f) [
                | inl x ↦ inl (omega (arith, grown))
                | inr x ↦ inr x
              ] in
            subst (AreCut size last) (sym (sub_groups_from-full size last local sub_group p ps f))
              ((m, reached), sub_groups_from-AreCut size last 0 [] ps refl (inl refl))
        | inr f ↦
            subst (AreCut size last) (sym (sub_groups_from-more size last local sub_group p ps f)) (
              sub_groups_from-AreCut size last (local + partition_numel p) (sub_group ++ p ∷ []) ps
                (sym grown) (inr (is_full-below size last local p f)))
      ]

  -- A group that is cut is not empty.
  all_of :
      (size : ℕ) (group : List (Parameter A))
      → leb (numel_of group) size ≡ false
      → concat (sub_groups_from size (last_id group) [] 0 group) ≡ group
  all_of size [] e = absurd (ground arith)
  all_of size (p ∷ ps) e = sub_groups_from-concat size (last_id (p ∷ ps)) 0 [] p ps refl

  -- The subgroups of a group, one after the other, are the group. Either the group is kept whole,
  -- since it has no more elements than the size, or every subgroup without its last parameter is
  -- empty or below the size, and every subgroup reaches the size or ends with a parameter that has
  -- the `id` of the group's last one.
  pub create_fp16_sub_groups_lem :
      (size : ℕ) (group : List (Parameter A))
      → (concat (create_fp16_sub_groups (some size) group) ≡ group)
        × (((numel_of group ≤ size) × (create_fp16_sub_groups (some size) group ≡ group ∷ []))
            ⊎ AreCut size (last_id group) (create_fp16_sub_groups (some size) group))
  unfolding create_fp16_sub_groups concat
  create_fp16_sub_groups_lem size group = elim (Bool-cases (leb (numel_of group) size)) [
    | inl e ↦
        let whole : create_fp16_sub_groups (some size) group ≡ group ∷ [] =
          ap (λ b. if b then group ∷ [] else sub_groups_from size (last_id group) [] 0 group) e in
        (ap concat whole ∙ append-nil group, inl (ground arith, whole))
    | inr e ↦
        let cut : create_fp16_sub_groups (some size) group
            ≡ sub_groups_from size (last_id group) [] 0 group =
          ap (λ b. if b then group ∷ [] else sub_groups_from size (last_id group) [] 0 group) e in
        (
          ap concat cut ∙ all_of size group e,
          inr (
              subst (AreCut size (last_id group)) (sym cut)
                (sub_groups_from-AreCut size (last_id group) 0 [] group refl (inl refl))),
        )
  ]
