-- ===== src/Bucket/Output.antt =====
-- `__avg_scatter_grads`: when the reduce-scatter may write into the flat buffer of the partitions.
use understanding_smartnic.Prelude.{
  ℕ, ◌+◌, ◌≤◌, ◌≡◌, refl, sym, ap, ◌∙◌, List, [], ◌∷◌, Option, none, some, Bool, not, ◌&&◌,
  if◌then◌else◌, ◌==◌, arith, Bool-cases, inl, inr,
}
use understanding_smartnic.Bucket.{Member}

module _ {Full : Type 0} where
  -- `sum(p.partition_numel() for p in params_to_reduce)`
  abbrev pub total_numel : List (Member Full) → ℕ
  total_numel [] = 0
  total_numel (p ∷ ps) = p.partition_numel + total_numel ps

  -- Where the last parameter's partition ends.
  abbrev pub expected_end : (ℕ → ℕ) → Member Full → List (Member Full) → ℕ
  expected_end offset p [] = offset p.ds_id + p.partition_numel
  expected_end offset p (q ∷ qs) = expected_end offset q qs

  -- The range of the flat buffer that the output takes, if it takes one; `offset` is
  -- `__param_id_to_grad_offset`.
  unfoldable pub output_buf : Bool → (ℕ → ℕ) → List (Member Full) → Option (ℕ × ℕ)
  output_buf rs_use_nccl offset [] = none
  output_buf rs_use_nccl offset (p ∷ ps) =
      let first_offset = offset p.ds_id in
      let total = total_numel (p ∷ ps) in
      if (first_offset + total == expected_end offset p ps) && not rs_use_nccl
      then some (first_offset, total)
      else none

  -- Where `reduce_scatter_coalesced` puts the parts in an output that starts at `at`.
  unfoldable pub places : ℕ → List (Member Full) → List ℕ
  places at [] = []
  places at (p ∷ ps) = at ∷ places (at + p.partition_numel) ps

  -- Where the parameters' own partitions are.
  abbrev pub own_places : (ℕ → ℕ) → List (Member Full) → List ℕ
  own_places offset [] = []
  own_places offset (p ∷ ps) = offset p.ds_id ∷ own_places offset ps

  -- The partitions come in the order of the list, without an overlap.
  abbrev pub AreOrdered : (ℕ → ℕ) → List (Member Full) → Type 0
  AreOrdered offset [] = Unit
  AreOrdered offset (p ∷ []) = Unit
  AreOrdered offset (p ∷ q ∷ qs) =
      (offset p.ds_id + p.partition_numel ≤ offset q.ds_id) × AreOrdered offset (q ∷ qs)

  total_numel-AreOrdered :
      (offset : ℕ → ℕ) (p : Member Full) (ps : List (Member Full))
      → AreOrdered offset (p ∷ ps)
      → offset p.ds_id + total_numel (p ∷ ps) ≤ expected_end offset p ps
  total_numel-AreOrdered offset p [] o = omega arith
  total_numel-AreOrdered offset p (q ∷ qs) o =
      omega (arith, o.0, total_numel-AreOrdered offset q qs o.1)

  places-own :
      (offset : ℕ → ℕ) (p : Member Full) (ps : List (Member Full))
      → AreOrdered offset (p ∷ ps)
      → offset p.ds_id + total_numel (p ∷ ps) ≡ expected_end offset p ps
      → places (offset p.ds_id) (p ∷ ps) ≡ own_places offset (p ∷ ps)
  unfolding places
  places-own offset p [] o e = refl
  places-own offset p (q ∷ qs) o e =
      let next : offset p.ds_id + p.partition_numel ≡ offset q.ds_id =
        omega (arith, o.0, e, total_numel-AreOrdered offset q qs o.1) in
      ap (◌∷◌ (offset p.ds_id))
        (ap (λ k. places k (q ∷ qs)) next ∙ places-own offset q qs o.1 (omega (arith, e, next)))

  -- If the partitions of a bucket come in the flat buffer in the bucket's order, and the output is
  -- put into the flat buffer, then the place of every part in the output is that parameter's own
  -- partition: nothing else is overwritten, and no copy is needed afterwards.
  pub output_buf-own :
      (rs_use_nccl : Bool) (offset : ℕ → ℕ) (ps : List (Member Full)) (at size : ℕ)
      → AreOrdered offset ps
      → output_buf rs_use_nccl offset ps ≡ some (at, size)
      → (places at ps ≡ own_places offset ps) × (size ≡ total_numel ps)
  unfolding output_buf
  output_buf-own rs_use_nccl offset [] at size o e = cc
  output_buf-own rs_use_nccl offset (p ∷ ps) at size o e =
      elim (Bool-cases
        ((offset p.ds_id + total_numel (p ∷ ps) == expected_end offset p ps) && not rs_use_nccl)) [
          | inl f ↦
              let here : some (offset p.ds_id, total_numel (p ∷ ps)) ≡ some (at, size) =
                sym (ap (λ b. if b then some (offset p.ds_id, total_numel (p ∷ ps)) else none) f)
                ∙ e in
              let first : offset p.ds_id ≡ at = cc in
              let whole : total_numel (p ∷ ps) ≡ size = cc in
              let reached : offset p.ds_id + total_numel (p ∷ ps) ≡ expected_end offset p ps =
                ground arith in
              (
                ap (λ k. places k (p ∷ ps)) (sym first) ∙ places-own offset p ps o reached,
                sym whole,
              )
          | inr f ↦
              let never : none ≡ some (at, size) =
                sym (ap (λ b. if b then some (offset p.ds_id, total_numel (p ∷ ps)) else none) f)
                ∙ e in
              cc
        ]
