-- ===== src/Partition/Owned.antt =====
-- `_reduce_scatter_gradients` followed by `_partition_gradients`, for several parameters.
use understanding_smartnic.Prelude.{
  ℕ, suc, ◌≡◌, refl, List, [], ◌∷◌, map, length, Option, none, Bool, true, false, ◌==◌, Result, ok,
  ◌>>=◌, >>=-eq-ok, arith,
}
use mathlib.Core.Logic.{Lift}
use understanding_smartnic.Coalesced.Sums.{total, AreLong}
use understanding_smartnic.Partition.Gathered.{ranks_from}
use understanding_smartnic.Partition.Gradients.{
  GradParam, finish, launch_all, finish_all, reduce_scatter_gradients, partition_gradient,
  partition_gradients,
}
use understanding_smartnic.Partition.Summed.{padded_part, input_list_lem}
use understanding_smartnic.Partition.Reduced.{reduced-partition_gradient}

module _ {ℓ} {A : Type ℓ} where
  -- What the reduce-scatters give a rank for the parameters, where `sums` has the gradients of all
  -- ranks: the rank's padded parts, added.
  abbrev pub parts_summed :
      A → (A → A → A) → ℕ → List (GradParam A) → List (List A × List (List A)) → List (List A)
  parts_summed z op rank (p ∷ ps) ((g, gs) ∷ sums) =
      total op (padded_part z p.partition_size rank g)
        (map (padded_part z p.partition_size rank) gs)
      ∷ parts_summed z op rank ps sums
  parts_summed z op rank _ _ = []

  -- The gradients of all ranks are as long as the parameter, and for this rank's inputs the
  -- reduce-scatter of each parameter gives the sum of all ranks' inputs for this rank.
  abbrev pub IsSummed :
      A
      → (A → A → A)
      → ℕ
      → ℕ
      → (ℕ → List (List A) → Result (List A))
      → ℕ
      → List (GradParam A)
      → List (List A × List (List A))
      → Type ℓ
  IsSummed z op w rank reduce idx [] [] = Unit {ℓ}
  IsSummed z op w rank reduce idx (p ∷ ps) ((g, gs) ∷ sums) =
      (length p.grad ≡ p.ds_numel)
      × (length g ≡ p.ds_numel)
      × AreLong p.ds_numel gs
      × (reduce idx (ranks_from (λ r. padded_part z p.partition_size r p.grad) 0 w)
          ≡ ok (
              total op (padded_part z p.partition_size rank g)
                (map (padded_part z p.partition_size rank) gs)))
      × IsSummed z op w rank reduce (suc idx) ps sums
  IsSummed z op w rank reduce idx _ _ = Lift {0, ℓ} ⊥

  -- The parameters, each with the rank's part of the summed gradient.
  abbrev pub owned :
      A → (A → A → A) → ℕ → List (GradParam A) → List (List A × List (List A)) → List (GradParam A)
  owned z op rank (p ∷ ps) ((g, gs) ∷ sums) =
      record p { grad = padded_part z p.partition_size rank (total op g gs) }
      ∷ owned z op rank ps sums
  owned z op rank _ _ = []

  -- `[None] * len(param_list)`
  abbrev pub no_buffers : List (GradParam A) → List (Option (List A))
  no_buffers ps = map (λ p. none) ps

  launch_all_lem :
      (z : A) (op : A → A → A) (w rank : ℕ) (reduce : ℕ → List (List A) → Result (List A)) (idx : ℕ)
      (ps : List (GradParam A)) (sums : List (List A × List (List A)))
      → IsSummed z op w rank reduce idx ps sums
      → launch_all z w reduce idx ps ≡ ok (parts_summed z op rank ps sums)
  unfolding launch_all
  launch_all_lem z op w rank reduce idx [] [] s = refl
  launch_all_lem z op w rank reduce idx [] (x ∷ sums) s = absurd (s.lower)
  launch_all_lem z op w rank reduce idx (p ∷ ps) [] s = absurd (s.lower)
  launch_all_lem z op w rank reduce idx (p ∷ ps) ((g, gs) ∷ sums) (e, first, others, call, s) =
      let same : (length p.grad == p.ds_numel) ≡ true = ground arith in
      rw
        (
          same,
          input_list_lem z p 0 w e,
          call,
          launch_all_lem z op w rank reduce (suc idx) ps sums s,
        )
        refl

  finish_all-partition_gradients :
      (z : A) (plus op : A → A → A) (w rank : ℕ) (reduce : ℕ → List (List A) → Result (List A))
      (same_device : Bool) (idx : ℕ) (ps : List (GradParam A))
      (sums : List (List A × List (List A)))
      → IsSummed z op w rank reduce idx ps sums
      → (qs : List (GradParam A)) × (finish_all rank ps (parts_summed z op rank ps sums) ≡ ok qs)
        × (partition_gradients z plus rank same_device false qs (no_buffers ps)
            ≡ ok (owned z op rank ps sums))
  unfolding finish_all partition_gradients
  finish_all-partition_gradients z plus op w rank reduce same_device idx [] [] s = ([], refl, refl)
  finish_all-partition_gradients z plus op w rank reduce same_device idx [] (x ∷ sums) s =
      absurd (s.lower)
  finish_all-partition_gradients z plus op w rank reduce same_device idx (p ∷ ps) [] s =
      absurd (s.lower)
  finish_all-partition_gradients z plus op w rank reduce same_device idx (p ∷ ps) ((g, gs) ∷ sums)
        (e, first, others, call, s) =
      let (qs, ended, cut) =
        finish_all-partition_gradients z plus op w rank reduce same_device (suc idx) ps sums s in
      let (q, finished, own) =
        >>=-eq-ok (finish rank p _) (λ r. partition_gradient z plus rank same_device false r none)
          (reduced-partition_gradient z plus op p rank same_device g gs e first others) in
      (q ∷ qs, rw (finished, ended) refl, rw (own, cut) refl)

  -- When a rank reduce-scatters the gradients of several parameters and then partitions them, without
  -- buffers of its own and without accumulation, both calls return, and each gradient becomes the
  -- rank's part of the sum of all ranks' gradients, with zeros behind the sum's end. The gradients of
  -- all ranks are as long as the parameter, and the collective gives this rank for its inputs the sum
  -- of all ranks' inputs for it.
  pub reduce_scatter_gradients-partition_gradients :
      (z : A) (plus op : A → A → A) (w rank : ℕ) (reduce : ℕ → List (List A) → Result (List A))
      (same_device : Bool) (ps : List (GradParam A)) (sums : List (List A × List (List A)))
      → IsSummed z op w rank reduce 0 ps sums
      → (reduce_scatter_gradients z w rank reduce ps >>= λ qs.
          partition_gradients z plus rank same_device false qs (no_buffers ps))
        ≡ ok (owned z op rank ps sums)
  unfolding reduce_scatter_gradients
  reduce_scatter_gradients-partition_gradients z plus op w rank reduce same_device ps sums s =
      let (qs, ended, cut) =
        finish_all-partition_gradients z plus op w rank reduce same_device 0 ps sums s in
      rw (launch_all_lem z op w rank reduce 0 ps sums s, ended) cut
