-- ===== src/Adam/Step.antt =====
-- src/smartnic_offload/zero_optimizer.py, `step` of `ZeroOptimizer3`, the update without delay: the
-- subgroups one after the other, each by the CPU Adam in the same process and then copied to fp16.
-- `initialize_optimizer_states` has made the first gradient buffer the `grad` of the fp32 weights.
use understanding_smartnic.Prelude.{
  ℕ, zero, suc, ◌≡◌, refl, sym, ap, ◌∙◌, List, [], ◌∷◌, ◌++◌, map, none, some, length, get_elem?,
  get_or, set, length-append, Result, ok, err, ◌>>=◌, index_error, arith,
}
use understanding_smartnic.Prelude.Middle.{get_elem?-middle, set-middle, append_step}
use understanding_smartnic.Adam.{World}
use understanding_smartnic.Adam.Quiet.{adam_groups}

module _ {Weight Grad Half : Type 0} where
  -- `_optimizer_step` for subgroup `i`
  pub optimizer_step :
      (ℕ → Weight → Grad → Weight)
      → (ℕ → ℕ)
      → ℕ
      → World Weight Grad Half
      → Result (World Weight Grad Half)
  optimizer_step adam sub_group_to_group_id i w =
      elim (get_elem? w.fp32_partitioned_groups_flat i) [
        | none ↦ err index_error
        | some weight ↦ elim (get_elem? (get_or w.fp32_grad_bufs 0 []) i) [
          | none ↦ err index_error
          | some grad ↦ ok (record w {
            fp32_partitioned_groups_flat =
                set w.fp32_partitioned_groups_flat i (adam (sub_group_to_group_id i) weight grad);
          })
        ]
      ]

  -- `_reassign_or_swap_out_partitioned_parameters` for subgroup `i`
  pub reassign_partitioned_parameters :
      (Weight → Half) → ℕ → World Weight Grad Half → Result (World Weight Grad Half)
  reassign_partitioned_parameters half i w = elim (get_elem? w.fp32_partitioned_groups_flat i) [
    | none ↦ err index_error
    | some weight ↦ ok (record w {
      fp16_partitioned_groups_flat = set w.fp16_partitioned_groups_flat i (half weight);
    })
  ]

  -- The loop of `step`, for `n` more subgroups from `i` on.
  pub step_groups :
      (ℕ → Weight → Grad → Weight)
      → (ℕ → ℕ)
      → (Weight → Half)
      → ℕ
      → ℕ
      → World Weight Grad Half
      → Result (World Weight Grad Half)
  unfolding optimizer_step reassign_partitioned_parameters
  step_groups adam group half i zero w = ok w
  step_groups adam group half i (suc n) w =
      optimizer_step adam group i w
      >>= reassign_partitioned_parameters half i
      >>= step_groups adam group half (suc i) n

module _ {Weight Grad Half : Type 0} (adam : ℕ → Weight → Grad → Weight) (group : ℕ → ℕ)
    (half : Weight → Half) where
  optimizer_step_lem :
      (i : ℕ) (w : World Weight Grad Half) (x : Weight) (g : Grad)
      → get_elem? w.fp32_partitioned_groups_flat i ≡ some x
      → get_elem? (get_or w.fp32_grad_bufs 0 []) i ≡ some g
      → optimizer_step adam group i w
        ≡ ok (record w {
          fp32_partitioned_groups_flat = set w.fp32_partitioned_groups_flat i (adam (group i) x g);
        })
  unfolding optimizer_step
  optimizer_step_lem i w x g e f = ground arith

  reassign_lem :
      (i : ℕ) (w : World Weight Grad Half) (x : Weight)
      → get_elem? w.fp32_partitioned_groups_flat i ≡ some x
      → reassign_partitioned_parameters half i w
        ≡ ok (record w {
          fp16_partitioned_groups_flat = set w.fp16_partitioned_groups_flat i (half x);
        })
  unfolding reassign_partitioned_parameters
  reassign_lem i w x e = ground arith

  step_groups_lem :
      (i : ℕ) (ws rest : List Weight) (hs olds : List Half) (gs grads : List Grad)
      (w : World Weight Grad Half)
      → w.fp32_partitioned_groups_flat ≡ ws ++ rest
      → w.fp16_partitioned_groups_flat ≡ hs ++ olds
      → get_or w.fp32_grad_bufs 0 [] ≡ gs ++ grads
      → length ws ≡ i
      → length hs ≡ i
      → length gs ≡ i
      → length olds ≡ length rest
      → length grads ≡ length rest
      → step_groups adam group half i (length rest) w
        ≡ ok (record w {
          fp32_partitioned_groups_flat = ws ++ adam_groups adam group i rest grads;
          fp16_partitioned_groups_flat = hs ++ map half (adam_groups adam group i rest grads);
        })
  unfolding step_groups
  step_groups_lem i ws [] hs [] gs grads w e f b lw lh lg lo ln =
      ap
        (λ x. ok (record w {
          fp32_partitioned_groups_flat = x;
          fp16_partitioned_groups_flat = w.fp16_partitioned_groups_flat;
        }))
        e
      ∙ ap
          (λ x. ok (record w {
            fp32_partitioned_groups_flat = ws ++ [];
            fp16_partitioned_groups_flat = x;
          }))
          f
  step_groups_lem i ws [] hs (o ∷ olds) gs grads w e f b lw lh lg lo ln = absurd (omega arith)
  step_groups_lem i ws (r ∷ rest) hs [] gs grads w e f b lw lh lg lo ln = absurd (omega arith)
  step_groups_lem i ws (r ∷ rest) hs (o ∷ olds) gs [] w e f b lw lh lg lo ln = absurd (omega arith)
  step_groups_lem i ws (r ∷ rest) hs (o ∷ olds) gs (g ∷ grads) w e f b lw lh lg lo ln =
      let x : Weight = adam (group i) r g in
      let new : set w.fp32_partitioned_groups_flat i x ≡ (ws ++ x ∷ []) ++ rest =
        ap (λ l. set l i x) e ∙ set-middle ws i r x rest lw in
      let v : World Weight Grad Half = record w {
        fp32_partitioned_groups_flat = set w.fp32_partitioned_groups_flat i x;
      } in
      let u : World Weight Grad Half = record v {
        fp16_partitioned_groups_flat = set w.fp16_partitioned_groups_flat i (half x);
      } in
      ap
        (λ y.
          (y >>= reassign_partitioned_parameters half i)
          >>= step_groups adam group half (suc i) (length rest))
        (optimizer_step_lem i w r g (ap (λ l. get_elem? l i) e ∙ get_elem?-middle ws i r rest lw)
          (ap (λ l. get_elem? l i) b ∙ get_elem?-middle gs i g grads lg))
      ∙ ap (λ y. y >>= step_groups adam group half (suc i) (length rest))
          (reassign_lem i v x (
            ap (λ l. get_elem? l i) (new ∙ sym (append_step ws x rest))
            ∙ get_elem?-middle ws i x rest lw))
      ∙ step_groups_lem (suc i) (ws ++ x ∷ []) rest (hs ++ half x ∷ []) olds (gs ++ g ∷ []) grads u
          new (ap (λ l. set l i (half x)) f ∙ set-middle hs i o (half x) olds lh)
          (b ∙ append_step gs g grads) (omega (arith, lw, length-append ws (x ∷ [])))
          (omega (arith, lh, length-append hs (half x ∷ [])))
          (omega (arith, lg, length-append gs (g ∷ []))) (omega arith) (omega arith)
      ∙ ap
          (λ l. ok (record w {
            fp32_partitioned_groups_flat = l;
            fp16_partitioned_groups_flat =
                (hs ++ half x ∷ []) ++ map half (adam_groups adam group (suc i) rest grads);
          }))
          (sym (append_step ws x (adam_groups adam group (suc i) rest grads)))
      ∙ ap
          (λ l. ok (record w {
            fp32_partitioned_groups_flat = ws ++ adam_groups adam group i (r ∷ rest) (g ∷ grads);
            fp16_partitioned_groups_flat = l;
          }))
          (sym (append_step hs (half x) (map half (adam_groups adam group (suc i) rest grads))))

  -- With a gradient and an fp16 copy for each subgroup, the loop of `step` over all subgroups returns:
  -- the optimizer has been applied to every subgroup with its gradient of the first buffer, the fp16
  -- weights are the copies of the new weights, and nothing else has changed.
  pub step_groups-adam_groups :
      (w : World Weight Grad Half)
      → length w.fp16_partitioned_groups_flat ≡ length w.fp32_partitioned_groups_flat
      → length (get_or w.fp32_grad_bufs 0 []) ≡ length w.fp32_partitioned_groups_flat
      → step_groups adam group half 0 (length w.fp32_partitioned_groups_flat) w
        ≡ ok (record w {
          fp32_partitioned_groups_flat =
              adam_groups adam group 0 w.fp32_partitioned_groups_flat
                (get_or w.fp32_grad_bufs 0 []);
          fp16_partitioned_groups_flat = map half (
              adam_groups adam group 0 w.fp32_partitioned_groups_flat
                (get_or w.fp32_grad_bufs 0 []));
        })
  step_groups-adam_groups w h g =
      step_groups_lem 0 [] w.fp32_partitioned_groups_flat [] w.fp16_partitioned_groups_flat []
        (get_or w.fp32_grad_bufs 0 []) w refl refl refl refl refl refl h g
