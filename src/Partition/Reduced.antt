-- ===== src/Partition/Reduced.antt =====
-- After `_reduce_scatter_gradients` and `_partition_gradients` a rank has its part of the summed
-- gradients.
use understanding_smartnic.Prelude.{
  ℕ, ◌+◌, ◌-◌, ◌*◌, min, ◌≤◌, ◌<◌, ◌≡◌, refl, sym, ◌∙◌, ap, List, [], ◌++◌, map, length, take, drop,
  replicate, length-take, length-replicate, take-length, drop-length, none, Bool, true, false, ltb,
  leb, ok, ◌>>=◌, arith,
}
use mathlib.Core.List.{append_assoc}
use native.Mathlib.Decide.{dec_lt, dec_le}
use understanding_smartnic.Tensor.{write_at, narrow, narrow_lem, empty}
use understanding_smartnic.Coalesced.Sums.{total, AreLong, length-total}
use understanding_smartnic.Partition.Shard.{part, length-part}
use understanding_smartnic.Partition.Gathered.{narrow-middle}
use understanding_smartnic.Partition.Gradients.{
  GradParam, finish, reduced_in_place, copy_reduced, partition_gradient, put_source,
}
use understanding_smartnic.Partition.Summed.{
  padded_part, replicate-empty, take-total_padded, length-total_padded,
}

module _ {ℓ} {A : Type ℓ} where
  write_at_lem :
      (xs ys : List A) (start : ℕ)
      → start + length ys ≤ length xs
      → write_at xs start ys ≡ ok (take start xs ++ ys ++ drop (start + length ys) xs)
  write_at_lem xs ys start h = ground arith

  -- A gradient in which a rank's part was replaced.
  abbrev pub replaced : GradParam A → ℕ → List A → GradParam A
  replaced p start ys = record p {
    grad = take start p.grad ++ ys ++ drop (start + length ys) p.grad;
  }

  -- The part of a rank inside the gradient is replaced by what was reduced of it.
  reduced-replaced :
      (p : GradParam A) (rank k : ℕ) (reduced : List A)
      → length p.grad ≡ p.ds_numel
      → rank * p.partition_size < p.ds_numel
      → k ≡ min p.partition_size (p.ds_numel - p.partition_size * rank)
      → length reduced ≡ p.partition_size
      → finish rank p reduced ≡ ok (replaced p (rank * p.partition_size) (take k reduced))
  unfolding finish reduced_in_place copy_reduced
  reduced-replaced p rank k reduced e b size long =
      let swap : rank * p.partition_size ≡ p.partition_size * rank = omega arith in
      let inside : ltb (rank * p.partition_size) p.ds_numel ≡ true = ground arith in
      elim (dec_le (rank * p.partition_size + p.partition_size) p.ds_numel) [
        | yes h ↦
            let fits : leb (rank * p.partition_size + p.partition_size) p.ds_numel ≡ true =
              ground arith in
            let not_over : ltb p.ds_numel (rank * p.partition_size + p.partition_size) ≡ false =
              ground arith in
            let whole : take k reduced ≡ reduced = take-length reduced k (omega arith) in
            rw
              (
                inside,
                fits,
                whole,
                write_at_lem p.grad reduced (rank * p.partition_size) (omega arith),
                inside,
                not_over,
              )
              refl
        | no h ↦
            let over : leb (rank * p.partition_size + p.partition_size) p.ds_numel ≡ false =
              ground arith in
            let stops : ltb p.ds_numel (rank * p.partition_size + p.partition_size) ≡ true =
              ground arith in
            let left : p.ds_numel - rank * p.partition_size ≡ k = omega arith in
            rw
              (
                inside,
                over,
                stops,
                left,
                narrow_lem reduced 0 k (omega arith),
                write_at_lem p.grad (take k reduced) (rank * p.partition_size)
                    (omega (arith, length-take k reduced)),
                inside,
              )
              refl
      ]

  fresh_buffer : (c : ℕ) (z : A) → narrow (replicate c z) 0 c ≡ ok (replicate c z)
  fresh_buffer c z =
      let size : length (replicate c z) ≡ c = length-replicate c z in
      narrow_lem (replicate c z) 0 c (omega arith)
      ∙ ap ok (take-length (replicate c z) c (omega arith))

  -- The part is cut out of such a gradient, with zeros behind it.
  partition_gradient-replaced :
      (z : A) (plus : A → A → A) (p : GradParam A) (rank : ℕ) (same_device : Bool) (ys : List A)
      → length p.grad ≡ p.ds_numel
      → p.partition_size * rank < p.ds_numel
      → length ys ≡ min p.partition_size (p.ds_numel - p.partition_size * rank)
      → partition_gradient z plus rank same_device false
          (replaced p (rank * p.partition_size) ys)
          none
        ≡ ok (record p { grad = ys ++ drop (length ys) (empty (λ i. z) p.partition_size) })
  unfolding partition_gradient put_source
  partition_gradient-replaced z plus p rank same_device ys e b size =
      let c : ℕ = p.partition_size in
      let start : ℕ = rank * c in
      let swap : c * rank ≡ rank * c = omega arith in
      let inside : ltb (rank * c) p.ds_numel ≡ true = ground arith in
      let front : length (take start p.grad) ≡ rank * c = omega (arith, length-take start p.grad) in
      let found : narrow (take start p.grad ++ ys ++ drop (start + length ys) p.grad) (rank * c)
            (min (p.ds_numel - rank * c) c)
          ≡ ok ys =
        ap (λ xs. narrow xs (rank * c) (min (p.ds_numel - rank * c) c))
          (append_assoc (take start p.grad) ys (drop (start + length ys) p.grad))
        ∙ narrow-middle (take start p.grad) ys (drop (start + length ys) p.grad) (rank * c)
            (min (p.ds_numel - rank * c) c) front (omega arith) in
      let room : length (replicate c z) ≡ c = length-replicate c z in
      let zero_first : 0 + length ys ≡ length ys = omega arith in
      rw
        (
          fresh_buffer c z,
          swap,
          inside,
          found,
          write_at_lem (replicate c z) ys 0 (omega arith),
          zero_first,
          replicate-empty z 0 c,
        )
        refl

  -- A rank whose part lies behind the end of the gradient leaves it as it is and has zeros.
  finish-behind :
      (p : GradParam A) (rank : ℕ) (reduced : List A)
      → p.ds_numel ≤ p.partition_size * rank
      → finish rank p reduced ≡ ok p
  unfolding finish reduced_in_place copy_reduced
  finish-behind p rank reduced h =
      let swap : rank * p.partition_size ≡ p.partition_size * rank = omega arith in
      let behind : ltb (rank * p.partition_size) p.ds_numel ≡ false = ground arith in
      rw (behind, behind) refl

  partition_gradient-behind :
      (z : A) (plus : A → A → A) (p : GradParam A) (rank : ℕ) (same_device : Bool)
      → p.ds_numel ≤ p.partition_size * rank
      → partition_gradient z plus rank same_device false p none
        ≡ ok (record p { grad = empty (λ i. z) p.partition_size })
  unfolding partition_gradient
  partition_gradient-behind z plus p rank same_device h =
      let behind : ltb (p.partition_size * rank) p.ds_numel ≡ false = ground arith in
      rw (fresh_buffer p.partition_size z, behind, replicate-empty z 0 p.partition_size) refl

  -- One parameter, from what the reduce-scatter leaves to the rank's own part.
  pub reduced-partition_gradient :
      (z : A) (plus op : A → A → A) (p : GradParam A) (rank : ℕ) (same_device : Bool) (g : List A)
      (gs : List (List A))
      → length p.grad ≡ p.ds_numel
      → length g ≡ p.ds_numel
      → AreLong p.ds_numel gs
      → (finish rank p (
            total op
              (padded_part z p.partition_size rank g)
              (map (padded_part z p.partition_size rank) gs))
          >>= λ r. partition_gradient z plus rank same_device false r none)
        ≡ ok (record p { grad = padded_part z p.partition_size rank (total op g gs) })
  reduced-partition_gradient z plus op p rank same_device g gs e first others =
      let c : ℕ = p.partition_size in
      let reduced : List A = total op (padded_part z c rank g) (map (padded_part z c rank) gs) in
      let k : ℕ = min c (p.ds_numel - c * rank) in
      let long : length (total op g gs) ≡ p.ds_numel =
        length-total op p.ds_numel g gs first others in
      let mine : take k reduced ≡ part c rank (total op g gs) =
        take-total_padded z op c rank k p.ds_numel g gs refl first others in
      elim (dec_lt (c * rank) p.ds_numel) [
        | no h ↦
            let none_left : part c rank (total op g gs) ≡ [] =
              ap (take c) (drop-length (total op g gs) (c * rank) (omega arith))
              ∙ take-length {A = A} [] c (omega arith) in
            ap (λ x. x >>= λ r. partition_gradient z plus rank same_device false r none)
              (finish-behind p rank reduced (omega arith))
            ∙ partition_gradient-behind z plus p rank same_device (omega arith)
            ∙ ap (λ ys. ok (record p { grad = ys ++ drop (length ys) (empty (λ i. z) c) }))
                (sym none_left)
        | yes b ↦
            let size : length (take k reduced) ≡ k =
              ap length mine
              ∙ length-part c rank (total op g gs)
              ∙ ap (λ n. min c (n - c * rank)) long in
            ap (λ x. x >>= λ r. partition_gradient z plus rank same_device false r none)
              (reduced-replaced p rank k reduced e (omega arith) refl
                (length-total_padded z op c rank g gs))
            ∙ partition_gradient-replaced z plus p rank same_device (take k reduced) e b size
            ∙ ap (λ ys. ok (record p { grad = ys ++ drop (length ys) (empty (λ i. z) c) })) mine
      ]
