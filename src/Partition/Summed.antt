-- ===== src/Partition/Summed.antt =====
-- The parts of summed gradients.
use understanding_smartnic.Prelude.{
  ℕ, zero, suc, ◌+◌, ◌-◌, ◌*◌, min, ◌≡◌, refl, sym, ◌∙◌, ap, List, [], ◌∷◌, map, length, take, drop,
  replicate, take-append_le, take-length, ok, arith,
}
use understanding_smartnic.Tensor.{empty, empty_from}
use understanding_smartnic.Coalesced.Sums.{total, AreLong, take-total, drop-total, length-total}
use understanding_smartnic.Partition.{copy_part}
use understanding_smartnic.Partition.Shard.{
  part, shard_of, length-part, length-shard_of, copy_part_lem,
}
use understanding_smartnic.Partition.Gathered.{ranks_from}
use understanding_smartnic.Partition.Gradients.{GradParam, input_for, input_list}

module _ {ℓ} {A : Type ℓ} (z : A) where
  pub replicate-empty : (i n : ℕ) → replicate n z ≡ empty_from i (λ k. z) n
  replicate-empty i zero = refl
  replicate-empty i (suc n) = ap (◌∷◌ z) (replicate-empty (suc i) n)

  -- A rank's part with zeros behind it.
  abbrev pub padded_part : ℕ → ℕ → List A → List A
  padded_part c rank xs = shard_of c rank (λ k. z) xs

  -- The input for a rank is its part with zeros behind it.
  input_for_lem :
      (p : GradParam A) (i : ℕ)
      → length p.grad ≡ p.ds_numel
      → input_for z p i ≡ ok (padded_part p.partition_size i p.grad)
  unfolding input_for copy_part
  input_for_lem p i e =
      let swap : i * p.partition_size ≡ p.partition_size * i = omega arith in
      let next : p.partition_size * i + p.partition_size ≡ p.partition_size * (i + 1) =
        omega arith in
      rw (swap, sym e, replicate-empty 0 p.partition_size)
        (rw (sym next, copy_part) at (copy_part_lem p.partition_size i (λ k. z) p.grad))

  pub input_list_lem :
      (p : GradParam A) (i n : ℕ)
      → length p.grad ≡ p.ds_numel
      → input_list z p i n ≡ ok (ranks_from (λ r. padded_part p.partition_size r p.grad) i n)
  unfolding input_list
  input_list_lem p i zero e = refl
  input_list_lem p i (suc n) e = rw (input_for_lem p i e, input_list_lem p (i + 1) n e) refl

  take-padded :
      (c rank k : ℕ) (xs : List A)
      → k ≡ min c (length xs - c * rank)
      → take k (padded_part c rank xs) ≡ part c rank xs
  take-padded c rank k xs e =
      let size = length-part c rank xs in
      take-append_le k (part c rank xs) (drop (length (part c rank xs)) (empty (λ i. z) c))
        (omega arith)
      ∙ take-length (part c rank xs) k (omega arith)

  take-paddeds :
      (c rank k n : ℕ) (xss : List (List A))
      → k ≡ min c (n - c * rank)
      → AreLong n xss
      → map (take k) (map (padded_part c rank) xss) ≡ map (take c) (map (drop (c * rank)) xss)
  take-paddeds c rank k n [] e a = refl
  take-paddeds c rank k n (xs ∷ xss) e (b, a) =
      rw
        (
          take-padded c rank k xs (e ∙ ap (λ m. min c (m - c * rank)) (sym b)),
          take-paddeds c rank k n xss e a,
        )
        refl

  -- What the sum of the padded parts holds is the part of the sum.
  pub take-total_padded :
      (op : A → A → A) (c rank k n : ℕ) (g : List A) (gs : List (List A))
      → k ≡ min c (n - c * rank)
      → length g ≡ n
      → AreLong n gs
      → take k (total op (padded_part c rank g) (map (padded_part c rank) gs))
        ≡ part c rank (total op g gs)
  take-total_padded op c rank k n g gs e b a =
      take-total op k (padded_part c rank g) (map (padded_part c rank) gs)
      ∙ ap (λ x. total op x (map (take k) (map (padded_part c rank) gs)))
          (take-padded c rank k g (e ∙ ap (λ m. min c (m - c * rank)) (sym b)))
      ∙ ap (total op (part c rank g)) (take-paddeds c rank k n gs e a)
      ∙ sym (take-total op c (drop (c * rank) g) (map (drop (c * rank)) gs))
      ∙ ap (take c) (sym (drop-total op (c * rank) g gs))

  AreLong-padded : (c rank : ℕ) (xss : List (List A)) → AreLong c (map (padded_part c rank) xss)
  AreLong-padded c rank [] = tt
  AreLong-padded c rank (xs ∷ xss) = (length-shard_of c rank (λ k. z) xs, AreLong-padded c rank xss)

  pub length-total_padded :
      (op : A → A → A) (c rank : ℕ) (g : List A) (gs : List (List A))
      → length (total op (padded_part c rank g) (map (padded_part c rank) gs)) ≡ c
  length-total_padded op c rank g gs =
      length-total op c (padded_part c rank g) (map (padded_part c rank) gs)
        (length-shard_of c rank (λ k. z) g) (AreLong-padded c rank gs)
