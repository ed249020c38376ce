-- ===== src/Coalesced/Outputs.antt =====
-- The outputs of `reduce_scatter_coalesced` are the rank's chunks of the reduced tensors.
use understanding_smartnic.Prelude.{
  ℕ, suc, ◌+◌, ◌*◌, ◌/◌, ◌<◌, ◌≤◌, ◌≡◌, refl, sym, ap, ◌∙◌, List, [], ◌∷◌, map, Option, length,
  take, drop, length-take, drop-drop, Result, ok, err, ◌>>=◌, ◌>>◌, arith,
}
use understanding_smartnic.Tensor.{narrow_lem}
use understanding_smartnic.Coalesced.{
  chunk_sz, chunk, check_output, output_lst, reduce_scatter_coalesced,
}
use understanding_smartnic.Coalesced.Layout.{sizes, flat_buffer-row}
use understanding_smartnic.Coalesced.Sums.{
  total, take-total, drop-total, length-total, take-map, drop-map,
}
use understanding_smartnic.Coalesced.Reduced.{
  Sender, head, IsSimilar, AreSimilar, sent, sums, rest_row, next, take-row, drop-row, take-rows,
  drop-rows, length-rest, AreLong-rows, next-tensors, next-AreSimilar, IsSimilar-self,
  sizes-IsSimilar,
}

module _ {ℓ} {A : Type ℓ} (op : A → A → A) (div_ : A → A) (w r : ℕ) where
  output_lst_lem :
      (flat : List A) (offset idx : ℕ) (ts : List (List A)) (m : ℕ → ℕ → ℕ → A)
      (ss : List (Sender A))
      → offset + sizes w ts ≡ length flat
      → drop offset flat
        ≡ total op
            (rest_row op div_ w r idx (record { memory = m; tensors = ts }))
            (map (rest_row op div_ w r idx) ss)
      → AreSimilar ts ss
      → output_lst w r flat offset ts ≡ ok (sums op div_ w r ts (map (λ s. s.tensors) ss))
  unfolding output_lst
  output_lst_lem flat offset idx [] m ss e d a = refl
  output_lst_lem flat offset idx (t ∷ ts) m ss e d a =
      let n : ℕ = length (chunk w r t) in
      let c : ℕ = chunk_sz w t in
      let mine : Sender A = record { memory = m; tensors = t ∷ ts } in
      let self = IsSimilar-self op div_ w r (t ∷ ts) in
      let below : n ≤ c = omega (arith, length-take c (drop (r * c) t)) in
      let out : take n (drop offset flat)
          ≡ total op (map div_ (chunk w r t))
              (map (λ us. map div_ (chunk w r (head us))) (map (λ s. s.tensors) ss)) =
        ap (take n) d
        ∙ take-total op n (rest_row op div_ w r idx mine) (map (rest_row op div_ w r idx) ss)
        ∙ ap (λ x. total op x (map (take n) (map (rest_row op div_ w r idx) ss)))
            (take-row op div_ w r n idx t ts (m r) (t ∷ ts) refl self)
        ∙ ap (total op (map div_ (chunk w r t))) (take-rows op div_ w r n idx t ts ss refl a) in
      let later : drop (offset + c) flat
          ≡ total op (rest_row op div_ w r (suc idx) (record { memory = m; tensors = ts }))
              (map (rest_row op div_ w r (suc idx)) (map (next op div_ w r) ss)) =
        sym (drop-drop c offset flat)
        ∙ ap (drop c) d
        ∙ drop-total op c (rest_row op div_ w r idx mine) (map (rest_row op div_ w r idx) ss)
        ∙ ap (λ x. total op x (map (drop c) (map (rest_row op div_ w r idx) ss)))
            (drop-row op div_ w r c idx t ts (m r) (t ∷ ts) refl self)
        ∙ ap (total op (rest_row op div_ w r (suc idx) (record { memory = m; tensors = ts })))
            (drop-rows op div_ w r c idx t ts ss refl a) in
      let rest =
        output_lst_lem flat (offset + c) (suc idx) ts m (map (next op div_ w r) ss)
          (omega (arith, e)) later (next-AreSimilar op div_ w r t ts ss a) in
      ap (λ x. x >>= λ o. output_lst w r flat (offset + c) ts >>= λ os. ok (o ∷ os))
        (narrow_lem flat offset n (omega (arith, e, below)))
      ∙ ap (λ x. x >>= λ os. ok (take n (drop offset flat) ∷ os)) rest
      ∙ ap (λ o. ok (o ∷ sums op div_ w r ts (map (λ s. s.tensors) (map (next op div_ w r) ss))))
          out
      ∙ ap
          (λ us. ok (
            total op (map div_ (chunk w r t))
              (map (λ vs. map div_ (chunk w r (head vs))) (map (λ s. s.tensors) ss))
            ∷ sums op div_ w r ts us))
          (next-tensors op div_ w r ss)

  -- Part `r` of what a rank sends is its row for rank `r`.
  segment-sent :
      (s : Sender A) (t : List A) (ts : List (List A))
      → 0 < w
      → r < w
      → IsSimilar (t ∷ ts) s.tensors
      → take (sizes w (t ∷ ts)) (drop (r * sizes w (t ∷ ts)) (sent w div_ s))
        ≡ rest_row op div_ w r 0 s
  segment-sent s t ts h b i =
      elim (s.tensors)
          as (λ us.
            IsSimilar (t ∷ ts) us
            → take (sizes w (t ∷ ts))
                (drop (r * sizes w (t ∷ ts)) (sent w div_ (record s { tensors = us })))
              ≡ rest_row op div_ w r 0 (record s { tensors = us })) [
                | [] ↦ λ j. absurd j
                | u ∷ us ↦ λ j.
                    let (buffer, e, count, part) = flat_buffer-row w r s.memory u us h b in
                    let n : sizes w (t ∷ ts) ≡ sizes w (u ∷ us) =
                      sym (sizes-IsSimilar w (t ∷ ts) (u ∷ us) j) in
                    ap (λ k. take k (drop (r * k) (sent w div_ (record s { tensors = u ∷ us })))) n
                    ∙ ap
                        (λ x.
                          take (sizes w (u ∷ us)) (
                            drop (r * sizes w (u ∷ us))
                              (elim x [ err e ↦ [] | ok q ↦ map div_ q ])))
                        e
                    ∙ ap (take (sizes w (u ∷ us))) (drop-map div_ (r * sizes w (u ∷ us)) buffer)
                    ∙ take-map div_ (sizes w (u ∷ us)) (drop (r * sizes w (u ∷ us)) buffer)
                    ∙ ap (map div_) part
              ]
        i

  segments-sent :
      (ss : List (Sender A)) (t : List A) (ts : List (List A))
      → 0 < w
      → r < w
      → AreSimilar (t ∷ ts) ss
      → map (λ xs. take (sizes w (t ∷ ts)) (drop (r * sizes w (t ∷ ts)) xs)) (map (sent w div_) ss)
        ≡ map (rest_row op div_ w r 0) ss
  segments-sent [] t ts h b a = refl
  segments-sent (s ∷ ss) t ts h b a =
      let part = λ (xs : List A). take (sizes w (t ∷ ts)) (drop (r * sizes w (t ∷ ts)) xs) in
      ap (λ x. x ∷ map part (map (sent w div_) ss)) (segment-sent s t ts h b a.0)
      ∙ ap (◌∷◌ (rest_row op div_ w r 0 s)) (segments-sent ss t ts h b a.1)

  map-map_two :
      (n m : ℕ) (xss : List (List A))
      → map (take n) (map (drop m) xss) ≡ map (λ xs. take n (drop m xs)) xss
  map-map_two n m [] = refl
  map-map_two n m (xs ∷ xss) = ap (◌∷◌ (take n (drop m xs))) (map-map_two n m xss)

  -- Part `r` of the sum of what the ranks send is the sum of their rows for rank `r`.
  part-total :
      (mine : Sender A) (t : List A) (ts : List (List A)) (others : List (Sender A))
      → 0 < w
      → r < w
      → IsSimilar (t ∷ ts) mine.tensors
      → AreSimilar (t ∷ ts) others
      → take
          (sizes w (t ∷ ts))
          (drop (r * sizes w (t ∷ ts)) (total op (sent w div_ mine) (map (sent w div_) others)))
        ≡ total op (rest_row op div_ w r 0 mine) (map (rest_row op div_ w r 0) others)
  part-total mine t ts others h b i a =
      let n : ℕ = sizes w (t ∷ ts) in
      let all : List A = sent w div_ mine in
      let rest : List (List A) = map (sent w div_) others in
      ap (take n) (drop-total op (r * n) all rest)
      ∙ take-total op n (drop (r * n) all) (map (drop (r * n)) rest)
      ∙ ap (total op (take n (drop (r * n) all)))
          (map-map_two n (r * n) rest ∙ segments-sent others t ts h b a)
      ∙ ap (λ x. total op x (map (rest_row op div_ w r 0) others)) (segment-sent mine t ts h b i)

  -- Let the ranks bring as many tensors, of the same sizes, and let the collective leave at this rank
  -- its part of the sum of what the ranks send. If an output buffer is given, let it be large enough.
  -- Then `reduce_scatter_coalesced` returns, and its output for each tensor is the sum over the ranks
  -- of this rank's chunk of that tensor, each element divided first; what the memory of the paddings
  -- held does not matter.
  pub reduce_scatter_coalesced_lem :
      (memory : ℕ → ℕ → ℕ → A) (output_buffer : Option ℕ) (driver : List A → Result (List A))
      (t : List A) (ts : List (List A)) (others : List (Sender A))
      → 0 < w
      → r < w
      → AreSimilar (t ∷ ts) others
      → check_output output_buffer (sizes w (t ∷ ts)) ≡ ok tt
      → driver (sent w div_ (record { memory = memory; tensors = t ∷ ts }))
        ≡ ok (
            take (sizes w (t ∷ ts)) (
              drop (r * sizes w (t ∷ ts)) (
                total op
                  (sent w div_ (record { memory = memory; tensors = t ∷ ts }))
                  (map (sent w div_) others))))
      → reduce_scatter_coalesced w r memory div_ output_buffer driver (t ∷ ts)
        ≡ ok (sums op div_ w r (t ∷ ts) (map (λ s. s.tensors) others))
  unfolding reduce_scatter_coalesced
  reduce_scatter_coalesced_lem memory output_buffer driver t ts others h b a large sums_up =
      let mine : Sender A = record { memory = memory; tensors = t ∷ ts } in
      let self = IsSimilar-self op div_ w r (t ∷ ts) in
      let (buffer, e, count, part) = flat_buffer-row w r memory t ts h b in
      let flat : List A =
        total op (rest_row op div_ w r 0 mine) (map (rest_row op div_ w r 0) others) in
      let numel : length flat ≡ sizes w (t ∷ ts) =
        length-total op (sizes w (t ∷ ts)) (rest_row op div_ w r 0 mine)
          (map (rest_row op div_ w r 0) others)
          (length-rest op div_ w r 0 (t ∷ ts) (memory r) (t ∷ ts) self)
          (AreLong-rows op div_ w r 0 (t ∷ ts) others a) in
      let sends : sent w div_ mine ≡ map div_ buffer =
        ap (λ x. elim x [ err e ↦ [] | ok q ↦ map div_ q ]) e in
      ap
        (λ x. x >>= λ q.
          check_output output_buffer (length q / w)
          >> (driver (map div_ q) >>= λ f. output_lst w r f 0 (t ∷ ts)))
        e
      ∙ ap
          (λ k.
            check_output output_buffer k
            >> (driver (map div_ buffer) >>= λ f. output_lst w r f 0 (t ∷ ts)))
          count
      ∙ ap (λ x. x >> (driver (map div_ buffer) >>= λ f. output_lst w r f 0 (t ∷ ts))) large
      ∙ ap (λ q. driver q >>= λ f. output_lst w r f 0 (t ∷ ts)) (sym sends)
      ∙ ap (λ x. x >>= λ f. output_lst w r f 0 (t ∷ ts)) sums_up
      ∙ ap (λ f. output_lst w r f 0 (t ∷ ts)) (part-total mine t ts others h b self a)
      ∙ output_lst_lem flat 0 0 (t ∷ ts) memory others (omega (arith, numel)) refl a
