-- ===== src/Coalesced/Layout.antt =====
-- Rank `r` finds the chunks for it in part `r` of the flat buffer.
use understanding_smartnic.Prelude.{
  ℕ, zero, suc, ◌+◌, ◌-◌, ◌*◌, ◌/◌, ◌%◌, ◌<◌, ◌≤◌, ◌≡◌, refl, sym, ap, ◌∙◌, List, [], ◌∷◌, ◌++◌,
  ◌==◌, if◌then◌else◌, Bool-cases, inl, inr, length, take, drop, length-append, length-take,
  length-drop, take-append_le, take-length, drop-append, drop-drop, ok, arith,
}
use mathlib.Core.List.{append-nil}
use native.Mathlib.Nat.{
  div-add-mod, add-mul-div_left, div-eq_of_lt, mul-div_cancel_left, mul-le-mul_right,
}
use understanding_smartnic.Tensor.{empty, length-empty_from}
use understanding_smartnic.Coalesced.{chunk_sz, chunk, padded, row, rows_from, flat_buffer}

module _ {ℓ} {A : Type ℓ} where
  -- `sum(padded_partition_sz_for_each_tensor)`
  abbrev pub sizes : ℕ → List (List A) → ℕ
  sizes w [] = 0
  sizes w (t ∷ ts) = chunk_sz w t + sizes w ts

  pub length-padded :
      (w r : ℕ) (memory : ℕ → A) (t : List A) → length (padded w r memory t) ≡ chunk_sz w t
  length-padded w r memory t =
      let c : ℕ = chunk_sz w t in
      let n : length (chunk w r t) ≤ c = omega (arith, length-take c (drop (r * c) t)) in
      omega (
        arith,
        n,
        length-append (chunk w r t) (empty memory (c - length (chunk w r t))),
        length-empty_from 0 memory (c - length (chunk w r t)),
      )

  pub length-row :
      (w r : ℕ) (memory : ℕ → ℕ → A) (idx : ℕ) (ts : List (List A))
      → length (row w r memory idx ts) ≡ sizes w ts
  unfolding row
  length-row w r memory idx [] = refl
  length-row w r memory idx (t ∷ ts) = omega (
    arith,
    length-append (padded w r (memory idx) t) (row w r memory (suc idx) ts),
    length-padded w r (memory idx) t,
    length-row w r memory (suc idx) ts,
  )

  length-rows_from :
      (w n r : ℕ) (memory : ℕ → ℕ → ℕ → A) (ts : List (List A))
      → length (rows_from w n r memory ts) ≡ n * sizes w ts
  unfolding rows_from
  length-rows_from w zero r memory ts = omega arith
  length-rows_from w (suc n) r memory ts =
      let more : suc n * sizes w ts ≡ sizes w ts + n * sizes w ts = omega arith in
      omega (
        arith,
        more,
        length-append (row w r (memory r) 0 ts) (rows_from w n (suc r) memory ts),
        length-row w r (memory r) 0 ts,
        length-rows_from w n (suc r) memory ts,
      )

  -- Row `k` of the rows from `r` on.
  segment-rows_from :
      (w n r k : ℕ) (memory : ℕ → ℕ → ℕ → A) (ts : List (List A))
      → k < n
      → take (sizes w ts) (drop (k * sizes w ts) (rows_from w n r memory ts))
        ≡ row w (r + k) (memory (r + k)) 0 ts
  unfolding rows_from
  segment-rows_from w zero r k memory ts h = absurd (omega arith)
  segment-rows_from w (suc n) r zero memory ts h =
      let s : ℕ = sizes w ts in
      let l = length-row w r (memory r) 0 ts in
      let none : 0 * s ≡ 0 = omega arith in
      let same : r ≡ r + 0 = omega arith in
      ap (λ m. take s (drop m (rows_from w (suc n) r memory ts))) none
      ∙ take-append_le s (row w r (memory r) 0 ts) (rows_from w n (suc r) memory ts)
          (omega (arith, l))
      ∙ take-length (row w r (memory r) 0 ts) s (omega (arith, l))
      ∙ ap (λ q. row w q (memory q) 0 ts) same
  segment-rows_from w (suc n) r (suc k) memory ts h =
      let s : ℕ = sizes w ts in
      let l = length-row w r (memory r) 0 ts in
      let more : suc k * s ≡ s + k * s = omega arith in
      let same : suc r + k ≡ r + suc k = omega arith in
      ap (λ m. take s (drop m (rows_from w (suc n) r memory ts))) more
      ∙ ap (take s) (
          sym (drop-drop (k * s) s (rows_from w (suc n) r memory ts))
          ∙ ap (drop (k * s))
              (drop-append s (row w r (memory r) 0 ts) (rows_from w n (suc r) memory ts) (sym l)))
      ∙ segment-rows_from w n (suc r) k memory ts (omega arith)
      ∙ ap (λ q. row w q (memory q) 0 ts) same

  -- The chunk of a tensor that the ranks share evenly.
  chunk_sz-even : (w : ℕ) (t : List A) → 0 < w → length t % w ≡ 0 → chunk_sz w t ≡ length t / w
  unfolding chunk_sz
  chunk_sz-even w t h e =
      let q : ℕ = length t / w in
      let below : w - 1 < w = omega arith in
      let split : length t + (w - 1) ≡ (w - 1) + w * q = omega (arith, div-add-mod (length t) w) in
      ap (λ k. k / w) split ∙ add-mul-div_left (w - 1) q h ∙ omega (arith, div-eq_of_lt below)

  rows-length :
      (w : ℕ) (memory : ℕ → ℕ → ℕ → A) (ts : List (List A))
      → 0 < w
      → length (rows_from w w 0 memory ts) / w ≡ sizes w ts
  rows-length w memory ts h =
      ap (λ k. k / w) (length-rows_from w w 0 memory ts) ∙ mul-div_cancel_left (sizes w ts) h

  rows-segment :
      (w r : ℕ) (memory : ℕ → ℕ → ℕ → A) (ts : List (List A))
      → r < w
      → take (sizes w ts) (drop (r * sizes w ts) (rows_from w w 0 memory ts))
        ≡ row w r (memory r) 0 ts
  rows-segment w r memory ts h =
      let same : 0 + r ≡ r = omega arith in
      segment-rows_from w w 0 r memory ts h ∙ ap (λ q. row w q (memory q) 0 ts) same

  -- Without padding the row of a single tensor is its chunk.
  row-even :
      (w r : ℕ) (memory : ℕ → ℕ → A) (t : List A)
      → 0 < w
      → r < w
      → length t % w ≡ 0
      → row w r memory 0 (t ∷ []) ≡ chunk w r t
  unfolding row
  row-even w r memory t h b e =
      let c : ℕ = chunk_sz w t in
      let whole : length t ≡ w * c =
        omega (arith, div-add-mod (length t) w, ap (λ k. w * k) (chunk_sz-even w t h e)) in
      let inside : (r + 1) * c ≤ w * c = mul-le-mul_right c (omega arith) in
      let full : length (chunk w r t) ≡ c =
        omega (arith, length-take c (drop (r * c) t), length-drop (r * c) t, whole, inside) in
      let gap : c - length (chunk w r t) ≡ 0 = omega arith in
      ap (λ k. (chunk w r t ++ empty (memory 0) k) ++ []) gap
      ∙ append-nil (chunk w r t ++ [])
      ∙ append-nil (chunk w r t)

  -- The flat buffer has a row of `sizes` elements for each rank, and row `r` has the padded chunks for
  -- rank `r`.
  pub flat_buffer-row :
      (w r : ℕ) (memory : ℕ → ℕ → ℕ → A) (t : List A) (ts : List (List A))
      → 0 < w
      → r < w
      → (buffer : List A) × (flat_buffer w memory (t ∷ ts) ≡ ok buffer)
        × (length buffer / w ≡ sizes w (t ∷ ts))
        × (take (sizes w (t ∷ ts)) (drop (r * sizes w (t ∷ ts)) buffer)
            ≡ row w r (memory r) 0 (t ∷ ts))
  unfolding flat_buffer
  flat_buffer-row w r memory t [] h b = elim (Bool-cases (length t % w == 0)) [
    | inl e ↦
        let even : length t % w ≡ 0 = ground arith in
        let c = chunk_sz-even w t h even in
        let total : sizes w (t ∷ []) ≡ chunk_sz w t = omega arith in
        (
          t,
          ap (λ x. if x then ok t else ok (rows_from w w 0 memory (t ∷ []))) e,
          sym c ∙ sym total,
          ap (λ k. take k (drop (r * k) t)) total ∙ sym (row-even w r (memory r) t h b even),
        )
    | inr e ↦ (
      rows_from w w 0 memory (t ∷ []),
      ap (λ x. if x then ok t else ok (rows_from w w 0 memory (t ∷ []))) e,
      rows-length w memory (t ∷ []) h,
      rows-segment w r memory (t ∷ []) b,
    )
  ]
  flat_buffer-row w r memory t (u ∷ ts) h b = (
    rows_from w w 0 memory (t ∷ u ∷ ts),
    refl,
    rows-length w memory (t ∷ u ∷ ts) h,
    rows-segment w r memory (t ∷ u ∷ ts) b,
  )
