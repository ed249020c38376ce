-- ===== src/Coalesced/Reduced.antt =====
-- The rows that the ranks send, taken apart tensor by tensor.
use understanding_smartnic.Prelude.{
  ℕ, suc, ◌+◌, ◌-◌, ◌*◌, ◌/◌, ◌≡◌, refl, sym, ap, ◌∙◌, List, [], ◌∷◌, map, length, take, drop,
  length-append, length-take, length-drop, length-map, take-append_le, take-length, drop-append, ok,
  err, arith,
}
use understanding_smartnic.Tensor.{empty}
use understanding_smartnic.Coalesced.{chunk_sz, chunk, padded, row, flat_buffer}
use understanding_smartnic.Coalesced.Layout.{sizes, length-padded, length-row}
use understanding_smartnic.Coalesced.Sums.{total, AreLong, take-map, drop-map}

-- A rank's tensors, and what the memory of its paddings holds.
pub record Sender {ℓ} (A : Type ℓ) : Type ℓ where
  pub memory : ℕ → ℕ → ℕ → A
  pub tensors : List (List A)

module _ {ℓ} {A : Type ℓ} where
  -- The first tensor, and the others.
  abbrev pub head : List (List A) → List A
  head [] = []
  head (t ∷ ts) = t

  abbrev pub tail : List (List A) → List (List A)
  tail [] = []
  tail (t ∷ ts) = ts

  -- As many tensors, of the same sizes.
  abbrev pub IsSimilar : List (List A) → List (List A) → Type 0
  IsSimilar [] [] = Unit
  IsSimilar [] (u ∷ us) = ⊥
  IsSimilar (t ∷ ts) [] = ⊥
  IsSimilar (t ∷ ts) (u ∷ us) = (length u ≡ length t) × IsSimilar ts us

  abbrev pub AreSimilar : List (List A) → List (Sender A) → Type 0
  AreSimilar ts [] = Unit
  AreSimilar ts (s ∷ ss) = IsSimilar ts s.tensors × AreSimilar ts ss

  -- What a rank sends.
  abbrev pub sent : ℕ → (A → A) → Sender A → List A
  sent w div_ s = elim (flat_buffer w s.memory s.tensors) [ err e ↦ [] | ok b ↦ map div_ b ]

  -- The reduced chunks for rank `r`, tensor by tensor.
  abbrev pub sums :
      (A → A → A) → (A → A) → ℕ → ℕ → List (List A) → List (List (List A)) → List (List A)
  sums op div_ w r [] others = []
  sums op div_ w r (t ∷ ts) others =
      total op (map div_ (chunk w r t)) (map (λ us. map div_ (chunk w r (head us))) others)
      ∷ sums op div_ w r ts (map tail others)

  chunk_sz_same : (w : ℕ) (t u : List A) → length u ≡ length t → chunk_sz w u ≡ chunk_sz w t
  unfolding chunk_sz
  chunk_sz_same w t u e = ap (λ k. (k + (w - 1)) / w) e

  length-chunk :
      (w r : ℕ) (t u : List A) → length u ≡ length t → length (chunk w r u) ≡ length (chunk w r t)
  length-chunk w r t u e =
      let c = chunk_sz_same w t u e in
      let start : r * chunk_sz w u ≡ r * chunk_sz w t = ap (λ k. r * k) c in
      omega (
        arith,
        c,
        start,
        e,
        length-take (chunk_sz w u) (drop (r * chunk_sz w u) u),
        length-drop (r * chunk_sz w u) u,
        length-take (chunk_sz w t) (drop (r * chunk_sz w t) t),
        length-drop (r * chunk_sz w t) t,
      )

  pub sizes-IsSimilar : (w : ℕ) (ts us : List (List A)) → IsSimilar ts us → sizes w us ≡ sizes w ts
  sizes-IsSimilar w [] [] s = refl
  sizes-IsSimilar w [] (u ∷ us) s = absurd s
  sizes-IsSimilar w (t ∷ ts) [] s = absurd s
  sizes-IsSimilar w (t ∷ ts) (u ∷ us) s =
      omega (arith, chunk_sz_same w t u s.0, sizes-IsSimilar w ts us s.1)

  module _ (op : A → A → A) (div_ : A → A) (w r : ℕ) where
    -- The rest of a rank's row from tensor `idx` on, divided.
    abbrev pub rest_row : ℕ → Sender A → List A
    rest_row idx s = map div_ (row w r (s.memory r) idx s.tensors)

    abbrev pub next : Sender A → Sender A
    next s = record s { tensors = tail s.tensors }

    pub take-row :
        (n idx : ℕ) (t : List A) (ts : List (List A)) (m : ℕ → ℕ → A) (us : List (List A))
        → n ≡ length (chunk w r t)
        → IsSimilar (t ∷ ts) us
        → take n (map div_ (row w r m idx us)) ≡ map div_ (chunk w r (head us))
    unfolding row
    take-row n idx t ts m [] e i = absurd i
    take-row n idx t ts m (u ∷ us) e i =
        let whole : List A = row w r m idx (u ∷ us) in
        let gap : List A = empty (m idx) (chunk_sz w u - length (chunk w r u)) in
        let same : n ≡ length (chunk w r u) = e ∙ sym (length-chunk w r t u i.0) in
        take-map div_ n whole
        ∙ ap (map div_) (
            take-append_le n (padded w r (m idx) u) (row w r m (suc idx) us)
              (omega (arith, same, length-append (chunk w r u) gap))
            ∙ take-append_le n (chunk w r u) gap (omega (arith, same))
            ∙ take-length (chunk w r u) n (omega (arith, same)))

    pub drop-row :
        (n idx : ℕ) (t : List A) (ts : List (List A)) (m : ℕ → ℕ → A) (us : List (List A))
        → n ≡ chunk_sz w t
        → IsSimilar (t ∷ ts) us
        → drop n (map div_ (row w r m idx us)) ≡ map div_ (row w r m (suc idx) (tail us))
    unfolding row
    drop-row n idx t ts m [] e i = absurd i
    drop-row n idx t ts m (u ∷ us) e i =
        drop-map div_ n (row w r m idx (u ∷ us))
        ∙ ap (map div_) (
            drop-append n (padded w r (m idx) u) (row w r m (suc idx) us)
              (e ∙ sym (chunk_sz_same w t u i.0) ∙ sym (length-padded w r (m idx) u)))

    pub length-rest :
        (idx : ℕ) (ts : List (List A)) (m : ℕ → ℕ → A) (us : List (List A))
        → IsSimilar ts us
        → length (map div_ (row w r m idx us)) ≡ sizes w ts
    length-rest idx ts m us i =
        length-map (row w r m idx us) div_ ∙ length-row w r m idx us ∙ sizes-IsSimilar w ts us i

    pub take-rows :
        (n idx : ℕ) (t : List A) (ts : List (List A)) (ss : List (Sender A))
        → n ≡ length (chunk w r t)
        → AreSimilar (t ∷ ts) ss
        → map (take n) (map (rest_row idx) ss)
          ≡ map (λ us. map div_ (chunk w r (head us))) (map (λ s. s.tensors) ss)
    take-rows n idx t ts [] e a = refl
    take-rows n idx t ts (s ∷ ss) e a =
        ap (λ x. x ∷ map (take n) (map (rest_row idx) ss))
          (take-row n idx t ts (s.memory r) s.tensors e a.0)
        ∙ ap (◌∷◌ (map div_ (chunk w r (head s.tensors)))) (take-rows n idx t ts ss e a.1)

    pub drop-rows :
        (n idx : ℕ) (t : List A) (ts : List (List A)) (ss : List (Sender A))
        → n ≡ chunk_sz w t
        → AreSimilar (t ∷ ts) ss
        → map (drop n) (map (rest_row idx) ss) ≡ map (rest_row (suc idx)) (map next ss)
    drop-rows n idx t ts [] e a = refl
    drop-rows n idx t ts (s ∷ ss) e a =
        ap (λ x. x ∷ map (drop n) (map (rest_row idx) ss))
          (drop-row n idx t ts (s.memory r) s.tensors e a.0)
        ∙ ap (◌∷◌ (rest_row (suc idx) (next s))) (drop-rows n idx t ts ss e a.1)

    pub AreLong-rows :
        (idx : ℕ) (ts : List (List A)) (ss : List (Sender A))
        → AreSimilar ts ss
        → AreLong (sizes w ts) (map (rest_row idx) ss)
    AreLong-rows idx ts [] a = tt
    AreLong-rows idx ts (s ∷ ss) a =
        (length-rest idx ts (s.memory r) s.tensors a.0, AreLong-rows idx ts ss a.1)

    pub next-tensors :
        (ss : List (Sender A))
        → map (λ s. s.tensors) (map next ss) ≡ map tail (map (λ s. s.tensors) ss)
    next-tensors [] = refl
    next-tensors (s ∷ ss) = ap (◌∷◌ (tail s.tensors)) (next-tensors ss)

    tail-IsSimilar :
        (t : List A) (ts us : List (List A)) → IsSimilar (t ∷ ts) us → IsSimilar ts (tail us)
    tail-IsSimilar t ts [] i = absurd i
    tail-IsSimilar t ts (u ∷ us) i = i.1

    pub next-AreSimilar :
        (t : List A) (ts : List (List A)) (ss : List (Sender A))
        → AreSimilar (t ∷ ts) ss
        → AreSimilar ts (map next ss)
    next-AreSimilar t ts [] a = tt
    next-AreSimilar t ts (s ∷ ss) a =
        (tail-IsSimilar t ts s.tensors a.0, next-AreSimilar t ts ss a.1)

    pub IsSimilar-self : (ts : List (List A)) → IsSimilar ts ts
    IsSimilar-self [] = tt
    IsSimilar-self (t ∷ ts) = (refl, IsSimilar-self ts)
