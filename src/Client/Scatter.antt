-- ===== src/Client/Scatter.antt =====
-- A gather into a list gives every output the input of its rank.
use understanding_smartnic.Prelude.{
  ℕ, ◌+◌, ◌*◌, ◌≡◌, refl, sym, ap, ◌∙◌, List, [], ◌∷◌, true, ◌==◌, length, take, drop,
  length-append, take-append_le, take-length, drop-append, drop-drop, Result, ok, ◌>>=◌, arith,
}
use understanding_smartnic.Tensor.{concat}
use understanding_smartnic.Client.{
  Tensor, copy_rows, scatter_flat_to_list, check_outputs, all_gather_list_via_base,
  all_gather_cpu_full_list_via_base,
}

==_eq : {a b : ℕ} → a ≡ b → (a == b) ≡ true
==_eq e = ground arith

module _ {ℓ} {A : Type ℓ} where
  -- Outputs of the size of the inputs, one for each.
  abbrev pub Fits : ℕ → List (Tensor A) → List (List A) → Type 0
  Fits n [] [] = Unit
  Fits n [] (xs ∷ xss) = ⊥
  Fits n (out ∷ outs) [] = ⊥
  Fits n (out ∷ outs) (xs ∷ xss) = (length out.contents ≡ n) × (length xs ≡ n) × Fits n outs xss

  -- The outputs with the inputs' elements.
  abbrev pub filled : List (Tensor A) → List (List A) → List (Tensor A)
  filled [] xss = []
  filled (out ∷ outs) [] = []
  filled (out ∷ outs) (xs ∷ xss) = record out { contents = xs } ∷ filled outs xss

  length-Fits :
      (n : ℕ) (outs : List (Tensor A)) (xss : List (List A))
      → Fits n outs xss
      → length (concat xss) ≡ length outs * n
  unfolding concat
  length-Fits n [] [] f = omega arith
  length-Fits n [] (xs ∷ xss) f = absurd f
  length-Fits n (out ∷ outs) [] f = absurd f
  length-Fits n (out ∷ outs) (xs ∷ xss) (o, x, f) =
      omega (arith, length-append xs (concat xss), length-Fits n outs xss f)

  copy_rows_lem :
      (n rank : ℕ) (flat : List A) (outs : List (Tensor A)) (xss : List (List A))
      → Fits n outs xss
      → drop (n * rank) flat ≡ concat xss
      → copy_rows flat n rank outs ≡ ok (filled outs xss)
  unfolding copy_rows concat
  copy_rows_lem n rank flat [] [] f e = refl
  copy_rows_lem n rank flat [] (xs ∷ xss) f e = absurd f
  copy_rows_lem n rank flat (out ∷ outs) [] f e = absurd f
  copy_rows_lem n rank flat (out ∷ outs) (xs ∷ xss) (o, x, f) e =
      let next : n * (rank + 1) ≡ n * rank + n = omega arith in
      let row : take n (drop (n * rank) flat) ≡ xs =
        ap (take n) e
        ∙ take-append_le n xs (concat xss) (omega arith)
        ∙ take-length xs n (omega arith) in
      let below : drop (n * (rank + 1)) flat ≡ concat xss =
        ap (λ k. drop k flat) next
        ∙ sym (drop-drop n (n * rank) flat)
        ∙ ap (drop n) e
        ∙ drop-append n xs (concat xss) (sym x) in
      rw (==_eq o, copy_rows_lem n (rank + 1) flat outs xss f below, row) refl

  -- The rows of the flat output, copied to the outputs.
  pub scatter_lem :
      (outs : List (Tensor A)) (xss : List (List A)) (like : Tensor A)
      → Fits (length like.contents) outs xss
      → scatter_flat_to_list (concat xss) outs like ≡ ok (filled outs xss)
  unfolding scatter_flat_to_list
  scatter_lem outs xss like f =
      let start : length like.contents * 0 ≡ 0 = omega arith in
      rw (==_eq (length-Fits (length like.contents) outs xss f)) (
        copy_rows_lem (length like.contents) 0 (concat xss) outs xss f
          (ap (λ k. drop k (concat xss)) start))

  -- If the driver leaves the inputs of the ranks one after the other, and there is one output of the
  -- right size for each rank, the gather that checks nothing returns, and the output of each rank
  -- holds that rank's input.
  all_gather_cpu_full_list_via_base_lem :
      (driver : List A → Result (List A)) (outs : List (Tensor A)) (input : Tensor A)
      (xss : List (List A))
      → Fits (length input.contents) outs xss
      → driver input.contents ≡ ok (concat xss)
      → all_gather_cpu_full_list_via_base driver outs input ≡ ok (filled outs xss)
  unfolding all_gather_cpu_full_list_via_base
  all_gather_cpu_full_list_via_base_lem driver outs input xss f e =
      ap (λ r. r >>= λ flat. scatter_flat_to_list flat outs input) e ∙ scatter_lem outs xss input f

  -- The gather that checks does the same for tensors that pass, with one output for each rank: the
  -- output of each rank holds that rank's input.
  pub all_gather_list_via_base_lem :
      (world_size : ℕ) (driver : List A → Result (List A)) (outs : List (Tensor A))
      (input : Tensor A) (xss : List (List A))
      → length outs ≡ world_size
      → check_outputs input outs ≡ ok tt
      → Fits (length input.contents) outs xss
      → driver input.contents ≡ ok (concat xss)
      → all_gather_list_via_base world_size driver outs input ≡ ok (filled outs xss)
  unfolding all_gather_list_via_base
  all_gather_list_via_base_lem world_size driver outs input xss size checked f e = rw (==_eq size) (
      ap (λ r. r >>= λ u. driver input.contents >>= λ flat. scatter_flat_to_list flat outs input)
        checked
      ∙ ap (λ r. r >>= λ flat. scatter_flat_to_list flat outs input) e
      ∙ scatter_lem outs xss input f)
