-- ===== src/Client/Tests.antt =====
-- Two ranks gather two elements each.
use understanding_smartnic.Prelude.{ℕ, ◌≡◌, refl, sym, ap, List, [], ◌∷◌, length, Result, ok, arith}
use understanding_smartnic.Tensor.{concat}
use understanding_smartnic.Client.{Tensor}
use understanding_smartnic.Client.Flat.{
  reduce_scatter_list_via_base, reduce_scatter_flat_via_base, check_inputs,
}
use understanding_smartnic.Client.Same.{reduce_scatter_list_via_base-flat}

abbrev mine : Tensor ℕ
mine = record { contents = 1 ∷ 2 ∷ []; dtype = 0; device = 0 }

abbrev blank : Tensor ℕ
blank = record { contents = 0 ∷ 0 ∷ []; dtype = 0; device = 0 }

-- What both ranks send.
abbrev inputs : List (List ℕ)
inputs = (1 ∷ 2 ∷ []) ∷ (3 ∷ 4 ∷ []) ∷ []

abbrev driver : List ℕ → Result (List ℕ)
driver xs = ok (1 ∷ 2 ∷ 3 ∷ 4 ∷ [])

-- A driver that gives this rank the same two sums for any input.
abbrev summing : List ℕ → Result (List ℕ)
summing xs = ok (4 ∷ 6 ∷ [])

summing-long : (xs ys : List ℕ) → summing xs ≡ ok ys → length ys ≡ 2
summing-long xs ys e = let same : 4 ∷ 6 ∷ [] ≡ ys = cc in sym (ap length same)

reduce_scatter_list_via_base-flat_example :
    reduce_scatter_list_via_base 2 summing blank (mine ∷ blank ∷ [])
    ≡ reduce_scatter_flat_via_base 2 summing blank
        (record { contents = 1 ∷ 2 ∷ 0 ∷ 0 ∷ []; dtype = 0; device = 0 })
unfolding concat check_inputs
reduce_scatter_list_via_base-flat_example =
    reduce_scatter_list_via_base-flat 2 summing blank (mine ∷ blank ∷ []) (omega arith) refl refl
      summing-long
