-- ===== src/Coalesced/Tests.antt =====
-- Two ranks reduce a tensor of three elements and one of two; rank 1 gets an element of each.
use understanding_smartnic.Prelude.{
  ℕ, ◌+◌, ◌≡◌, refl, List, [], ◌∷◌, some, take, drop, Result, ok, arith,
}
use understanding_smartnic.Coalesced.{
  chunk_sz, row, rows_from, flat_buffer, check_output, reduce_scatter_coalesced,
}
use understanding_smartnic.Coalesced.Sums.{zip_with}
use understanding_smartnic.Coalesced.Reduced.{Sender}
use understanding_smartnic.Coalesced.Outputs.{reduce_scatter_coalesced_lem}

abbrev memory : ℕ → ℕ → ℕ → ℕ
memory rank idx i = 99

abbrev other : Sender ℕ
other = record { memory = memory; tensors = (10 ∷ 20 ∷ 30 ∷ []) ∷ (40 ∷ 50 ∷ []) ∷ [] }

-- What the other rank sends is added, and rank 1 gets the second half.
abbrev driver : List ℕ → Result (List ℕ)
driver xs = ok (take 3 (drop 3 (zip_with (λ x y. x + y) xs (10 ∷ 20 ∷ 40 ∷ 30 ∷ 99 ∷ 50 ∷ []))))

reduce_scatter_coalesced_lem_example :
    reduce_scatter_coalesced 2 1 memory
      (λ x. x)
      (some 3)
      driver
      ((1 ∷ 2 ∷ 3 ∷ []) ∷ (4 ∷ 5 ∷ []) ∷ [])
    ≡ ok ((33 ∷ []) ∷ (55 ∷ []) ∷ [])
unfolding flat_buffer rows_from row chunk_sz check_output
reduce_scatter_coalesced_lem_example =
    reduce_scatter_coalesced_lem (λ x y. x + y) (λ x. x) 2 1 memory (some 3) driver (1 ∷ 2 ∷ 3 ∷ [])
      ((4 ∷ 5 ∷ []) ∷ []) (other ∷ []) (omega arith) (omega arith) ((refl, (refl, tt)), tt) refl
      refl
