-- ===== src/Tensor.antt =====
-- The tensor operations that the partitioning code uses, on flat tensors as lists. They are
-- PyTorch's, restricted to their documented meaning: a slice out of range raises, and the contents
-- of `torch.empty` are whatever the memory held.
use understanding_smartnic.Prelude.{
  ℕ, zero, suc, ◌+◌, ◌≤◌, ◌≡◌, refl, List, [], ◌∷◌, ◌++◌, leb, if◌then◌else◌, length, take, drop,
  Result, ok, err, runtime_error, arith,
}

module _ {ℓ} {A : Type ℓ} where
  -- `t.narrow(0, start, len)`
  abbrev pub narrow : List A → ℕ → ℕ → Result (List A)
  narrow xs start len =
      if leb (start + len) (length xs) then ok (take len (drop start xs)) else err runtime_error

  -- `t.narrow(0, start, len(ys)).copy_(ys)`, the tensor afterwards
  abbrev pub write_at : List A → ℕ → List A → Result (List A)
  write_at xs start ys =
      if leb (start + length ys) (length xs)
      then ok (take start xs ++ ys ++ drop (start + length ys) xs)
      else err runtime_error

  -- `torch.empty(n)`, where `memory` is what the cells held
  abbrev pub empty_from : ℕ → (ℕ → A) → ℕ → List A
  empty_from i memory zero = []
  empty_from i memory (suc n) = memory i ∷ empty_from (suc i) memory n

  abbrev pub empty : (ℕ → A) → ℕ → List A
  empty memory n = empty_from 0 memory n

  pub length-empty_from : (i : ℕ) (memory : ℕ → A) (n : ℕ) → length (empty_from i memory n) ≡ n
  length-empty_from i memory zero = refl
  length-empty_from i memory (suc n) = omega (arith, length-empty_from (suc i) memory n)

  unfoldable pub concat : List (List A) → List A
  concat [] = []
  concat (x ∷ xs) = x ++ concat xs

  -- `torch.cat`, which refuses an empty list
  unfoldable pub cat : List (List A) → Result (List A)
  unfolding concat
  cat [] = err runtime_error
  cat (x ∷ xs) = ok (concat (x ∷ xs))

  pub narrow_lem :
      (xs : List A) (start len : ℕ)
      → start + len ≤ length xs
      → narrow xs start len ≡ ok (take len (drop start xs))
  narrow_lem xs start len h = ground arith
