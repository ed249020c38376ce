-- ===== src/Prelude/Middle.antt =====
-- The element of a list behind a prefix.
use Prim.Native.Nat.{ℕ, zero, suc}
use mathlib.Core.Path.{◌≡◌, refl, ap}
use mathlib.Core.List.{List, [], ◌∷◌, ◌++◌}
use mathlib.Core.Option.{some}
use native.Mathlib.Omega.{arith}
use understanding_smartnic.Prelude.Lists.{length, get_elem?, set}

module _ {ℓ} {A : Type ℓ} where
  pub get_elem?-middle :
      (xs : List A) (i : ℕ) (x : A) (ys : List A)
      → length xs ≡ i
      → get_elem? (xs ++ x ∷ ys) i ≡ some x
  get_elem?-middle [] zero x ys e = refl
  get_elem?-middle [] (suc i) x ys e = absurd (omega arith)
  get_elem?-middle (z ∷ xs) zero x ys e = absurd (omega arith)
  get_elem?-middle (z ∷ xs) (suc i) x ys e = get_elem?-middle xs i x ys (omega arith)

  pub set-middle :
      (xs : List A) (i : ℕ) (x y : A) (ys : List A)
      → length xs ≡ i
      → set (xs ++ x ∷ ys) i y ≡ (xs ++ y ∷ []) ++ ys
  set-middle [] zero x y ys e = refl
  set-middle [] (suc i) x y ys e = absurd (omega arith)
  set-middle (z ∷ xs) zero x y ys e = absurd (omega arith)
  set-middle (z ∷ xs) (suc i) x y ys e = ap (◌∷◌ z) (set-middle xs i x y ys (omega arith))

  pub append_step : (xs : List A) (y : A) (ys : List A) → xs ++ y ∷ ys ≡ (xs ++ y ∷ []) ++ ys
  append_step [] y ys = refl
  append_step (x ∷ xs) y ys = ap (◌∷◌ x) (append_step xs y ys)
