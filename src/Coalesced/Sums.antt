-- ===== src/Coalesced/Sums.antt =====
-- Sums of tensors, element by element, and their parts.
use understanding_smartnic.Prelude.{
  ℕ, zero, suc, ◌≡◌, refl, sym, ap, ◌∙◌, List, [], ◌∷◌, map, length, take, drop, arith,
}

-- The elements of two tensors, combined.
abbrev pub zip_with {ℓ} : {A : Type ℓ} → (A → A → A) → List A → List A → List A
zip_with op [] ys = []
zip_with op (x ∷ xs) [] = []
zip_with op (x ∷ xs) (y ∷ ys) = op x y ∷ zip_with op xs ys

-- The sum of one tensor and others.
abbrev pub total {ℓ} : {A : Type ℓ} → (A → A → A) → List A → List (List A) → List A
total op xs [] = xs
total op xs (ys ∷ yss) = zip_with op xs (total op ys yss)

module _ {ℓ} {A : Type ℓ} where
  -- Tensors of `n` elements.
  abbrev pub AreLong : ℕ → List (List A) → Type 0
  AreLong n [] = Unit
  AreLong n (ys ∷ yss) = (length ys ≡ n) × AreLong n yss

module _ {ℓ} {A : Type ℓ} (op : A → A → A) where
  take-zip_with :
      (n : ℕ) (xs ys : List A) → take n (zip_with op xs ys) ≡ zip_with op (take n xs) (take n ys)
  take-zip_with zero xs ys = refl
  take-zip_with (suc n) [] ys = refl
  take-zip_with (suc n) (x ∷ xs) [] = refl
  take-zip_with (suc n) (x ∷ xs) (y ∷ ys) = ap (◌∷◌ (op x y)) (take-zip_with n xs ys)

  zip_with-nil : (xs : List A) → zip_with op xs [] ≡ []
  zip_with-nil [] = refl
  zip_with-nil (x ∷ xs) = refl

  drop-zip_with :
      (n : ℕ) (xs ys : List A) → drop n (zip_with op xs ys) ≡ zip_with op (drop n xs) (drop n ys)
  drop-zip_with zero xs ys = refl
  drop-zip_with (suc n) [] ys = refl
  drop-zip_with (suc n) (x ∷ xs) [] = sym (zip_with-nil (drop n xs))
  drop-zip_with (suc n) (x ∷ xs) (y ∷ ys) = drop-zip_with n xs ys

  length-zip_with :
      (xs ys : List A) → length xs ≡ length ys → length (zip_with op xs ys) ≡ length xs
  length-zip_with [] ys e = refl
  length-zip_with (x ∷ xs) [] e = absurd (omega arith)
  length-zip_with (x ∷ xs) (y ∷ ys) e = ap suc (length-zip_with xs ys (omega arith))

  pub take-total :
      (n : ℕ) (xs : List A) (yss : List (List A))
      → take n (total op xs yss) ≡ total op (take n xs) (map (take n) yss)
  take-total n xs [] = refl
  take-total n xs (ys ∷ yss) =
      take-zip_with n xs (total op ys yss) ∙ ap (zip_with op (take n xs)) (take-total n ys yss)

  pub drop-total :
      (n : ℕ) (xs : List A) (yss : List (List A))
      → drop n (total op xs yss) ≡ total op (drop n xs) (map (drop n) yss)
  drop-total n xs [] = refl
  drop-total n xs (ys ∷ yss) =
      drop-zip_with n xs (total op ys yss) ∙ ap (zip_with op (drop n xs)) (drop-total n ys yss)

  pub length-total :
      (n : ℕ) (xs : List A) (yss : List (List A))
      → length xs ≡ n
      → AreLong n yss
      → length (total op xs yss) ≡ n
  length-total n xs [] e a = e
  length-total n xs (ys ∷ yss) e (f, a) =
      let rest = length-total n ys yss f a in
      length-zip_with xs (total op ys yss) (e ∙ sym rest) ∙ e

module _ {ℓ κ} {A : Type ℓ} {B : Type κ} (f : A → B) where
  pub take-map : (n : ℕ) (xs : List A) → take n (map f xs) ≡ map f (take n xs)
  take-map zero xs = refl
  take-map (suc n) [] = refl
  take-map (suc n) (x ∷ xs) = ap (◌∷◌ (f x)) (take-map n xs)

  pub drop-map : (n : ℕ) (xs : List A) → drop n (map f xs) ≡ map f (drop n xs)
  drop-map zero xs = refl
  drop-map (suc n) [] = refl
  drop-map (suc n) (x ∷ xs) = drop-map n xs
