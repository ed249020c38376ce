-- ===== src/Prelude/Sets.antt =====
-- Python's sets of numbers as lists without repetition, and sorting.
use Prim.Native.Nat.{ℕ}
use mathlib.Core.Path.{◌≡◌, refl, sym, ap, ◌∙◌}
use mathlib.Core.Bool.{true≢false}
use mathlib.Core.Logic.{◌≢◌, inl, inr}
use mathlib.Core.Bool.{Bool, true, false, ◌&&◌, ◌||◌}
use mathlib.Core.List.{List, [], ◌∷◌}
use native.Mathlib.Omega.{arith}
use understanding_smartnic.Prelude.Tests.{leb, ◌==◌, if◌then◌else◌, Bool-cases}

-- `x in xs`
abbrev pub is_in : ℕ → List ℕ → Bool
is_in x [] = false
is_in x (y ∷ ys) = (x == y) || is_in x ys

-- `xs.add(x)`
abbrev pub add : ℕ → List ℕ → List ℕ
add x xs = if is_in x xs then xs else x ∷ xs

-- `xs.discard(x)`, which takes out every occurrence
abbrev pub discard : ℕ → List ℕ → List ℕ
discard x [] = []
discard x (y ∷ ys) = let rest = discard x ys in if x == y then rest else y ∷ rest

-- `set(xs)`, in the order of the last occurrences
abbrev pub set_of : List ℕ → List ℕ
set_of [] = []
set_of (x ∷ xs) = add x (set_of xs)

-- `all(x in ys for x in xs)`
abbrev pub is_subset : List ℕ → List ℕ → Bool
is_subset [] ys = true
is_subset (x ∷ xs) ys = is_in x ys && is_subset xs ys

-- `xs == ys` of sets
abbrev pub is_same_set : List ℕ → List ℕ → Bool
is_same_set xs ys = is_subset xs ys && is_subset ys xs

abbrev pub insert : ℕ → List ℕ → List ℕ
insert x [] = x ∷ []
insert x (y ∷ ys) = let rest = insert x ys in if leb x y then x ∷ y ∷ ys else y ∷ rest

-- `sorted(xs)`
abbrev pub sort : List ℕ → List ℕ
sort [] = []
sort (x ∷ xs) = insert x (sort xs)

pub is_in-discard_self : (x : ℕ) (ys : List ℕ) → is_in x (discard x ys) ≡ false
is_in-discard_self x [] = refl
is_in-discard_self x (y ∷ ys) = ground (arith, is_in-discard_self x ys)

pub is_in-discard_ne : (x z : ℕ) (ys : List ℕ) → z ≢ x → is_in z (discard x ys) ≡ is_in z ys
is_in-discard_ne x z [] n = refl
is_in-discard_ne x z (y ∷ ys) n = ground (arith, is_in-discard_ne x z ys n)

pub is_in-add_self : (x : ℕ) (ys : List ℕ) → is_in x (add x ys) ≡ true
is_in-add_self x ys = ground arith

pub is_in-add_ne : (x z : ℕ) (ys : List ℕ) → z ≢ x → is_in z (add x ys) ≡ is_in z ys
is_in-add_ne x z ys n = ground arith

pub is_in-insert : (z x : ℕ) (ys : List ℕ) → is_in z (insert x ys) ≡ ((z == x) || is_in z ys)
is_in-insert z x [] = refl
is_in-insert z x (y ∷ ys) = ground (arith, is_in-insert z x ys)

pub is_in-sort : (z : ℕ) (xs : List ℕ) → is_in z (sort xs) ≡ is_in z xs
is_in-sort z [] = refl
is_in-sort z (x ∷ xs) = rw (is_in-insert z x (sort xs), is_in-sort z xs) refl

pub is_in-set_of : (z : ℕ) (xs : List ℕ) → is_in z (set_of xs) ≡ is_in z xs
is_in-set_of z [] = refl
is_in-set_of z (x ∷ xs) = ground (arith, is_in-set_of z xs)

-- No repetition.
abbrev pub Distinct : List ℕ → Type 0
Distinct [] = Unit {0}
Distinct (x ∷ xs) = (is_in x xs ≡ false) × Distinct xs

pub Distinct-add : (x : ℕ) (xs : List ℕ) → Distinct xs → Distinct (add x xs)
Distinct-add x xs d = elim (Bool-cases (is_in x xs)) [ inl e ↦ rw e d | inr e ↦ rw e (e, d) ]

pub Distinct-set_of : (xs : List ℕ) → Distinct (set_of xs)
Distinct-set_of [] = tt
Distinct-set_of (x ∷ xs) = Distinct-add x (set_of xs) (Distinct-set_of xs)

Distinct-insert : (x : ℕ) (ys : List ℕ) → is_in x ys ≡ false → Distinct ys → Distinct (insert x ys)
Distinct-insert x [] n d = (refl, tt)
Distinct-insert x (y ∷ ys) n d = elim (Bool-cases (leb x y)) [
  | inl e ↦ rw e (n, d)
  | inr e ↦
      rw e
        (is_in-insert y x ys ∙ ground (arith, d.0), Distinct-insert x ys (ground (arith, n)) (d.1))
]

pub Distinct-sort : (xs : List ℕ) → Distinct xs → Distinct (sort xs)
Distinct-sort [] d = tt
Distinct-sort (x ∷ xs) d =
    Distinct-insert x (sort xs) (is_in-sort x xs ∙ d.0) (Distinct-sort xs (d.1))

-- Membership in what remains, and in what is larger.
pub is_in-cons : (z x : ℕ) (xs : List ℕ) → is_in z xs ≡ true → is_in z (x ∷ xs) ≡ true
is_in-cons z x xs e = ground arith

pub is_in-head : (x : ℕ) (xs : List ℕ) → is_in x (x ∷ xs) ≡ true
is_in-head x xs = ground arith

-- A later member is not the head.
pub Distinct-ne : (x z : ℕ) (xs : List ℕ) → Distinct (x ∷ xs) → is_in z xs ≡ true → z ≢ x
Distinct-ne x z xs d i e = true≢false (sym i ∙ ap (λ k. is_in k xs) e ∙ d.0)
