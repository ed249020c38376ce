-- ===== src/Timing/Ring.antt =====
-- A list overwritten in a circle keeps the latest elements.
use understanding_smartnic.Prelude.{
  ℕ, zero, suc, ◌+◌, ◌*◌, ◌/◌, ◌%◌, ◌≤◌, ◌<◌, min, ◌≡◌, ◌≢◌, refl, sym, ap, ◌∙◌, List, [], ◌∷◌,
  ◌++◌, some, length, get_elem?, set, length-append, length-set, get_elem?-set_self,
  get_elem?-set_ne, arith,
}
use native.Mathlib.Nat.{div-add-mod, mod-lt, mod-eq_of_lt, mul-le-mul_left}
use native.Mathlib.Decide.{dec_le, dec_lt}

module _ {F : Type 0} where
  get_elem?-append_lt :
      (xs ys : List F) (i : ℕ) → i < length xs → get_elem? (xs ++ ys) i ≡ get_elem? xs i
  get_elem?-append_lt [] ys i h = absurd (omega arith)
  get_elem?-append_lt (x ∷ xs) ys zero h = refl
  get_elem?-append_lt (x ∷ xs) ys (suc i) h = get_elem?-append_lt xs ys i (omega arith)

  get_elem?-append_length :
      (xs : List F) (x : F) (i : ℕ) → i ≡ length xs → get_elem? (xs ++ x ∷ []) i ≡ some x
  get_elem?-append_length [] x zero h = refl
  get_elem?-append_length [] x (suc i) h = absurd (omega arith)
  get_elem?-append_length (y ∷ xs) x zero h = absurd (omega arith)
  get_elem?-append_length (y ∷ xs) x (suc i) h = get_elem?-append_length xs x i (omega arith)

  -- `ring` holds the latest elements of `ys`, each at its index modulo the capacity.
  abbrev pub IsRing : ℕ → List F → List F → Type 0
  IsRing cap ys ring =
      (length ring ≡ min (length ys) cap)
      × ((i : ℕ) → i < length ys → length ys ≤ i + cap → get_elem? ring (i % cap) ≡ get_elem? ys i)

mod_ne : (c i n : ℕ) → i < n → n < i + c → (i % c) ≢ (n % c)
mod_ne c i n h k e = elim (dec_le (n / c) (i / c)) [
  | yes l ↦
      let grows : c * (n / c) ≤ c * (i / c) = mul-le-mul_left c l in
      omega (arith, div-add-mod i c, div-add-mod n c)
  | no l ↦
      let up : i / c + 1 ≤ n / c = omega arith in
      let grows : c * (i / c + 1) ≤ c * (n / c) = mul-le-mul_left c up in
      let wide : c * (i / c + 1) ≡ c * (i / c) + c = omega arith in
      omega (arith, div-add-mod i c, div-add-mod n c)
]

module _ {F : Type 0} where
  -- The ring is not full.
  pub IsRing-append :
      (cap : ℕ) (ys ring : List F) (x : F)
      → 0 < cap
      → length ring < cap
      → IsRing cap ys ring
      → IsRing cap (ys ++ x ∷ []) (ring ++ x ∷ [])
  IsRing-append cap ys ring x pos room (size, at) = (
    omega (arith, length-append ys (x ∷ []), length-append ring (x ∷ [])),
    λ i h k.
        let n : length (ys ++ x ∷ []) ≡ length ys + 1 = length-append ys (x ∷ []) in
        let small : i % cap ≡ i = mod-eq_of_lt (omega arith) in
        elim (dec_lt i (length ys)) [
          | yes l ↦
              ap (get_elem? (ring ++ x ∷ [])) small
              ∙ get_elem?-append_lt ring (x ∷ []) i (omega arith)
              ∙ ap (get_elem? ring) (sym small)
              ∙ at i l (omega arith)
              ∙ sym (get_elem?-append_lt ys (x ∷ []) i l)
          | no l ↦
              ap (get_elem? (ring ++ x ∷ [])) small
              ∙ get_elem?-append_length ring x i (omega arith)
              ∙ sym (get_elem?-append_length ys x i (omega arith))
        ],
  )

  -- The ring is full, and the oldest element is overwritten.
  pub IsRing-set :
      (cap : ℕ) (ys ring : List F) (x : F)
      → 0 < cap
      → cap ≤ length ring
      → IsRing cap ys ring
      → IsRing cap (ys ++ x ∷ []) (set ring (length ys % cap) x)
  IsRing-set cap ys ring x pos full (size, at) =
      let n : length (ys ++ x ∷ []) ≡ length ys + 1 = length-append ys (x ∷ []) in
      let bound : length ys % cap < cap = mod-lt (length ys) pos in
      (
        omega (arith, length-set ring (length ys % cap) x),
        λ i h k. elim (dec_lt i (length ys)) [
          | yes l ↦
              get_elem?-set_ne ring x (λ e. mod_ne cap i (length ys) l (omega arith) (sym e))
              ∙ at i l (omega arith)
              ∙ sym (get_elem?-append_lt ys (x ∷ []) i l)
          | no l ↦
              let last : i ≡ length ys = omega arith in
              ap (λ k. get_elem? (set ring (length ys % cap) x) (k % cap)) last
              ∙ get_elem?-set_self ring (length ys % cap) x (omega arith)
              ∙ sym (get_elem?-append_length ys x i last)
        ],
      )
