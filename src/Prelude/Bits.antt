-- ===== src/Prelude/Bits.antt =====
-- `bit_and` at variables: the mask of a size with `size & (size - 1) == 0` is the remainder.
use Prim.Native.Nat.{
  ℕ, zero, suc, ◌+◌, ◌-◌, ◌*◌, ◌/◌, ◌%◌, ◌≤◌, ◌<◌, min, bit_and, digits, bit_and-bitwise,
}
use mathlib.Core.Path.{◌≡◌, refl, sym, ap, ◌∙◌}
use mathlib.Core.Logic.{◌⊎◌, inl, inr}
use native.Mathlib.Omega.{arith}
use native.Mathlib.Nat.{mod-one, div-add-mod, mod-lt}
use native.Mathlib.Nat.{mod-eq_of_lt, add-mul-mod_self_left}
use native.Mathlib.Decide.{dec_lt}

-- The first `steps` digits of a conjunction; more steps than the number itself add nothing.
abbrev conj : (steps x y : ℕ) → ℕ
conj steps x y = digits (λ d. zero) min steps x y

conj_next : (steps x y : ℕ) → x ≤ steps → conj (suc steps) x y ≡ conj steps x y
conj_next zero zero y enough = refl
conj_next (suc steps) zero y enough = refl
conj_next zero (suc x) y enough = absurd (omega arith)
conj_next (suc steps) (suc x) y enough =
    let later = conj_next steps (suc x / 2) (y / 2) (omega arith) in omega (arith, later)

conj_extra : (extra x y : ℕ) → conj (extra + x) x y ≡ conj x x y
conj_extra zero x y = ap (λ k. conj k x y) (omega arith)
conj_extra (suc extra) x y =
    let grown : suc extra + x ≡ suc (extra + x) = omega arith in
    ap (λ k. conj k x y) grown ∙ conj_next (extra + x) x y (omega arith) ∙ conj_extra extra x y

-- The last digit, split off.
bit_and-last : (x y : ℕ) → bit_and x y ≡ bit_and (x / 2) (y / 2) * 2 + min (x % 2) (y % 2)
bit_and-last zero y = omega (arith, bit_and-bitwise 0 y, bit_and-bitwise 0 (y / 2))
bit_and-last (suc x) y =
    let half = suc x / 2 in
    let spare : x - half + half ≡ x = omega arith in
    let shorter : conj x half (y / 2) ≡ conj half half (y / 2) =
      ap (λ k. conj k half (y / 2)) (sym spare) ∙ conj_extra (x - half) half (y / 2) in
    omega (arith, bit_and-bitwise (suc x) y, bit_and-bitwise half (y / 2), shorter)

-- With nothing, and with itself.
bit_and_ends : (most x : ℕ) → x ≤ most → (bit_and x 0 ≡ 0) × (bit_and x x ≡ x)
bit_and_ends most zero h = (refl, refl)
bit_and_ends zero (suc x) h = absurd (omega arith)
bit_and_ends (suc most) (suc x) h =
    let (none, all) = bit_and_ends most (suc x / 2) (omega arith) in
    (omega (arith, bit_and-last (suc x) 0, none), omega (arith, bit_and-last (suc x) (suc x), all))

-- Twice the remainder of the half, and the last bit.
mod_double : (x t : ℕ) → 0 < t → x / 2 % t * 2 + x % 2 ≡ x % (t * 2)
mod_double x t h =
    let low = x / 2 % t * 2 + x % 2 in
    let split : x ≡ low + t * 2 * (x / 2 / t) = omega (arith, div-add-mod (x / 2) t) in
    sym (
      ap (λ k. k % (t * 2)) split
      ∙ add-mul-mod_self_left low (t * 2) (x / 2 / t)
      ∙ mod-eq_of_lt (omega (arith, mod-lt (x / 2) h)))

-- The last bit of a size and of its mask, split off.
step_even : (u x : ℕ) → 0 < u → bit_and x (u * 2 - 1) ≡ bit_and (x / 2) (u - 1) * 2 + min (x % 2) 1
step_even u x h =
    let half : (u * 2 - 1) / 2 ≡ u - 1 = omega arith in
    omega (arith, (rw half at (bit_and-last x (u * 2 - 1))))

mask_even :
    (u x : ℕ)
    → 0 < u
    → (bit_and u (u - 1) ≡ 0 → bit_and (x / 2) (u - 1) ≡ x / 2 % u)
    → bit_and (u * 2) (u * 2 - 1) ≡ 0
    → bit_and x (u * 2 - 1) ≡ x % (u * 2)
mask_even u x h ih e =
    let whole : u * 2 / 2 ≡ u = omega arith in
    let at_half : bit_and (u * 2 / 2) (u - 1) ≡ 0 = omega (arith, step_even u (u * 2) h) in
    omega (arith, step_even u x h, ih (rw whole at at_half), mod_double x u h)

mask_odd : (t : ℕ) → 0 < t → bit_and (t * 2 + 1) (t * 2) ≡ 0 → ⊥
mask_odd t h e =
    let top : (t * 2 + 1) / 2 ≡ t = omega arith in
    let mask : t * 2 / 2 ≡ t = omega arith in
    let split : bit_and ((t * 2 + 1) / 2) (t * 2 / 2) ≡ 0 =
      omega (arith, bit_and-last (t * 2 + 1) (t * 2)) in
    let same : bit_and t t ≡ 0 = rw mask at (rw top at split) in
    omega (arith, (bit_and_ends t t (omega arith)).1)

parity : (m : ℕ) → ((t : ℕ) × (m ≡ t * 2)) ⊎ ((t : ℕ) × (m ≡ t * 2 + 1))
parity m = elim (dec_lt (m % 2) 1) [
  | yes z ↦ inl (m / 2, omega arith)
  | no z ↦ inr (m / 2, omega arith)
]

bit_and_mask_fuel : (n s x : ℕ) → s ≤ n → 0 < s → bit_and s (s - 1) ≡ 0 → bit_and x (s - 1) ≡ x % s
bit_and_mask_fuel zero s x h p e = absurd (omega arith)
bit_and_mask_fuel (suc n) s x h p e = elim (parity s) [
  | inl (u, even) ↦ rw even (
      mask_even u x (omega arith) (bit_and_mask_fuel n u (x / 2) (omega arith) (omega arith))
        (rw even at e))
  | inr (zero, one) ↦ rw one ((bit_and_ends x x (omega arith)).0 ∙ sym (mod-one x))
  | inr (suc t, odd) ↦
      let pred : s - 1 ≡ suc t * 2 = omega arith in
      absurd (mask_odd (suc t) (omega arith) (rw odd at (rw pred at e)))
]

-- For a positive size whose bits do not meet those of its predecessor, `&` with the predecessor is
-- the remainder.
pub bit_and_mask : (s x : ℕ) → 0 < s → bit_and s (s - 1) ≡ 0 → bit_and x (s - 1) ≡ x % s
bit_and_mask s x = bit_and_mask_fuel s s x (omega arith)
