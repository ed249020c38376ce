-- ===== src/FlagPool/Sequence.antt =====
-- What a run of `acquire` calls hands out, starting at a new pool.
use understanding_smartnic.Prelude.{
  ℕ, zero, suc, ◌+◌, ◌-◌, ◌*◌, ◌/◌, ◌%◌, ◌<◌, ◌≡◌, ◌≢◌, ◌⊎◌, inl, inr, refl, sym, ap, ◌∙◌, bit_and,
  ltb, if◌then◌else◌, length, get_or, replicate, length-set, length-replicate, get_or-set_self,
  get_or-set_ne, get_or-replicate, ok, arith,
}
use native.Mathlib.Numerals.{add-one}
use understanding_smartnic.Prelude.Bits.{bit_and_mask}
use native.Mathlib.Decide.{ℕ_discrete, dec_lt}
use native.Mathlib.Nat.{
  mod-lt, div-add-mod, mod-eq_of_lt, add-mul-div_left, add-mul-mod_self_left, div-eq_of_lt,
  div_self, mod_self, mod-add-mod, zero-div, zero-mod,
}
use understanding_smartnic.FlagPool.{GpuFlagPool, FlagVar, init, advance, after}

-- How often slot `i` was handed out by the first `n` calls.
abbrev pub uses : ℕ → ℕ → ℕ → ℕ
uses size n i = n / size + (if ltb i (n % size) then 1 else 0)

pub record Ran (p q : GpuFlagPool) (n : ℕ) : Type 0 where
  pub positive : 0 < p.size
  pub power : bit_and p.size (p.size - 1) ≡ 0
  pub masked : q.mask ≡ p.size - 1
  pub same_size : q.size ≡ p.size
  pub same_base : q.base_addr ≡ p.base_addr
  pub cursor : q.next ≡ n % p.size
  pub held : length q.gens ≡ p.size
  pub counted : (i : ℕ) → i < p.size → get_or q.gens i 0 ≡ uses p.size n i

-- One more: the remainder grows, or goes round with the quotient.
next_in : (s n : ℕ) → n % s + 1 < s → ((n + 1) / s ≡ n / s) × ((n + 1) % s ≡ n % s + 1)
next_in s n h =
    let split : n + 1 ≡ n % s + 1 + s * (n / s) = omega (arith, div-add-mod n s) in
    (
      ap (λ k. k / s) split
          ∙ add-mul-div_left (n % s + 1) (n / s) (omega arith)
          ∙ omega (arith, div-eq_of_lt h),
      ap (λ k. k % s) split ∙ add-mul-mod_self_left (n % s + 1) s (n / s) ∙ mod-eq_of_lt h,
    )

next_round : (s n : ℕ) → n % s + 1 ≡ s → ((n + 1) / s ≡ n / s + 1) × ((n + 1) % s ≡ 0)
next_round s n h =
    let split : n + 1 ≡ s + s * (n / s) = omega (arith, div-add-mod n s) in
    (
      ap (λ k. k / s) split
          ∙ add-mul-div_left s (n / s) (omega arith)
          ∙ omega (arith, div_self {n = s} (omega arith)),
      ap (λ k. k % s) split ∙ add-mul-mod_self_left s s (n / s) ∙ mod_self s,
    )

next_cases :
    (s n : ℕ)
    → 0 < s
    → ((n % s + 1 < s) × ((n + 1) / s ≡ n / s) × ((n + 1) % s ≡ n % s + 1))
      ⊎ ((n % s + 1 ≡ s) × ((n + 1) / s ≡ n / s + 1) × ((n + 1) % s ≡ 0))
next_cases s n h = elim (dec_lt (n % s + 1) s) [
  | yes p ↦ inl (p, (next_in s n p).0, (next_in s n p).1)
  | no p ↦
      let e : n % s + 1 ≡ s = omega (arith, mod-lt n h) in
      inr (e, (next_round s n e).0, (next_round s n e).1)
]

step_cursor : (s n : ℕ) → 0 < s → bit_and s (s - 1) ≡ 0 → bit_and (n % s + 1) (s - 1) ≡ (n + 1) % s
step_cursor s n h e = bit_and_mask s (n % s + 1) h e ∙ mod-add-mod n s 1

uses_step_self : (s n : ℕ) → 0 < s → uses s (n + 1) (n % s) ≡ uses s n (n % s) + 1
uses_step_self s n h = ground (arith, next_cases s n h)

uses_step_ne : (s n i : ℕ) → 0 < s → i < s → n % s ≢ i → uses s (n + 1) i ≡ uses s n i
uses_step_ne s n i h b ne = ground (arith, next_cases s n h)

-- A pool as the constructor leaves it.
abbrev pub IsNew : GpuFlagPool → Type 0
IsNew p =
    (0 < p.size)
    × (bit_and p.size (p.size - 1) ≡ 0)
    × (p.mask ≡ p.size - 1)
    × (p.flags ≡ replicate p.size 0)
    × (p.gens ≡ replicate p.size 0)
    × (p.next ≡ 0)

pub init-IsNew :
    (v : FlagVar) (a s : ℕ) {p : GpuFlagPool} → init v a s ≡ ok p → IsNew p × (p.size ≡ s)
unfolding init
init-IsNew v a s e = ground arith

Ran-start : {p : GpuFlagPool} → IsNew p → Ran p p 0
Ran-start {p} h = record {
  positive = h.0;
  power = h.1;
  masked = h.2;
  same_size = refl;
  same_base = refl;
  cursor = omega (arith, h.5, zero-mod p.size);
  held = rw h.4 (length-replicate p.size 0);
  counted = λ i b. rw (h.4, get_or-replicate) (ground (arith, zero-div p.size, zero-mod p.size));
}

module _ {p q : GpuFlagPool} {n : ℕ} (r : Ran p q n) where
  Ran-advance : Ran p (advance q) (n + 1)
  unfolding advance
  Ran-advance = record {
    positive = r.positive;
    power = r.power;
    masked = r.masked;
    same_size = r.same_size;
    same_base = r.same_base;
    cursor = rw (r.masked, r.cursor) (step_cursor p.size n r.positive r.power);
    held = length-set q.gens q.next _ ∙ r.held;
    counted = recount;
  }
    where
      recount : (i : ℕ) → i < p.size → get_or (advance q).gens i 0 ≡ uses p.size (n + 1) i
      recount i b = elim (ℕ_discrete q.next i) [
        | yes e ↦ rw (← e) (
            get_or-set_self q.gens q.next _ 0 (omega (arith, r.held, e, b))
            ∙ ap (λ k. k + 1) (r.counted q.next (omega (arith, e, b)))
            ∙ rw r.cursor (sym (uses_step_self p.size n r.positive)))
        | no ne ↦
            get_or-set_ne q.gens _ 0 ne
            ∙ r.counted i b
            ∙ sym (uses_step_ne p.size n i r.positive b (rw r.cursor at ne))
      ]

pub Ran-after : {p : GpuFlagPool} → IsNew p → (n : ℕ) → Ran p (after n p) n
unfolding after
Ran-after h zero = Ran-start h
Ran-after {p} h (suc n) = rw (← add-one n) (Ran-advance (Ran-after h n))
