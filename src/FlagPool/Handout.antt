-- ===== src/FlagPool/Handout.antt =====
-- Which slot, generation and address the calls of `acquire` return, and when they raise.
use understanding_smartnic.Prelude.{
  ℕ, zero, suc, ◌+◌, ◌-◌, ◌*◌, ◌/◌, ◌%◌, ◌≤◌, ◌<◌, ◌≡◌, ◌↔◌, refl, ◌∙◌, get_or, leb, if◌then◌else◌,
  ok, err, overflow_error, arith,
}
use native.Mathlib.Nat.{mod-lt, div-add-mod, le-div_iff_mul-le, mul_comm}
use understanding_smartnic.FlagPool.{
  GpuFlagPool, FlagVar, Slot, gen_limit, init, advance, acquire, reset, total_bytes, after,
}
use understanding_smartnic.FlagPool.Sequence.{Ran, IsNew, uses, init-IsNew, Ran-after}

-- The slot that call number `n` (from 0) hands out in a pool of `s` entries at address `a`.
abbrev pub nth_slot : ℕ → ℕ → ℕ → Slot
nth_slot a s n = record {
  slot_id = n % s;
  gen = n / s + 1;
  gpu_addr = a + n % s * 4;
  expected = n / s + 1;
}

raise_test :
    (q : ℕ) (x : Slot)
    → ((if leb gen_limit (q + 1) then err overflow_error else ok x) ≡ err overflow_error)
      ↔ (gen_limit - 1 ≤ q)
raise_test q x = (λ h. ground arith, λ h. ground arith)

return_test :
    (q : ℕ) {x y : Slot}
    → (if leb gen_limit (q + 1) then err overflow_error else ok x) ≡ ok y
    → (x ≡ y) × (q + 1 < gen_limit)
return_test q h = ground arith

reset-after_lem : (n : ℕ) (p : GpuFlagPool) → reset (after n p) ≡ reset p
unfolding reset after advance
reset-after_lem zero p = refl
reset-after_lem (suc n) p = reset-after_lem n p

reset-IsNew : (p : GpuFlagPool) → IsNew p → reset p ≡ p
unfolding reset
reset-IsNew p h = ground arith

module _ (v : FlagVar) (a s : ℕ) {p : GpuFlagPool} (made : init v a s ≡ ok p) where
  init_fields : (p.size ≡ s) × (p.base_addr ≡ a)
  unfolding init
  init_fields = ground arith

  ran : (n : ℕ) → Ran p (after n p) n
  ran = Ran-after (init-IsNew v a s made).0

  gen_at : (n : ℕ) → get_or (after n p).gens (n % s) 0 ≡ n / s
  gen_at n =
      let e = init_fields.0 in
      let r = ran n in
      let c : get_or (after n p).gens (n % p.size) 0 ≡ uses p.size n (n % p.size) =
        r.counted (n % p.size) (mod-lt n r.positive) in
      ground (arith, c, e)

  cursor_at : (n : ℕ) → (after n p).next ≡ n % s
  cursor_at n = rw (← init_fields.0) (ran n).cursor

  base_at : (n : ℕ) → (after n p).base_addr ≡ a
  base_at n = (ran n).same_base ∙ init_fields.1

  -- On a pool that the constructor made with `s` entries at address `a`, call number `n` of
  -- `acquire`, counted from 0 and whatever the calls before it returned, moves the pool on and hands
  -- out slot `n % s` with generation `n / s + 1`, its address and the same value to wait for; it
  -- raises OverflowError instead if that generation has reached the limit.
  pub acquire-after :
      (n : ℕ)
      → acquire (after n p) ≡ (
        after (suc n) p,
        if leb gen_limit (n / s + 1) then err overflow_error else ok (nth_slot a s n),
      )
  unfolding acquire after
  acquire-after n = rw (cursor_at n, gen_at n, base_at n)

  positive : 0 < s
  positive = rw (← init_fields.0) (ran 0).positive

  returned :
      (n : ℕ) {x : Slot}
      → (acquire (after n p)).1 ≡ ok x
      → (nth_slot a s n ≡ x) × (n / s + 1 < gen_limit)
  returned n h = return_test (n / s) (rw (acquire-after n) at h)

  -- The call raises exactly when it is preceded by at least `s * (gen_limit - 1)` calls.
  pub acquire-raises_iff :
      (n : ℕ) → ((acquire (after n p)).1 ≡ err overflow_error) ↔ (s * (gen_limit - 1) ≤ n)
  acquire-raises_iff n =
      let bound = le-div_iff_mul-le {k = s} {x = gen_limit - 1} {y = n} positive in
      let test = raise_test (n / s) (nth_slot a s n) in
      rw (acquire-after n)
        (λ h. rw mul_comm (bound.0 (test.0 h)), λ h. test.1 (bound.1 (rw mul_comm h)))

  -- A slot that a call returns is one of the 4-byte entries of the pool, and its wait value is the
  -- generation, which is positive and below the limit.
  acquire-in_pool :
      (n : ℕ) {x : Slot}
      → (acquire (after n p)).1 ≡ ok x
      → (a ≤ x.gpu_addr)
        × (x.gpu_addr + 4 ≤ a + total_bytes p)
        × (x.expected ≡ x.gen)
        × (0 < x.gen)
        × (x.gen < gen_limit)
  unfolding total_bytes
  acquire-in_pool n {x} h = ground (arith, returned n h, init_fields, mod-lt n positive)

  -- No two calls return the same pair of slot and generation.
  pub acquire_unique :
      (m n : ℕ) {x y : Slot}
      → (acquire (after m p)).1 ≡ ok x
      → (acquire (after n p)).1 ≡ ok y
      → x.slot_id ≡ y.slot_id
      → x.gen ≡ y.gen
      → m ≡ n
  acquire_unique m n {x} {y} hx hy slots gens =
      ground (arith, returned m hx, returned n hy, div-add-mod m s, div-add-mod n s)

  -- `reset` after any number of calls gives back the pool that the constructor made.
  reset-after : (n : ℕ) → reset (after n p) ≡ p
  reset-after n = reset-after_lem n p ∙ reset-IsNew p (init-IsNew v a s made).0
