-- ===== src/Partition/Sizes.antt =====
-- The sizes of a partitioned parameter.
use understanding_smartnic.Prelude.{
  ℕ, ◌+◌, ◌-◌, ◌*◌, ◌/◌, ◌%◌, ◌≤◌, ◌<◌, ◌≡◌, ◌⊎◌, inl, inr, sym, ◌∙◌, ap, arith,
}
use native.Mathlib.Nat.{div-add-mod, mod-lt, mul-div_cancel_left, div-eq_of_lt-le}
use native.Mathlib.Decide.{ℕ_discrete}
use understanding_smartnic.Partition.{aligned_size}

-- The quotient and the remainder of a size tell its aligned size.
aligned_cases :
    (w n : ℕ)
    → 0 < w
    → ((n % w ≡ 0) × (aligned_size w n ≡ w * (n / w)))
      ⊎ ((0 < n % w) × (aligned_size w n ≡ w * (n / w + 1)))
unfolding aligned_size
aligned_cases w n h = elim (ℕ_discrete (n % w) 0) [
  | yes z ↦ inl (z, ground (arith, div-add-mod n w))
  | no z ↦ inr (omega arith, ground (arith, div-add-mod n w, mod-lt n h))
]

-- The length of the shards.
abbrev pub shard_size : ℕ → ℕ → ℕ
shard_size w n = aligned_size w n / w

shard_cases :
    (w n : ℕ)
    → 0 < w
    → ((n % w ≡ 0) × (shard_size w n ≡ n / w) × (aligned_size w n ≡ w * (n / w)))
      ⊎ ((0 < n % w) × (shard_size w n ≡ n / w + 1) × (aligned_size w n ≡ w * (n / w + 1)))
shard_cases w n h = elim (aligned_cases w n h) [
  | inl (z, e) ↦ inl (z, ap (λ k. k / w) e ∙ mul-div_cancel_left (n / w) h, e)
  | inr (z, e) ↦ inr (z, ap (λ k. k / w) e ∙ mul-div_cancel_left (n / w + 1) h, e)
]

-- For a positive world size the aligned size is the shard size times the world size, it holds the
-- parameter, and the padding is shorter than the world size.
pub aligned_size_lem :
    (w n : ℕ)
    → 0 < w
    → (shard_size w n * w ≡ aligned_size w n) × (n ≤ aligned_size w n) × (aligned_size w n < n + w)
aligned_size_lem w n h = elim (shard_cases w n h) [
  | inl (z, s, e) ↦ rw (s, e) (omega (arith, div-add-mod n w))
  | inr (z, s, e) ↦ rw (s, e) (omega (arith, div-add-mod n w, mod-lt n h))
]

-- For a positive world size the shard size is the `math.ceil(numel / world_size)` with which the
-- collectives size their buffers: the quotient rounded up.
shard_size-ceil : (w n : ℕ) → 0 < w → shard_size w n ≡ (n + (w - 1)) / w
shard_size-ceil w n h = elim (shard_cases w n h) [
  | inl (z, s, e) ↦
      rw s
        (sym (div-eq_of_lt-le w (omega (arith, div-add-mod n w)) (omega (arith, div-add-mod n w))))
  | inr (z, s, e) ↦ rw s (
      sym (
        div-eq_of_lt-le w (omega (arith, div-add-mod n w))
          (omega (arith, div-add-mod n w, mod-lt n h))))
]

-- The ranks' shards hold a parameter.
pub shards-hold : (w n : ℕ) → 0 < w → n ≤ shard_size w n * 0 + w * shard_size w n
shards-hold w n h = omega (arith, aligned_size_lem w n h)
