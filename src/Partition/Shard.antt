-- ===== src/Partition/Shard.antt =====
-- What `_partition_param` does: the shard that a rank keeps, and the case that raises.
use understanding_smartnic.Prelude.{
  ℕ, ◌+◌, ◌-◌, ◌*◌, ◌≤◌, ◌≡◌, ◌≢◌, ◌⊎◌, inl, inr, refl, sym, ◌∙◌, ap, List, [], ◌++◌, none, some,
  Bool, true, false, length, take, drop, length-append, length-take, length-drop, take-length,
  drop-length, ok, err, unbound_local_error, arith, min,
}
use mathlib.Core.List.{append-nil}
use native.Mathlib.Decide.{dec_le, dec_lt}
use understanding_smartnic.Tensor.{empty, length-empty_from}
use understanding_smartnic.Partition.{
  ZeroParam, ZeroParamStatus, available, not_available, inflight, is_available, copy_part,
  partition_param,
}
use understanding_smartnic.Partition.Sizes.{shard_size}

is_available_ne : {s : ZeroParamStatus} → s ≢ available → is_available s ≡ false
is_available_ne {s = available} n = absurd (n refl)
is_available_ne {s = not_available} n = refl
is_available_ne {s = inflight} n = refl

module _ {ℓ} {A : Type ℓ} where
  -- The part of a parameter that belongs to a rank; parts past its end are short or empty.
  abbrev pub part : ℕ → ℕ → List A → List A
  part c rank xs = take c (drop (c * rank) xs)

  -- The shard of a rank: its part, and what the buffer held before where the part is short.
  abbrev pub shard_of : ℕ → ℕ → (ℕ → A) → List A → List A
  shard_of c rank memory xs = part c rank xs ++ drop (length (part c rank xs)) (empty memory c)

  pub length-shard_of :
      (c rank : ℕ) (memory : ℕ → A) (xs : List A) → length (shard_of c rank memory xs) ≡ c
  length-shard_of c rank memory xs = omega (
    arith,
    length-append (part c rank xs) (drop (length (part c rank xs)) (empty memory c)),
    length-drop (length (part c rank xs)) (empty memory c),
    length-empty_from 0 memory c,
    length-take c (drop (c * rank) xs),
  )

  pub length-part :
      (c rank : ℕ) (xs : List A) → length (part c rank xs) ≡ min c (length xs - c * rank)
  length-part c rank xs =
      length-take c (drop (c * rank) xs) ∙ ap (min c) (length-drop (c * rank) xs)

  -- A full part is the whole shard.
  pub shard_of-full :
      (c rank : ℕ) (memory : ℕ → A) (xs : List A)
      → c * rank + c ≤ length xs
      → shard_of c rank memory xs ≡ part c rank xs
  shard_of-full c rank memory xs h =
      let size : length (part c rank xs) ≡ min c (length xs - c * rank) = length-part c rank xs in
      let room : length (empty memory c) ≡ c = length-empty_from 0 memory c in
      rw (drop-length (empty memory c) (length (part c rank xs)) (omega arith))
        (append-nil (part c rank xs))

  -- The last part is what is left.
  pub part-last :
      (c rank : ℕ) (xs : List A) → length xs ≤ c * rank + c → part c rank xs ≡ drop (c * rank) xs
  part-last c rank xs h =
      take-length (drop (c * rank) xs) c (omega (arith, length-drop (c * rank) xs))

  pub copy_part_lem :
      (c rank : ℕ) (memory : ℕ → A) (xs : List A)
      → copy_part c rank xs (empty memory c) (length xs) ≡ ok (shard_of c rank memory xs)
  unfolding copy_part
  copy_part_lem c rank memory xs =
      let next : c * (rank + 1) ≡ c * rank + c = omega arith in
      let tail : length (drop (c * rank) xs) ≡ length xs - c * rank = length-drop (c * rank) xs in
      let room : length (empty memory c) ≡ c = length-empty_from 0 memory c in
      elim (dec_lt (c * rank) (length xs)) [
        | no h ↦
            let e : drop (c * rank) xs ≡ [] = drop-length xs (c * rank) (omega arith) in
            rw (e, take-length {A = A} [] c (omega arith)) (ground arith)
        | yes h ↦ elim (dec_le (c * rank + c) (length xs)) [
          | yes k ↦ rw (shard_of-full c rank memory xs k) (ground arith)
          | no k ↦
              let all : take (length xs - c * rank) (drop (c * rank) xs) ≡ part c rank xs =
                take-length (drop (c * rank) xs) (length xs - c * rank) (omega arith)
                ∙ sym (part-last c rank xs (omega arith)) in
              let size : length (part c rank xs) ≡ min c (length xs - c * rank) =
                length-part c rank xs in
              rw all (ground arith)
        ]
      ]

  -- A parameter with no shard yet, all of it present and in no active submodule, is cut: the rank
  -- keeps its shard, the full contents are freed and the parameter is no longer available.
  pub partition_param-cut :
      (w rank : ℕ) (memory : ℕ → A) (updated : Bool) (p : ZeroParam A)
      → p.ds_tensor ≡ none
      → length p.contents ≡ p.ds_numel
      → p.ds_active_sub_modules ≡ []
      → partition_param w rank memory updated p
        ≡ ok (record p {
          ds_status = not_available;
          ds_tensor = some (shard_of (shard_size w p.ds_numel) rank memory p.contents);
          contents = [];
        })
  unfolding partition_param
  partition_param-cut w rank memory updated p fresh full idle =
      rw (fresh, idle, sym full, copy_part_lem) (ground arith)

  -- A parameter that has a shard raises UnboundLocalError when it is partitioned after an update,
  -- or while it is not available: the shard is never rewritten.
  pub partition_param-unbound :
      (w rank : ℕ) (memory : ℕ → A) (updated : Bool) (p : ZeroParam A) (t : List A)
      → p.ds_tensor ≡ some t
      → (updated ≡ true) ⊎ (p.ds_status ≢ available)
      → partition_param w rank memory updated p ≡ err unbound_local_error
  unfolding partition_param
  partition_param-unbound w rank memory updated p t has (inl e) = rw (has, e) (ground arith)
  partition_param-unbound w rank memory updated p t has (inr n) = rw (has, is_available_ne n) refl
