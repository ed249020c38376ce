-- ===== src/Partition/Replicated.antt =====
-- `Init._allgather_params` restores the parameters whose shards it gathers.
use understanding_smartnic.Prelude.{
  ℕ, zero, suc, ◌+◌, ◌-◌, ◌*◌, ◌≤◌, ◌<◌, ◌≡◌, refl, sym, ◌∙◌, ap, List, [], ◌∷◌, ◌++◌, length, take,
  drop, length-append, length-drop, take-length, drop-length, drop-append, drop-drop,
  take-append_le, true, false, ltb, leb, ok, min, arith,
}
use mathlib.Core.List.{append_assoc}
use native.Mathlib.Decide.{dec_lt}
use understanding_smartnic.Tensor.{concat, empty, write_at, length-empty_from}
use understanding_smartnic.Partition.Sizes.{shard_size, shards-hold}
use understanding_smartnic.Partition.Shard.{part, shard_of, length-shard_of, length-part}
use understanding_smartnic.Partition.Gather.{fill_slot, copy_parts, replicate_params}
use understanding_smartnic.Partition.Gathered.{
  ranks_from, slots_with, narrow-part, part-drop, drop-ends, sizes, row, slots-next,
}

module _ {ℓ} {A : Type ℓ} where
  length-zero : (xs : List A) → length xs ≡ 0 → xs ≡ []
  length-zero [] e = refl
  length-zero (x ∷ xs) e = absurd (omega arith)

  -- A write behind what is written.
  write_at-behind :
      (done spare ys : List A) (start : ℕ)
      → length done ≡ start
      → length ys ≤ length spare
      → write_at (done ++ spare) start ys ≡ ok ((done ++ ys) ++ drop (length ys) spare)
  write_at-behind done spare ys start e h =
      let size : length (done ++ spare) ≡ length done + length spare = length-append done spare in
      let front : take start (done ++ spare) ≡ done =
        take-append_le start done spare (omega arith) ∙ take-length done start (omega arith) in
      let back : drop (start + length ys) (done ++ spare) ≡ drop (length ys) spare =
        sym (drop-drop (length ys) start (done ++ spare))
        ∙ ap (drop (length ys)) (drop-append start done spare (sym e)) in
      let fits : leb (start + length ys) (length (done ++ spare)) ≡ true = ground arith in
      rw (fits, front, back) refl

  -- The tensor that has the first `rank * c` elements of the parameter holds it when all parts are
  -- copied.
  copy_parts_lem :
      (c off rank k : ℕ) (memory : ℕ → ℕ → A) (xs : List A) (before after : ℕ → List A)
      (done spare : List A)
      → ((r : ℕ) → length (before r) ≡ off)
      → length xs ≤ c * rank + k * c
      → done ++ drop (c * rank) xs ≡ xs
      → length spare ≡ length (drop (c * rank) xs)
      → copy_parts c
          (length xs)
          off
          rank
          (slots_with c memory xs before after rank k)
          (done ++ spare)
        ≡ ok xs
  unfolding copy_parts
  copy_parts_lem c off rank zero memory xs before after done spare place h have room =
      let none : drop (c * rank) xs ≡ [] = drop-length xs (c * rank) (omega arith) in
      let empty_spare : spare ≡ [] = length-zero spare (room ∙ ap length none) in
      rw empty_spare (ap ok (ap (λ ys. done ++ ys) (sym none) ∙ have))
  copy_parts_lem c off rank (suc k) memory xs before after done spare place h have room =
      let next : c * (rank + 1) ≡ c * rank + c = omega arith in
      let swap : rank * c ≡ c * rank = omega arith in
      let p : List A = part c rank xs in
      let left : length (drop (c * rank) xs) ≡ length xs - c * rank = length-drop (c * rank) xs in
      let left' : length (drop (c * (rank + 1)) xs) ≡ length xs - c * (rank + 1) =
        length-drop (c * (rank + 1)) xs in
      let size : length p ≡ min c (length xs - c * rank) = length-part c rank xs in
      elim (dec_lt (rank * c) (length xs)) [
        | no b ↦
            let t : ltb (rank * c) (length xs) ≡ false = ground arith in
            let ends = drop-ends c rank xs (omega arith) in
            rw t (
              copy_parts_lem c off (rank + 1) k memory xs before after done spare place
                (omega arith) (ap (λ ys. done ++ ys) ends ∙ have) (room ∙ ap length (sym ends)))
        | yes b ↦
            let t : ltb (rank * c) (length xs) ≡ true = ground arith in
            let start : length done ≡ rank * c =
              omega (arith, length-append done (drop (c * rank) xs), ap length have, left) in
            rw
              (
                t,
                narrow-part c rank off (memory rank) xs (before rank) (after rank) (place rank),
                write_at-behind done spare p (rank * c) start (omega arith),
              )
              (copy_parts_lem c off (rank + 1) k memory xs before after (done ++ p)
                (drop (length p) spare) place (omega arith)
                (append_assoc done p (drop (c * (rank + 1)) xs)
                  ∙ ap (λ ys. done ++ ys) (part-drop c rank xs)
                  ∙ have)
                (omega (arith, length-drop (length p) spare)))
      ]

  -- The loop over the parameters restores all of them from slots that hold their rows.
  pub replicate_params-row :
      (w off idx : ℕ) (found memory : ℕ → ℕ → A) (xss : List (List A)) (before : ℕ → List A)
      → 0 < w
      → ((r : ℕ) → length (before r) ≡ off)
      → replicate_params found idx off
          (ranks_from (λ r. before r ++ row w memory xss r) 0 w)
          (sizes w xss)
        ≡ ok xss
  unfolding replicate_params
  replicate_params-row w off idx found memory [] before h place = refl
  replicate_params-row w off idx found memory (xs ∷ xss) before h place =
      let c : ℕ = shard_size w (length xs) in
      let slots = ranks_from (λ r. before r ++ row w memory (xs ∷ xss) r) 0 w in
      let start : c * 0 ≡ 0 = omega arith in
      let all : drop (c * 0) xs ≡ xs = ap (λ k. drop k xs) start in
      let blank : List A = empty (found idx) (length xs) in
      let copied : copy_parts c (length xs) off 0 slots blank ≡ ok xs =
        copy_parts_lem c off 0 w memory xs before (row w memory xss) [] blank place
          (shards-hold w (length xs) h) all
          (length-empty_from 0 (found idx) (length xs) ∙ ap length (sym all)) in
      let next : (r : ℕ) → length (before r ++ shard_of c r (memory r) xs) ≡ off + c = λ r. omega (
        arith,
        place r,
        length-append (before r) (shard_of c r (memory r) xs),
        length-shard_of c r (memory r) xs,
      ) in
      let rest : replicate_params found (suc idx) (off + c) slots (sizes w xss) ≡ ok xss =
        ap (λ ss. replicate_params found (suc idx) (off + c) ss (sizes w xss))
          (slots-next w 0 w memory xs xss before)
        ∙ replicate_params-row w (off + c) (suc idx) found memory xss
            (λ r. before r ++ shard_of c r (memory r) xs) h next in
      rw (copied, rest) refl

  -- The shards fill a slot of their size.
  pub fill_slot_lem :
      (offset : ℕ) (shards : List (List A)) (done spare : List A)
      → length done ≡ offset
      → length spare ≡ length (concat shards)
      → fill_slot offset shards (done ++ spare) ≡ ok (done ++ concat shards)
  unfolding fill_slot concat
  fill_slot_lem offset [] done spare e room = rw (length-zero spare room) refl
  fill_slot_lem offset (shard ∷ shards) done spare e room =
      let total = length-append shard (concat shards) in
      rw (write_at-behind done spare shard offset e (omega arith)) (
        fill_slot_lem (offset + length shard) shards (done ++ shard) (drop (length shard) spare)
          (omega (arith, length-append done shard))
          (omega (arith, length-drop (length shard) spare))
        ∙ ap ok (append_assoc done shard (concat shards)))
