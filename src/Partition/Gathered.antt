-- ===== src/Partition/Gathered.antt =====
-- Several parameters, cut into shards that travel in one slot for each rank, come back whole from
-- `AllGatherCoalescedHandle.wait`.
use understanding_smartnic.Prelude.{
  ℕ, zero, suc, ◌+◌, ◌-◌, ◌*◌, ◌≤◌, ◌<◌, ◌≡◌, refl, sym, ◌∙◌, ap, List, [], ◌∷◌, ◌++◌, length, take,
  drop, length-append, take-length, drop-length, take-append_le, drop-append, drop-drop,
  take-append-drop, true, false, ok, min, arith, ltb,
}
use mathlib.Core.List.{append_assoc}
use native.Mathlib.Decide.{dec_lt}
use understanding_smartnic.Tensor.{concat, cat, empty, narrow, narrow_lem}
use understanding_smartnic.Partition.{parts_from, gather_params}
use understanding_smartnic.Partition.Sizes.{shard_size, shards-hold}
use understanding_smartnic.Partition.Shard.{part, shard_of, length-shard_of, length-part}

module _ {ℓ} {A : Type ℓ} where
  -- One list for each of the `n` ranks from `rank` on.
  abbrev pub ranks_from : (ℕ → List A) → ℕ → ℕ → List (List A)
  ranks_from f rank zero = []
  ranks_from f rank (suc n) = f rank ∷ ranks_from f (rank + 1) n

  pub ranks_from-ext :
      (f g : ℕ → List A) (rank n : ℕ)
      → ((r : ℕ) → f r ≡ g r)
      → ranks_from f rank n ≡ ranks_from g rank n
  ranks_from-ext f g rank zero same = refl
  ranks_from-ext f g rank (suc n) same =
      ap (λ x. x ∷ ranks_from f (rank + 1) n) (same rank)
      ∙ ap (◌∷◌ (g rank)) (ranks_from-ext f g (rank + 1) n same)

  pub narrow-middle :
      (before p rest : List A) (off n : ℕ)
      → length before ≡ off
      → length p ≡ n
      → narrow (before ++ (p ++ rest)) off n ≡ ok p
  narrow-middle before p rest off n e size =
      narrow_lem (before ++ (p ++ rest)) off n
        (omega (arith, length-append before (p ++ rest), length-append p rest))
      ∙ ap (λ ys. ok (take n ys)) (drop-append off before (p ++ rest) (sym e))
      ∙ ap ok (take-append_le n p rest (omega arith) ∙ take-length p n (omega arith))

  -- What a rank's slot holds of a parameter, behind what stands before it.
  pub narrow-part :
      (c rank off : ℕ) (memory : ℕ → A) (xs before after : List A)
      → length before ≡ off
      → narrow (before ++ (shard_of c rank memory xs ++ after)) off (min (length xs - rank * c) c)
        ≡ ok (part c rank xs)
  narrow-part c rank off memory xs before after e =
      let spare : List A = drop (length (part c rank xs)) (empty memory c) in
      let swap : rank * c ≡ c * rank = omega arith in
      let size : length (part c rank xs) ≡ min (length xs - rank * c) c =
        omega (arith, length-part c rank xs, swap) in
      ap (λ ys. narrow (before ++ ys) off (min (length xs - rank * c) c))
        (append_assoc (part c rank xs) spare after)
      ∙ narrow-middle before (part c rank xs) (spare ++ after) off _ e size

  -- A part and what follows it.
  pub part-drop :
      (c rank : ℕ) (xs : List A) → part c rank xs ++ drop (c * (rank + 1)) xs ≡ drop (c * rank) xs
  part-drop c rank xs =
      let next : c * (rank + 1) ≡ c * rank + c = omega arith in
      ap (λ k. part c rank xs ++ drop k xs) next
      ∙ ap (λ ys. part c rank xs ++ ys) (sym (drop-drop c (c * rank) xs))
      ∙ take-append-drop c (drop (c * rank) xs)

  -- Behind its end a parameter has nothing left.
  pub drop-ends :
      (c rank : ℕ) (xs : List A)
      → length xs ≤ rank * c
      → drop (c * (rank + 1)) xs ≡ drop (c * rank) xs
  drop-ends c rank xs h =
      let swap : rank * c ≡ c * rank = omega arith in
      let next : c * (rank + 1) ≡ c * rank + c = omega arith in
      drop-length xs (c * (rank + 1)) (omega arith) ∙ sym (drop-length xs (c * rank) (omega arith))

  -- The slots that hold a parameter at the same place.
  abbrev pub slots_with :
      ℕ → (ℕ → ℕ → A) → List A → (ℕ → List A) → (ℕ → List A) → ℕ → ℕ → List (List A)
  slots_with c memory xs before after =
      ranks_from (λ r. before r ++ (shard_of c r (memory r) xs ++ after r))

  parts_from_lem :
      (c off rank k : ℕ) (memory : ℕ → ℕ → A) (xs : List A) (before after : ℕ → List A)
      → ((r : ℕ) → length (before r) ≡ off)
      → length xs ≤ c * rank + k * c
      → (parts : List (List A)) × (parts_from c
            (length xs)
            off
            rank
            (slots_with c memory xs before after rank k)
          ≡ ok parts)
        × (concat parts ≡ drop (c * rank) xs)
  unfolding parts_from concat
  parts_from_lem c off rank zero memory xs before after place h =
      ([], refl, sym (drop-length xs (c * rank) (omega arith)))
  parts_from_lem c off rank (suc k) memory xs before after place h =
      let next : c * (rank + 1) ≡ c * rank + c = omega arith in
      let rest = slots_with c memory xs before after (rank + 1) k in
      let (parts, called, joined) =
        parts_from_lem c off (rank + 1) k memory xs before after place (omega arith) in
      let copied =
        narrow-part c rank off (memory rank) xs (before rank) (after rank) (place rank) in
      elim (dec_lt (rank * c) (length xs)) [
        | yes b ↦
            let t : ltb (rank * c) (length xs) ≡ true = ground arith in
            (
              part c rank xs ∷ parts,
              rw (t, copied, called) refl,
              ap (λ ys. part c rank xs ++ ys) joined ∙ part-drop c rank xs,
            )
        | no b ↦
            let t : ltb (rank * c) (length xs) ≡ false = ground arith in
            (parts, rw t called, joined ∙ drop-ends c rank xs (omega arith))
      ]

  cat_lem : (parts : List (List A)) → 0 < length (concat parts) → cat parts ≡ ok (concat parts)
  unfolding concat cat
  cat_lem [] h = absurd (omega arith)
  cat_lem (x ∷ parts) h = refl

  -- The lengths of parameters and of their shards.
  abbrev pub sizes : ℕ → List (List A) → List (ℕ × ℕ)
  sizes w [] = []
  sizes w (xs ∷ xss) = (length xs, shard_size w (length xs)) ∷ sizes w xss

  -- A rank's shards of several parameters, one behind the other.
  abbrev pub row : ℕ → (ℕ → ℕ → A) → List (List A) → ℕ → List A
  row w memory [] r = []
  row w memory (xs ∷ xss) r =
      shard_of (shard_size w (length xs)) r (memory r) xs ++ row w memory xss r

  abbrev pub AreFilled : List (List A) → Type 0
  AreFilled [] = Unit
  AreFilled (xs ∷ xss) = (0 < length xs) × AreFilled xss

  -- The slots behind the first parameter of their rows.
  pub slots-next :
      (w rank n : ℕ) (memory : ℕ → ℕ → A) (xs : List A) (xss : List (List A)) (before : ℕ → List A)
      → ranks_from (λ r. before r ++ row w memory (xs ∷ xss) r) rank n
        ≡ ranks_from
            (λ r.
              before r ++ shard_of (shard_size w (length xs)) r (memory r) xs ++ row w memory xss r)
            rank
            n
  slots-next w rank n memory xs xss before = ranks_from-ext _ _ rank n (λ r. sym (
      append_assoc (before r) (shard_of (shard_size w (length xs)) r (memory r) xs)
        (row w memory xss r)))

  pub gather_params-row :
      (w off : ℕ) (memory : ℕ → ℕ → A) (xss : List (List A)) (before : ℕ → List A)
      → 0 < w
      → ((r : ℕ) → length (before r) ≡ off)
      → AreFilled xss
      → gather_params off (ranks_from (λ r. before r ++ row w memory xss r) 0 w) (sizes w xss)
        ≡ ok xss
  unfolding gather_params
  gather_params-row w off memory [] before h place f = refl
  gather_params-row w off memory (xs ∷ xss) before h place (full, f) =
      let c : ℕ = shard_size w (length xs) in
      let slots = ranks_from (λ r. before r ++ row w memory (xs ∷ xss) r) 0 w in
      let start : c * 0 ≡ 0 = omega arith in
      let (parts, called, joined) =
        parts_from_lem c off 0 w memory xs before (row w memory xss) place
          (shards-hold w (length xs) h) in
      let whole : concat parts ≡ xs = joined ∙ ap (λ k. drop k xs) start in
      let filled : cat parts ≡ ok xs = cat_lem parts (rw whole full) ∙ ap ok whole in
      let next : (r : ℕ) → length (before r ++ shard_of c r (memory r) xs) ≡ off + c = λ r. omega (
        arith,
        place r,
        length-append (before r) (shard_of c r (memory r) xs),
        length-shard_of c r (memory r) xs,
      ) in
      let rest : gather_params (off + c) slots (sizes w xss) ≡ ok xss =
        ap (λ ss. gather_params (off + c) ss (sizes w xss)) (slots-next w 0 w memory xs xss before)
        ∙ gather_params-row w (off + c) memory xss (λ r. before r ++ shard_of c r (memory r) xs) h
            next f in
      rw (called, filled, rest) refl
