-- ===== src/Optimizer/Flat.antt =====
-- The flat buffers hold the shards one after the other.
use understanding_smartnic.Prelude.{
  ℕ, ◌+◌, ◌≤◌, ◌≡◌, refl, sym, ap, ◌∙◌, List, [], ◌∷◌, ◌++◌, some, true, if◌then◌else◌, leb, arith,
  length, take, drop, length-append, length-take, length-drop, take-append-drop, take-append_le,
  take-length, drop-append, ok, err, ◌>>=◌, ◌>>◌, guard, runtime_error,
}
use mathlib.Core.List.{append_assoc}
use understanding_smartnic.Tensor.{concat, write_at, empty, length-empty_from}
use understanding_smartnic.Optimizer.{
  Parameter, partition_numel, numel_of, create_fp16_sub_groups, move_to_flat_buffer,
  place_sub_groups,
}
use understanding_smartnic.Optimizer.SubGroups.{create_fp16_sub_groups_lem, numel_of-append}

module _ {ℓ} {A : Type ℓ} where
  -- A write replaces the part behind a prefix.
  write_at-middle :
      (front old ys back : List A) (start : ℕ)
      → start ≡ length front
      → length old ≡ length ys
      → write_at ((front ++ old) ++ back) start ys ≡ ok ((front ++ ys) ++ back)
  write_at-middle front old ys back start e f =
      let all : List A = (front ++ old) ++ back in
      let part : length (front ++ old) ≡ start + length ys =
        omega (arith, length-append front old) in
      let fits : leb (start + length ys) (length all) ≡ true =
        ground (arith, length-append (front ++ old) back) in
      let before : take start all ≡ front =
        take-append_le start (front ++ old) back (omega arith)
        ∙ take-append_le start front old (omega arith)
        ∙ take-length front start (omega arith) in
      let after : drop (start + length ys) all ≡ back =
        drop-append (start + length ys) (front ++ old) back (sym part) in
      ap
        (λ b.
          if b
          then ok ((take start all ++ ys) ++ drop (start + length ys) all)
          else err runtime_error)
        fits
      ∙ ap (λ l. ok ((l ++ ys) ++ drop (start + length ys) all)) before
      ∙ ap (λ l. ok ((front ++ ys) ++ l)) after

  -- The shards, one after the other.
  abbrev pub shards : List (Parameter A) → List A
  shards [] = []
  shards (p ∷ ps) = p.ds_tensor ++ shards ps

  length-shards : (ps : List (Parameter A)) → length (shards ps) ≡ numel_of ps
  length-shards [] = refl
  length-shards (p ∷ ps) = omega (arith, length-append p.ds_tensor (shards ps), length-shards ps)

  shards-append : (ps qs : List (Parameter A)) → shards (ps ++ qs) ≡ shards ps ++ shards qs
  shards-append [] qs = refl
  shards-append (p ∷ ps) qs =
      ap (◌++◌ p.ds_tensor) (shards-append ps qs)
      ∙ sym (append_assoc p.ds_tensor (shards ps) (shards qs))

  move_to_flat_buffer_lem :
      (base size start : ℕ) (ps : List (Parameter A)) (front old back : List A)
      → base + start ≡ length front
      → length old ≡ numel_of ps
      → start + numel_of ps ≤ size
      → move_to_flat_buffer base size start ps ((front ++ old) ++ back)
        ≡ ok ((front ++ shards ps) ++ back)
  unfolding move_to_flat_buffer
  move_to_flat_buffer_lem base size start [] front [] back e f g = refl
  move_to_flat_buffer_lem base size start [] front (x ∷ old) back e f g = absurd (omega arith)
  move_to_flat_buffer_lem base size start (p ∷ ps) front old back e f g =
      let n : ℕ = partition_numel p in
      let mine : List A = take n old in
      let rest : List A = drop n old in
      let l : length mine ≡ n = omega (arith, length-take n old) in
      let fits : leb (start + n) size ≡ true = ground arith in
      let cut : (front ++ old) ++ back ≡ (front ++ mine) ++ (rest ++ back) =
        ap (λ o. (front ++ o) ++ back) (sym (take-append-drop n old))
        ∙ ap (λ o. o ++ back) (sym (append_assoc front mine rest))
        ∙ append_assoc (front ++ mine) rest back in
      let next = λ (written : List A). move_to_flat_buffer base size (start + n) ps written in
      ap
        (λ b.
          guard b runtime_error
          >> (write_at ((front ++ old) ++ back) (base + start) p.ds_tensor >>= next))
        fits
      ∙ ap (λ o. write_at o (base + start) p.ds_tensor >>= next) cut
      ∙ ap (λ r. r >>= next)
          (write_at-middle front mine p.ds_tensor (rest ++ back) (base + start) e l)
      ∙ ap next (sym (append_assoc (front ++ p.ds_tensor) rest back))
      ∙ move_to_flat_buffer_lem base size (start + n) ps (front ++ p.ds_tensor) rest back
          (omega (arith, length-append front p.ds_tensor)) (omega (arith, length-drop n old))
          (omega arith)
      ∙ ap (λ o. ok (o ++ back)) (append_assoc front p.ds_tensor (shards ps))

  place_sub_groups_lem :
      (flat_offset : ℕ) (gs : List (List (Parameter A))) (front old : List A)
      → flat_offset ≡ length front
      → length old ≡ numel_of (concat gs)
      → place_sub_groups flat_offset gs (front ++ old) ≡ ok (front ++ shards (concat gs))
  unfolding place_sub_groups concat
  place_sub_groups_lem flat_offset [] front [] e f = refl
  place_sub_groups_lem flat_offset [] front (x ∷ old) e f = absurd (omega arith)
  place_sub_groups_lem flat_offset (g ∷ gs) front old e f =
      let n : ℕ = numel_of g in
      let all : numel_of (g ++ concat gs) ≡ n + numel_of (concat gs) =
        numel_of-append g (concat gs) in
      let mine : List A = take n old in
      let rest : List A = drop n old in
      let l : length mine ≡ n = omega (arith, length-take n old) in
      let fits : leb (flat_offset + n) (length (front ++ old)) ≡ true =
        ground (arith, length-append front old) in
      let next = λ (moved : List A). place_sub_groups (flat_offset + n) gs moved in
      ap
        (λ b.
          guard b runtime_error >> (move_to_flat_buffer flat_offset n 0 g (front ++ old) >>= next))
        fits
      ∙ ap (λ o. move_to_flat_buffer flat_offset n 0 g o >>= next)
          (ap (◌++◌ front) (sym (take-append-drop n old)) ∙ sym (append_assoc front mine rest))
      ∙ ap (λ r. r >>= next)
          (move_to_flat_buffer_lem flat_offset n 0 g front mine rest (omega arith) l (omega arith))
      ∙ place_sub_groups_lem (flat_offset + n) gs (front ++ shards g) rest
          (omega (arith, length-append front (shards g), length-shards g))
          (omega (arith, length-drop n old))
      ∙ ap ok (
          append_assoc front (shards g) (shards (concat gs))
          ∙ ap (◌++◌ front) (sym (shards-append g (concat gs))))

  -- If the subgroups of a group are placed in a new buffer of the group's size, whatever the memory
  -- held, no slice is out of range, and the buffer then holds the shards of the group's parameters in
  -- their order, without a gap.
  pub place_sub_groups-create_fp16_sub_groups :
      (memory : ℕ → A) (size : ℕ) (group : List (Parameter A))
      → place_sub_groups 0
          (create_fp16_sub_groups (some size) group)
          (empty memory (numel_of group))
        ≡ ok (shards group)
  place_sub_groups-create_fp16_sub_groups memory size group =
      let all = (create_fp16_sub_groups_lem size group).0 in
      place_sub_groups_lem 0 (create_fp16_sub_groups (some size) group) []
        (empty memory (numel_of group)) refl
        (length-empty_from 0 memory (numel_of group) ∙ ap numel_of (sym all))
      ∙ ap (λ g. ok (shards g)) all
