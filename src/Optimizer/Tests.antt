-- ===== src/Optimizer/Tests.antt =====
-- Three parameters of three elements each in subgroups of at least four.
use understanding_smartnic.Prelude.{
  arith, Option, none, ℕ, ◌+◌, ◌≤◌, ◌≡◌, ◌⊎◌, List, [], ◌∷◌, some, ok,
}
use understanding_smartnic.Tensor.{concat, empty}
use understanding_smartnic.Optimizer.{Parameter, last_id, create_fp16_sub_groups, place_sub_groups}
use understanding_smartnic.Optimizer.SubGroups.{AreCut, create_fp16_sub_groups_lem}
use understanding_smartnic.Optimizer.Tables.{
  GradPosition, number_groups, set_grad_positions, grad_offsets,
}
use understanding_smartnic.Optimizer.Tables.Agree.{AreApart}
use understanding_smartnic.Optimizer.Tables.Found.{set_grad_positions-grad_offsets}
use understanding_smartnic.Optimizer.Flat.{place_sub_groups-create_fp16_sub_groups}

abbrev param : ℕ → Parameter ℕ
param i = record {
  id = 100 + i;
  ds_id = i;
  ds_numel = 6;
  ds_tensor = i ∷ i ∷ i ∷ [];
  padding_size = 0;
}

abbrev group : List (Parameter ℕ)
group = param 0 ∷ param 1 ∷ param 2 ∷ []

create_fp16_sub_groups_lem_example :
    (concat (create_fp16_sub_groups (some 4) group) ≡ group)
    × (((9 ≤ 4) × (create_fp16_sub_groups (some 4) group ≡ group ∷ []))
        ⊎ AreCut 4 102 (create_fp16_sub_groups (some 4) group))
unfolding last_id
create_fp16_sub_groups_lem_example = create_fp16_sub_groups_lem 4 group

place_sub_groups-create_fp16_sub_groups_example :
    place_sub_groups 0 (create_fp16_sub_groups (some 4) group) (empty (λ i. 99) 9)
    ≡ ok (0 ∷ 0 ∷ 0 ∷ 1 ∷ 1 ∷ 1 ∷ 2 ∷ 2 ∷ 2 ∷ [])
place_sub_groups-create_fp16_sub_groups_example =
    place_sub_groups-create_fp16_sub_groups (λ i. 99) 4 group

apart_ids : AreApart (λ q. q.id) group
apart_ids = ((omega arith, (omega arith, tt)), ((omega arith, tt), (tt, tt)))

apart_numbers : AreApart (λ q. q.ds_id) group
apart_numbers = ((omega arith, (omega arith, tt)), ((omega arith, tt), (tt, tt)))

-- The second subgroup has parameters 1 and 2.
set_grad_positions-grad_offsets_example :
    (d : ℕ → Option GradPosition) × (k : ℕ) × (set_grad_positions
        (number_groups 0 ((param 0 ∷ []) ∷ (param 1 ∷ param 2 ∷ []) ∷ []) (λ j. none))
        0
        ((param 0 ∷ []) ∷ (param 1 ∷ param 2 ∷ []) ∷ [])
        (λ j. none)
      ≡ ok d)
    × (number_groups 0 ((param 0 ∷ []) ∷ (param 1 ∷ param 2 ∷ []) ∷ []) (λ j. none) 102 ≡ some k)
    × (d k ≡ some (record { group = 1; current_offset = 3; num_elements = 3 }))
    × (grad_offsets 0 group (λ j. none) 2 ≡ some 6)
unfolding concat
set_grad_positions-grad_offsets_example =
    set_grad_positions-grad_offsets ((param 0 ∷ []) ∷ []) [] (param 1 ∷ []) [] (param 2) apart_ids
      apart_numbers
