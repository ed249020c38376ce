-- ===== src/Optimizer.antt =====
-- src/smartnic_offload/zero_optimizer.py, how `ZeroOptimizer3` lays the parameters out: subgroups of
-- bounded size, flat buffers of a subgroup's shards, and the tables of gradient positions. A shard is
-- a list; `partition_numel()` is the shard's length, which `_partition_param` keeps in `ds_numel`.
pub mod SubGroups
pub mod Flat
pub mod Tables
mod Tests
use understanding_smartnic.Prelude.{
  ℕ, zero, suc, ◌+◌, ◌-◌, List, [], ◌∷◌, ◌++◌, map, Option, none, some, Bool, true, false, ◌||◌,
  if◌then◌else◌, leb, ltb, ◌==◌, length, get_elem?, set, Result, ok, err, ◌>>=◌, ◌>>◌, guard,
  runtime_error, index_error,
}
use understanding_smartnic.Tensor.{narrow, write_at, empty}

-- A parameter: `id(param)`, `ds_id`, `ds_numel`, `ds_tensor` and `padding_size()`.
pub record Parameter {ℓ} (A : Type ℓ) : Type ℓ where
  pub id : ℕ
  pub ds_id : ℕ
  pub ds_numel : ℕ
  pub ds_tensor : List A
  pub padding_size : ℕ

-- What the first loop of `_create_fp16_partitions_with_defragmentation` fills.
pub record Partitions {ℓ} (A : Type ℓ) : Type ℓ where
  pub fp16_groups : List (List (Parameter A))
  pub sub_group_to_group_id : List ℕ
  pub flat_numel : List ℕ
  pub groups_padding : List (List ℕ)

module _ {ℓ} {A : Type ℓ} where
  abbrev pub partition_numel : Parameter A → ℕ
  partition_numel p = length p.ds_tensor

  -- `sum(p.partition_numel() for p in params)`
  abbrev pub numel_of : List (Parameter A) → ℕ
  numel_of [] = 0
  numel_of (p ∷ ps) = partition_numel p + numel_of ps

  -- `id(params_group[-1])`, for a group that is not empty
  pub last_id : List (Parameter A) → ℕ
  last_id [] = 0
  last_id (p ∷ []) = p.id
  last_id (p ∷ q ∷ ps) = last_id (q ∷ ps)

  -- The loop of `_create_fp16_sub_groups`, from `sub_group` and `local_sub_group_size` on.
  pub sub_groups_from :
      ℕ → ℕ → List (Parameter A) → ℕ → List (Parameter A) → List (List (Parameter A))
  sub_groups_from size last sub_group local_size [] = []
  sub_groups_from size last sub_group local_size (p ∷ ps) =
      let grown = sub_group ++ p ∷ [] in
      let local = local_size + partition_numel p in
      let full = leb size local || (p.id == last) in
      let rest =
        sub_groups_from size last (if full then [] else grown) (if full then 0 else local) ps in
      if full then grown ∷ rest else rest

  -- `_create_fp16_sub_groups` with `sub_group_size`
  pub create_fp16_sub_groups : Option ℕ → List (Parameter A) → List (List (Parameter A))
  unfolding sub_groups_from last_id
  create_fp16_sub_groups none group = group ∷ []
  create_fp16_sub_groups (some size) group =
      if leb (numel_of group) size
      then group ∷ []
      else sub_groups_from size (last_id group) [] 0 group

  -- The paddings of a subgroup, on the last rank only.
  pub paddings : Bool → List (Parameter A) → List ℕ
  paddings rank_requires_padding [] = []
  paddings rank_requires_padding (p ∷ ps) =
      (if rank_requires_padding then p.padding_size else 0) ∷ paddings rank_requires_padding ps

  pub add_sub_group : Bool → ℕ → List (Parameter A) → Partitions A → Partitions A
  unfolding paddings
  add_sub_group rank_requires_padding group_idx sub_group t = record {
    fp16_groups = t.fp16_groups ++ sub_group ∷ [];
    sub_group_to_group_id = t.sub_group_to_group_id ++ group_idx ∷ [];
    flat_numel = t.flat_numel ++ numel_of sub_group ∷ [];
    groups_padding = t.groups_padding ++ paddings rank_requires_padding sub_group ∷ [];
  }

  pub add_sub_groups : Bool → ℕ → List (List (Parameter A)) → Partitions A → Partitions A
  unfolding add_sub_group
  add_sub_groups padded group_idx [] t = t
  add_sub_groups padded group_idx (g ∷ gs) t =
      add_sub_groups padded group_idx gs (add_sub_group padded group_idx g t)

  -- The first loop: the subgroups of every group, with the group's index.
  pub add_param_groups :
      ℕ → ℕ → Option ℕ → ℕ → List (List (Parameter A)) → Partitions A → Partitions A
  unfolding add_sub_groups create_fp16_sub_groups
  add_param_groups rank world_size size group_idx [] t = t
  add_param_groups rank world_size size group_idx (g ∷ gs) t =
      add_param_groups rank world_size size (suc group_idx) gs
        (add_sub_groups (suc rank == world_size) group_idx (create_fp16_sub_groups size g) t)

  -- `_create_param_groups_fp16_flat_cpu_memory`: one buffer for each group that is not empty.
  pub create_flat_cpu_memory : (ℕ → A) → List (List (Parameter A)) → List (List A)
  create_flat_cpu_memory memory [] = []
  create_flat_cpu_memory memory (g ∷ gs) =
      let rest = create_flat_cpu_memory memory gs in
      if ltb 0 (numel_of g) then empty memory (numel_of g) ∷ rest else rest

  -- `_move_to_flat_buffer` from `start` on, with `avoid_copy` False, for the view of `buffer` that
  -- starts at `base` and has `size` elements; the buffer afterwards.
  pub move_to_flat_buffer : ℕ → ℕ → ℕ → List (Parameter A) → List A → Result (List A)
  move_to_flat_buffer base size start [] buffer = ok buffer
  move_to_flat_buffer base size start (p ∷ ps) buffer = do
    guard (leb (start + partition_numel p) size) runtime_error
    written ← write_at buffer (base + start) p.ds_tensor
    move_to_flat_buffer base size (start + partition_numel p) ps written

  -- The second loop for the subgroups of one group: each takes the next part of the group's buffer.
  pub place_sub_groups : ℕ → List (List (Parameter A)) → List A → Result (List A)
  unfolding move_to_flat_buffer
  place_sub_groups flat_offset [] buffer = ok buffer
  place_sub_groups flat_offset (g ∷ gs) buffer = do
    guard (leb (flat_offset + numel_of g) (length buffer)) runtime_error
    moved ← move_to_flat_buffer flat_offset (numel_of g) 0 g buffer
    place_sub_groups (flat_offset + numel_of g) gs moved

  -- The second loop: a group finds its buffer by its index.
  pub place_param_groups :
      ℕ → List (List A) → List (List (List (Parameter A))) → Result (List (List A))
  unfolding place_sub_groups
  place_param_groups group_idx memory [] = ok memory
  place_param_groups group_idx memory ([] ∷ rest) = place_param_groups (suc group_idx) memory rest
  place_param_groups group_idx memory ((g ∷ gs) ∷ rest) = elim (get_elem? memory group_idx) [
    | none ↦ err index_error
    | some buffer ↦ place_sub_groups 0 (g ∷ gs) buffer >>= λ placed.
        place_param_groups (suc group_idx) (set memory group_idx placed) rest
  ]
