-- ===== src/Partition/Gather.antt =====
-- `Init._allgather_params` and the `all_gather_list_via_base` of the same file, which it calls: the shards of several parameters travel in one slot for each rank. A
-- parameter is given by its length and by its shard's, and a tensor is the list of its elements.
use understanding_smartnic.Prelude.{
  ℕ, zero, suc, ◌+◌, ◌-◌, ◌*◌, min, List, [], ◌∷◌, map, ltb, if◌then◌else◌, length, take, drop,
  Result, ok, ◌>>=◌, ◌>>◌, ◌==◌, guard, value_error,
}
use understanding_smartnic.Tensor.{narrow, write_at, empty}
use understanding_smartnic.Client.{Tensor, scatter_flat_to_list}

-- The length of a slot.
abbrev pub partition_size : List (ℕ × ℕ) → ℕ
partition_size [] = 0
partition_size ((ds_numel, c) ∷ ps) = c + partition_size ps

module _ {ℓ} {A : Type ℓ} where
  -- The loop that copies this rank's shards into its slot, one behind the other.
  unfoldable pub fill_slot : ℕ → List (List A) → List A → Result (List A)
  fill_slot offset [] slot = ok slot
  fill_slot offset (shard ∷ shards) slot = do
    after ← write_at slot offset shard
    fill_slot (offset + length shard) shards after

  -- The loop over the ranks that copies the parts of one parameter, from `rank` on.
  unfoldable pub copy_parts : ℕ → ℕ → ℕ → ℕ → List (List A) → List A → Result (List A)
  copy_parts c ds_numel param_offset rank [] replicated = ok replicated
  copy_parts c ds_numel param_offset rank (slot ∷ slots) replicated =
      let param_start = rank * c in
      let rest = copy_parts c ds_numel param_offset (rank + 1) slots in
      if ltb param_start ds_numel
      then (do
        part_to_copy ← narrow slot param_offset (min (ds_numel - param_start) c)
        after ← write_at replicated param_start part_to_copy
        rest after)
      else rest replicated

  -- The loop over the parameters; `memory` is what `torch.empty` finds for each of them.
  unfoldable pub replicate_params :
      (ℕ → ℕ → A) → ℕ → ℕ → List (List A) → List (ℕ × ℕ) → Result (List (List A))
  unfolding copy_parts
  replicate_params memory idx param_offset slots [] = ok []
  replicate_params memory idx param_offset slots ((ds_numel, c) ∷ ps) = do
    whole ← copy_parts c ds_numel param_offset 0 slots (empty (memory idx) ds_numel)
    rest ← replicate_params memory (suc idx) (param_offset + c) slots ps
    ok (whole ∷ rest)

  -- The slots cut out of the flat tensor, from rank `i` on.
  unfoldable pub slots_from : ℕ → ℕ → ℕ → List A → List (Tensor A)
  slots_from zero size i flat_tensor = []
  slots_from (suc m) size i flat_tensor =
      record { contents = take size (drop (size * i) flat_tensor); dtype = 0; device = 0 }
      ∷ slots_from m size (i + 1) flat_tensor

  -- `all_gather_list_via_base` of this file with `async_op` False: only the number of the outputs is
  -- checked. `driver` is what the enqueued request leaves in the flat output when it has been waited
  -- for, or the exception. The file's `_scatter_flat_to_list` is the client's, word for word.
  unfoldable pub all_gather_list :
      ℕ → (List A → Result (List A)) → List (Tensor A) → Tensor A → Result (List (Tensor A))
  unfolding scatter_flat_to_list
  all_gather_list world_size driver outs input = do
    guard (length outs == world_size) value_error
    flat ← driver input.contents
    scatter_flat_to_list flat outs input

  -- `_allgather_params`: what `param.data` becomes for each parameter. `shards` are this rank's, and
  -- `flat` is what `torch.empty` finds for the flat tensor.
  unfoldable pub allgather_params :
      ℕ
      → ℕ
      → (ℕ → A)
      → (ℕ → ℕ → A)
      → (List A → Result (List A))
      → List (ℕ × ℕ)
      → List (List A)
      → Result (List (List A))
  unfolding fill_slot replicate_params slots_from all_gather_list
  allgather_params world_size rank flat memory driver [] shards = ok []
  allgather_params world_size rank flat memory driver (p ∷ ps) shards = do
    let size = partition_size (p ∷ ps)
    let flat_tensor = empty flat (size * world_size)
    let partitions = slots_from world_size size 0 flat_tensor
    mine ← fill_slot 0 shards (take size (drop (size * rank) flat_tensor))
    let input : Tensor A = record { contents = mine; dtype = 0; device = 0 }
    gathered ← all_gather_list world_size driver partitions input
    replicate_params memory 0 0 (map (λ t. t.contents) gathered) (p ∷ ps)
