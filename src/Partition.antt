-- ===== src/Partition.antt =====
-- src/smartnic_offload/partition_parameters.py, class `Init`: how a parameter is cut into the shards
-- of the ranks, and how gathered shards become the parameter again. Elements are copied and never
-- computed with, so they are of any type; a shape is a view and is not kept.
pub mod Sizes
pub mod Shard
pub mod RoundTrip
pub mod Gather
pub mod Gradients
pub mod Summed
pub mod Reduced
pub mod Owned
pub mod Replicated
pub mod Slots
pub mod Gathered
pub mod Cut
mod Tests
use understanding_smartnic.Prelude.{
  ℕ, zero, suc, ◌+◌, ◌-◌, ◌*◌, ◌/◌, ◌%◌, min, List, [], ◌∷◌, ◌++◌, Option, none, some, Bool, true,
  false, ◌&&◌, not, ltb, leb, ◌==◌, if◌then◌else◌, length, Result, ok, err, ◌>>=◌, ◌>>◌, guard,
  runtime_error, assertion_error, unbound_local_error,
}
use understanding_smartnic.Tensor.{narrow, write_at, empty, cat}

-- `ZeroParamStatus`
pub data ZeroParamStatus : Type 0 where
  available not_available inflight : ZeroParamStatus

abbrev pub is_available : ZeroParamStatus → Bool
is_available available = true
is_available _ = false

-- `_padding_size`
pub padding_size : ℕ → ℕ → ℕ
padding_size world_size numel =
    let remainder = numel % world_size in if not (remainder == 0) then world_size - remainder else 0

-- `_aligned_size`
pub aligned_size : ℕ → ℕ → ℕ
unfolding padding_size
aligned_size world_size numel = numel + padding_size world_size numel

-- The fields of a parameter that `_convert_to_deepspeed_param` adds and the partitioning uses.
pub record ZeroParam {ℓ} (A : Type ℓ) : Type ℓ where
  pub ds_status : ZeroParamStatus
  pub ds_numel : ℕ
  pub ds_tensor : Option (List A)
  pub contents : List A
  pub ds_active_sub_modules : List ℕ

is_empty : List ℕ → Bool
is_empty [] = true
is_empty (x ∷ xs) = false

module _ {ℓ} {A : Type ℓ} where
  -- `free_param`
  pub free_param : ZeroParam A → Result (ZeroParam A)
  unfolding is_empty
  free_param p = do
    guard (is_empty p.ds_active_sub_modules) assertion_error
    ok (record p { contents = []; ds_status = not_available })

  -- The copy of this rank's part of the parameter into its shard.
  unfoldable pub copy_part : ℕ → ℕ → List A → List A → ℕ → Result (List A)
  copy_part partition_size rank one_dim buf ds_numel =
      let start = partition_size * rank in
      let stop = partition_size * (rank + 1) in
      if ltb start ds_numel && leb stop ds_numel
      then narrow one_dim start partition_size
      else if ltb start ds_numel
      then (do src ← narrow one_dim start (ds_numel - start); write_at buf 0 src)
      else ok buf

  -- Whether `_partition_param` only has to free the full parameter.
  abbrev pub keeps_shard : Bool → ZeroParam A → Bool
  keeps_shard has_been_updated p =
      is_available p.ds_status
      && elim p.ds_tensor [ none ↦ false | some t ↦ true ]
      && not has_been_updated

  -- `_partition_param`: `memory` is what `torch.empty` finds. With a shard already there the local
  -- variable `partitioned_tensor` is read before any assignment.
  pub partition_param : ℕ → ℕ → (ℕ → A) → Bool → ZeroParam A → Result (ZeroParam A)
  unfolding aligned_size free_param copy_part
  partition_param world_size rank memory has_been_updated p =
      if keeps_shard has_been_updated p
      then free_param p
      else let partition_size = aligned_size world_size p.ds_numel / world_size in
        elim p.ds_tensor [
          | some t ↦ err unbound_local_error
          | none ↦ do
            let buf = empty memory partition_size
            shard ← copy_part partition_size rank p.contents buf p.ds_numel
            free_param (record p { ds_tensor = some shard })
        ]

  -- `_partition`
  pub partition : ℕ → ℕ → (ℕ → A) → Bool → List (ZeroParam A) → Result (List (ZeroParam A))
  unfolding partition_param
  partition world_size rank memory has_been_updated [] = ok []
  partition world_size rank memory has_been_updated (p ∷ ps) = do
    q ← partition_param world_size rank memory has_been_updated p
    qs ← partition world_size rank memory has_been_updated ps
    ok (record q { ds_status = not_available } ∷ qs)

  -- `all_gather_coalesced` with one parameter: what becomes of `param.data` when the gathered
  -- buffer, `math.ceil(ds_numel / world_size) * world_size` long, has arrived.
  pub gather_one : List A → ℕ → Result (List A)
  gather_one param_buffer ds_numel = narrow param_buffer 0 ds_numel

  -- `AllGatherCoalescedHandle.wait`, the parts of one parameter: `c` is its shard's length, and the
  -- list holds the slots of the ranks from `rank` on.
  pub parts_from : ℕ → ℕ → ℕ → ℕ → List (List A) → Result (List (List A))
  parts_from c ds_numel param_offset rank [] = ok []
  parts_from c ds_numel param_offset rank (slot ∷ slots) =
      let param_start = rank * c in
      let rest = parts_from c ds_numel param_offset (rank + 1) slots in
      if ltb param_start ds_numel
      then (do
        part_to_copy ← narrow slot param_offset (min (ds_numel - param_start) c)
        parts ← rest
        ok (part_to_copy ∷ parts))
      else rest

  -- The loop over the parameters, each given by its length and its shard's length.
  pub gather_params : ℕ → List (List A) → List (ℕ × ℕ) → Result (List (List A))
  unfolding parts_from cat
  gather_params param_offset slots [] = ok []
  gather_params param_offset slots ((ds_numel, c) ∷ ps) = do
    parts ← parts_from c ds_numel param_offset 0 slots
    whole ← cat parts
    rest ← gather_params (param_offset + c) slots ps
    ok (whole ∷ rest)
