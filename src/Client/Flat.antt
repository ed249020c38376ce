-- ===== src/Client/Flat.antt =====
-- src/smartnic_offload/comch_mpi/host/client.py: the collectives on flat tensors, the reduce-scatter of
-- a list of tensors, and the calls with `async_op`, whose `wait` completes them. The driver writes the
-- output in place: what it leaves there for the input, or its exception, is an argument.
use understanding_smartnic.Prelude.{
  ℕ, ◌*◌, List, [], ◌∷◌, ◌==◌, length, Result, ok, ◌>>=◌, ◌>>◌, guard, value_error, type_error,
  runtime_error,
}
use understanding_smartnic.Tensor.{cat}
use understanding_smartnic.Client.{Tensor, scatter_flat_to_list, check_outputs}

module _ {ℓ} {A : Type ℓ} where
  -- `all_gather_flat_via_base` with `async_op` False: the output tensor
  unfoldable pub all_gather_flat_via_base :
      ℕ → (List A → Result (List A)) → Tensor A → Tensor A → Result (Tensor A)
  all_gather_flat_via_base world_size driver output input = do
    guard (length output.contents == length input.contents * world_size) value_error
    guard (output.dtype == input.dtype) type_error
    guard (output.device == input.device) type_error
    flat ← driver input.contents
    ok (record output { contents = flat })

  -- `reduce_scatter_flat_via_base` with `async_op` False: the output tensor
  unfoldable pub reduce_scatter_flat_via_base :
      ℕ → (List A → Result (List A)) → Tensor A → Tensor A → Result (Tensor A)
  reduce_scatter_flat_via_base world_size driver output input = do
    guard (length input.contents == length output.contents * world_size) value_error
    guard (output.dtype == input.dtype) type_error
    guard (output.device == input.device) type_error
    flat ← driver input.contents
    ok (record output { contents = flat })

  -- `all_gather_cpu_full_flat_via_base` with `async_op` False, which does not compare the devices
  unfoldable pub all_gather_cpu_full_flat_via_base :
      ℕ → (List A → Result (List A)) → Tensor A → Tensor A → Result (Tensor A)
  all_gather_cpu_full_flat_via_base world_size driver output input = do
    guard (length output.contents == length input.contents * world_size) value_error
    guard (output.dtype == input.dtype) type_error
    flat ← driver input.contents
    ok (record output { contents = flat })

  -- The checks of the input tensors in `reduce_scatter_list_via_base`.
  unfoldable pub check_inputs : Tensor A → List (Tensor A) → Result (Unit {0})
  check_inputs output [] = ok tt
  check_inputs output (tin ∷ tins) = do
    guard (length tin.contents == length output.contents) value_error
    guard (tin.dtype == output.dtype) type_error
    guard (tin.device == output.device) type_error
    check_inputs output tins

  -- `[t.contiguous().view(-1) for t in input_tensors]`
  abbrev pub flat_list : List (Tensor A) → List (List A)
  flat_list [] = []
  flat_list (t ∷ ts) = t.contents ∷ flat_list ts

  -- `output_tensor.copy_(output_flat.view_as(output_tensor))`
  unfoldable pub copy_flat : Tensor A → List A → Result (Tensor A)
  copy_flat output flat = do
    guard (length flat == length output.contents) runtime_error
    ok (record output { contents = flat })

  -- `reduce_scatter_list_via_base` with `async_op` False: the output tensor
  unfoldable pub reduce_scatter_list_via_base :
      ℕ → (List A → Result (List A)) → Tensor A → List (Tensor A) → Result (Tensor A)
  unfolding check_inputs copy_flat
  reduce_scatter_list_via_base world_size driver output inputs = do
    guard (length inputs == world_size) value_error
    check_inputs output inputs
    input_flat ← cat (flat_list inputs)
    output_flat ← driver input_flat
    copy_flat output output_flat

-- `_AllGatherHandleWork`: the input that was enqueued, and where its `wait` puts the rows.
pub record AllGatherHandleWork {ℓ} (A : Type ℓ) : Type ℓ where
  pub out_list : List (Tensor A)
  pub like : Tensor A

-- `_ReduceScatterHandleWork`
pub record ReduceScatterHandleWork {ℓ} (A : Type ℓ) : Type ℓ where
  pub in_flat : List A
  pub out_t : Tensor A

module _ {ℓ} {A : Type ℓ} where
  -- `all_gather_list_via_base` with `async_op` True
  unfoldable pub enqueue_all_gather_list :
      ℕ → List (Tensor A) → Tensor A → Result (AllGatherHandleWork A)
  enqueue_all_gather_list world_size outs input = do
    guard (length outs == world_size) value_error
    check_outputs input outs
    ok (record { out_list = outs; like = input })

  -- `all_gather_cpu_full_list_via_base` with `async_op` True
  unfoldable pub enqueue_all_gather_cpu_full_list :
      List (Tensor A) → Tensor A → AllGatherHandleWork A
  enqueue_all_gather_cpu_full_list outs input = record { out_list = outs; like = input }

  -- `wait` of `_AllGatherHandleWork`: the outputs; `driver` is what the request ends with.
  unfoldable pub wait_all_gather :
      (List A → Result (List A)) → AllGatherHandleWork A → Result (List (Tensor A))
  wait_all_gather driver work = do
    flat ← driver work.like.contents
    scatter_flat_to_list flat work.out_list work.like

  -- `reduce_scatter_list_via_base` with `async_op` True
  unfoldable pub enqueue_reduce_scatter_list :
      ℕ → Tensor A → List (Tensor A) → Result (ReduceScatterHandleWork A)
  unfolding check_inputs
  enqueue_reduce_scatter_list world_size output inputs = do
    guard (length inputs == world_size) value_error
    check_inputs output inputs
    input_flat ← cat (flat_list inputs)
    ok (record { in_flat = input_flat; out_t = output })

  -- `wait` of `_ReduceScatterHandleWork`: the output
  unfoldable pub wait_reduce_scatter :
      (List A → Result (List A)) → ReduceScatterHandleWork A → Result (Tensor A)
  unfolding copy_flat
  wait_reduce_scatter driver work = do flat ← driver work.in_flat; copy_flat work.out_t flat
