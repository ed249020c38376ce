-- ===== src/Client.antt =====
-- src/smartnic_offload/comch_mpi/host/client.py, the gathers into a list of tensors, as blocking
-- calls; Client/Flat.antt has the other collectives. The driver is not part of the repository: what it leaves in the flat output for the flat
-- input, or the exception that it raises, is an argument.
pub mod Flat
pub mod Same
pub mod Scatter
mod Tests
use understanding_smartnic.Prelude.{
  ℕ, suc, ◌+◌, ◌*◌, List, [], ◌∷◌, Bool, ◌==◌, length, take, drop, Result, ok, err, ◌>>=◌, ◌>>◌,
  guard, value_error, type_error, runtime_error,
}

-- What the code reads of a tensor; a shape is a view and is not kept.
pub record Tensor {ℓ} (A : Type ℓ) : Type ℓ where
  pub contents : List A
  pub dtype : ℕ
  pub device : ℕ

module _ {ℓ} {A : Type ℓ} where
  -- The loop of `_scatter_flat_to_list` from row `rank` on; `view_as` refuses another size.
  pub copy_rows : List A → ℕ → ℕ → List (Tensor A) → Result (List (Tensor A))
  copy_rows flat_output numel_per_rank rank [] = ok []
  copy_rows flat_output numel_per_rank rank (out ∷ outs) = do
    guard (length out.contents == numel_per_rank) runtime_error
    rest ← copy_rows flat_output numel_per_rank (rank + 1) outs
    ok (
        record out { contents = take numel_per_rank (drop (numel_per_rank * rank) flat_output) }
        ∷ rest)

  -- `_scatter_flat_to_list`: the output tensors afterwards
  unfoldable pub scatter_flat_to_list :
      List A → List (Tensor A) → Tensor A → Result (List (Tensor A))
  unfolding copy_rows
  scatter_flat_to_list flat_output outs like = do
    guard (length flat_output == length outs * length like.contents) runtime_error
    copy_rows flat_output (length like.contents) 0 outs

  -- The checks of the output tensors in `all_gather_list_via_base`.
  unfoldable pub check_outputs : Tensor A → List (Tensor A) → Result (Unit {0})
  check_outputs input [] = ok tt
  check_outputs input (out ∷ outs) = do
    guard (length out.contents == length input.contents) value_error
    guard (out.dtype == input.dtype) type_error
    guard (out.device == input.device) type_error
    check_outputs input outs

  -- `all_gather_list_via_base` with `async_op` False
  unfoldable pub all_gather_list_via_base :
      ℕ → (List A → Result (List A)) → List (Tensor A) → Tensor A → Result (List (Tensor A))
  unfolding check_outputs scatter_flat_to_list
  all_gather_list_via_base world_size driver outs input = do
    guard (length outs == world_size) value_error
    check_outputs input outs
    flat ← driver input.contents
    scatter_flat_to_list flat outs input

  -- `all_gather_cpu_full_list_via_base`, which checks nothing
  unfoldable pub all_gather_cpu_full_list_via_base :
      (List A → Result (List A)) → List (Tensor A) → Tensor A → Result (List (Tensor A))
  unfolding scatter_flat_to_list
  all_gather_cpu_full_list_via_base driver outs input = do
    flat ← driver input.contents
    scatter_flat_to_list flat outs input
