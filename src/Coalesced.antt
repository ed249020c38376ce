-- ===== src/Coalesced.antt =====
-- src/smartnic_offload/zero_optimizer.py, `reduce_scatter_coalesced` by the SmartNIC: several tensors
-- are cut into a chunk for each rank, the chunks for one rank are put next to each other with padding,
-- and one collective reduces all of them. The collective is the driver's: what it leaves in the output
-- for the flat buffer, or its exception, is an argument, and so are the contents of `torch.empty` for
-- the padding, by rank and tensor. A tensor is the list of its elements.
pub mod Layout
pub mod Outputs
pub mod Reduced
pub mod Sums
mod Tests
use understanding_smartnic.Prelude.{
  ℕ, zero, suc, ◌+◌, ◌-◌, ◌*◌, ◌/◌, ◌%◌, List, [], ◌∷◌, ◌++◌, map, Option, none, some, Bool, true,
  false, ◌&&◌, leb, ◌==◌, if◌then◌else◌, length, take, drop, Result, ok, err, ◌>>=◌, ◌>>◌, guard,
  runtime_error, assertion_error,
}
use understanding_smartnic.Tensor.{narrow, empty}

-- The check of an output buffer with so many elements.
unfoldable pub check_output : Option ℕ → ℕ → Result (Unit {0})
check_output none chunk_numel = ok tt
check_output (some numel) chunk_numel = guard (leb chunk_numel numel) assertion_error

module _ {ℓ} {A : Type ℓ} where
  -- `math.ceil(tensor.numel() / world_sz)`
  unfoldable pub chunk_sz : ℕ → List A → ℕ
  chunk_sz world_sz tensor = (length tensor + (world_sz - 1)) / world_sz

  -- `flattened_tensor[rank*chunk_sz : (rank+1)*chunk_sz]`, cut at the tensor's end
  abbrev pub chunk : ℕ → ℕ → List A → List A
  chunk world_sz rank tensor =
      take (chunk_sz world_sz tensor) (drop (rank * chunk_sz world_sz tensor) tensor)

  -- A chunk with its padding.
  abbrev pub padded : ℕ → ℕ → (ℕ → A) → List A → List A
  padded world_sz rank memory tensor =
      chunk world_sz rank tensor
      ++ empty memory (chunk_sz world_sz tensor - length (chunk world_sz rank tensor))

  -- The chunks of all tensors for one rank, from tensor `idx` on.
  unfoldable pub row : ℕ → ℕ → (ℕ → ℕ → A) → ℕ → List (List A) → List A
  row world_sz rank memory idx [] = []
  row world_sz rank memory idx (t ∷ ts) =
      padded world_sz rank (memory idx) t ++ row world_sz rank memory (suc idx) ts

  -- The next `n` ranks' rows from `rank` on.
  unfoldable pub rows_from : ℕ → ℕ → ℕ → (ℕ → ℕ → ℕ → A) → List (List A) → List A
  unfolding row
  rows_from world_sz zero rank memory tensors = []
  rows_from world_sz (suc n) rank memory tensors =
      row world_sz rank (memory rank) 0 tensors ++ rows_from world_sz n (suc rank) memory tensors

  -- `tensor_partition_flat_buffer`; `torch.cat` refuses to join nothing.
  unfoldable pub flat_buffer : ℕ → (ℕ → ℕ → ℕ → A) → List (List A) → Result (List A)
  unfolding rows_from
  flat_buffer world_sz memory [] = err runtime_error
  flat_buffer world_sz memory (t ∷ []) =
      if length t % world_sz == 0 then ok t else ok (rows_from world_sz world_sz 0 memory (t ∷ []))
  flat_buffer world_sz memory (t ∷ u ∷ ts) = ok (rows_from world_sz world_sz 0 memory (t ∷ u ∷ ts))

  -- The outputs in the flat output, from `offset` on.
  unfoldable pub output_lst : ℕ → ℕ → List A → ℕ → List (List A) → Result (List (List A))
  output_lst world_sz this_rank output_flat offset [] = ok []
  output_lst world_sz this_rank output_flat offset (t ∷ ts) = do
    out ← narrow output_flat offset (length (chunk world_sz this_rank t))
    rest ← output_lst world_sz this_rank output_flat (offset + chunk_sz world_sz t) ts
    ok (out ∷ rest)

  -- `reduce_scatter_coalesced` and the `wait` of its result: the outputs. `div_` is the division of
  -- an element by `world_sz`.
  unfoldable pub reduce_scatter_coalesced :
      ℕ
      → ℕ
      → (ℕ → ℕ → ℕ → A)
      → (A → A)
      → Option ℕ
      → (List A → Result (List A))
      → List (List A)
      → Result (List (List A))
  unfolding flat_buffer check_output output_lst
  reduce_scatter_coalesced world_sz this_rank memory div_ output_buffer driver tensors = do
    buffer ← flat_buffer world_sz memory tensors
    check_output output_buffer (length buffer / world_sz)
    output_flat ← driver (map div_ buffer)
    output_lst world_sz this_rank output_flat 0 tensors
