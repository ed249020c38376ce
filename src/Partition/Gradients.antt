-- ===== src/Partition/Gradients.antt =====
-- The gradients in `Init`: `_reduce_scatter_gradients` and `_partition_gradients`. A tensor is the
-- list of its elements, `z` is the element of `torch.zeros`, and `plus` is the addition of `add_`. The
-- reduce-scatter is `torch.distributed`'s: what it leaves in this rank's output for the inputs, or its
-- exception, is an argument, by parameter.
use understanding_smartnic.Prelude.{
  ℕ, zero, suc, ◌+◌, ◌-◌, ◌*◌, min, List, [], ◌∷◌, Option, none, some, Bool, ◌&&◌, not, ltb, leb,
  ◌==◌, if◌then◌else◌, length, replicate, Result, ok, ◌>>=◌, ◌>>◌, guard, assertion_error,
}
use understanding_smartnic.Tensor.{narrow, write_at}
use understanding_smartnic.Coalesced.Sums.{zip_with}

-- What the code reads of a parameter: its length, its shard's length and its gradient.
pub record GradParam {ℓ} (A : Type ℓ) : Type ℓ where
  pub ds_numel : ℕ
  pub partition_size : ℕ
  pub grad : List A

module _ {ℓ} {A : Type ℓ} (z : A) where
  -- The input for rank `i` of `_reduce_scatter_gradient`, with zeros behind the gradient's end.
  unfoldable pub input_for : GradParam A → ℕ → Result (List A)
  input_for p i =
      let start = i * p.partition_size in
      let stop = start + p.partition_size in
      let padding = replicate p.partition_size z in
      if ltb start p.ds_numel && leb stop p.ds_numel
      then narrow p.grad start p.partition_size
      else if ltb start p.ds_numel
      then (do src ← narrow p.grad start (p.ds_numel - start); write_at padding 0 src)
      else ok padding

  -- The inputs for the next `n` ranks from `i` on.
  unfoldable pub input_list : GradParam A → ℕ → ℕ → Result (List (List A))
  unfolding input_for
  input_list p i zero = ok []
  input_list p i (suc n) = do
    input ← input_for p i
    inputs ← input_list p (i + 1) n
    ok (input ∷ inputs)

module _ {ℓ} {A : Type ℓ} where
  -- What the reduce-scatter has left when its handle was waited for: its output is the input for this
  -- rank, which is a part of the gradient itself unless it was padded.
  unfoldable pub reduced_in_place : ℕ → GradParam A → List A → Result (GradParam A)
  reduced_in_place rank p reduced =
      let start = rank * p.partition_size in
      let stop = start + p.partition_size in
      if ltb start p.ds_numel && leb stop p.ds_numel
      then (do grad ← write_at p.grad start reduced; ok (record p { grad = grad }))
      else ok p

  -- The second loop of `_reduce_scatter_gradients`, for one parameter.
  unfoldable pub copy_reduced : ℕ → GradParam A → List A → Result (GradParam A)
  copy_reduced rank p reduced =
      let start = rank * p.partition_size in
      let stop = start + p.partition_size in
      if ltb start p.ds_numel && ltb p.ds_numel stop
      then (do
        src ← narrow reduced 0 (p.ds_numel - start)
        grad ← write_at p.grad start src
        ok (record p { grad = grad }))
      else ok p

  -- The gradient once the handle was waited for and the loop has passed.
  unfoldable pub finish : ℕ → GradParam A → List A → Result (GradParam A)
  unfolding reduced_in_place copy_reduced
  finish rank p reduced = do q ← reduced_in_place rank p reduced; copy_reduced rank q reduced

  -- The first loop: the reduced part of each parameter, from parameter `idx` on.
  unfoldable pub launch_all :
      A
      → ℕ
      → (ℕ → List (List A) → Result (List A))
      → ℕ
      → List (GradParam A)
      → Result (List (List A))
  unfolding input_list
  launch_all z world_size reduce idx [] = ok []
  launch_all z world_size reduce idx (p ∷ ps) = do
    guard (length p.grad == p.ds_numel) assertion_error
    inputs ← input_list z p 0 world_size
    reduced ← reduce idx inputs
    rest ← launch_all z world_size reduce (suc idx) ps
    ok (reduced ∷ rest)

  unfoldable pub finish_all : ℕ → List (GradParam A) → List (List A) → Result (List (GradParam A))
  unfolding finish
  finish_all rank (p ∷ ps) (reduced ∷ rest) = do
    r ← finish rank p reduced
    rs ← finish_all rank ps rest
    ok (r ∷ rs)
  finish_all rank _ _ = ok []

  -- `_reduce_scatter_gradients`
  unfoldable pub reduce_scatter_gradients :
      A
      → ℕ
      → ℕ
      → (ℕ → List (List A) → Result (List A))
      → List (GradParam A)
      → Result (List (GradParam A))
  unfolding launch_all finish_all
  reduce_scatter_gradients z world_size rank reduce ps = do
    reduced ← launch_all z world_size reduce 0 ps
    finish_all rank ps reduced

  -- The source copied over the buffer's first elements, or added to them.
  unfoldable pub put_source : (A → A → A) → Bool → Bool → List A → List A → ℕ → Result (List A)
  put_source plus same_device accumulate buffer src elements =
      if not accumulate
      then write_at buffer 0 src
      else if same_device
      then (do dest ← narrow buffer 0 elements; write_at buffer 0 (zip_with plus dest src))
      else ok buffer

  -- `_partition_gradient`; `same_device` tells whether the gradient and the buffer are on one device.
  unfoldable pub partition_gradient :
      A → (A → A → A) → ℕ → Bool → Bool → GradParam A → Option (List A) → Result (GradParam A)
  unfolding put_source
  partition_gradient z plus rank same_device accumulate p partition_buffer =
      let start = p.partition_size * rank in
      let elements = min (p.ds_numel - start) p.partition_size in
      let buffer : List A = elim partition_buffer [
        | none ↦ replicate p.partition_size z
        | some b ↦ b
      ] in
      narrow buffer 0 p.partition_size >>= λ dest_tensor_full_buffer.
      if ltb start p.ds_numel
      then (do
        src ← narrow p.grad start elements
        after ← put_source plus same_device accumulate dest_tensor_full_buffer src elements
        ok (record p { grad = after }))
      else ok (record p { grad = dest_tensor_full_buffer })

  -- `_partition_gradients`: a parameter without a buffer of its own in the list is not reached.
  unfoldable pub partition_gradients :
      A
      → (A → A → A)
      → ℕ
      → Bool
      → Bool
      → List (GradParam A)
      → List (Option (List A))
      → Result (List (GradParam A))
  unfolding partition_gradient
  partition_gradients z plus rank same_device accumulate (p ∷ ps) (buffer ∷ buffers) = do
    q ← partition_gradient z plus rank same_device accumulate p buffer
    qs ← partition_gradients z plus rank same_device accumulate ps buffers
    ok (q ∷ qs)
  partition_gradients z plus rank same_device accumulate ps _ = ok ps
