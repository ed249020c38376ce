-- ===== src/Bucket.antt =====
-- src/smartnic_offload/zero_optimizer.py, the gradients of `ZeroOptimizer3` on one rank: the hook of a
-- parameter puts its gradient into the IPG bucket, a full bucket is reduced and scattered, and the
-- result of a reduce-scatter is taken when the next one is submitted, or by `_flush_pending_rs`.
-- `Full` is a parameter's gradient and `Part` this rank's part of a reduced one. The collective is
-- the driver's: what it makes of a gradient, and whether it puts the result of a bucket into the
-- parameters' own partitions, are arguments. A partition is found by `ds_id`.
pub mod Output
pub mod Conserve
pub mod Enter
pub mod Pass
pub mod Taken
pub mod Stale
mod Tests
use understanding_smartnic.Prelude.{
  ℕ, zero, suc, ◌+◌, ◌-◌, ◌*◌, List, [], ◌∷◌, ◌++◌, map, Option, none, some, Bool, true, false, not,
  ◌&&◌, ◌||◌, if◌then◌else◌, leb, ltb, ◌==◌, Result, ok, err, ◌>>=◌, ◌>>◌, guard, runtime_error,
  assertion_error, zero_division_error,
}

-- A parameter whose gradient is computed.
pub record Member (Full : Type 0) : Type 0 where
  pub ds_id : ℕ
  pub ds_numel : ℕ
  pub partition_numel : ℕ
  pub grad_numel : ℕ
  pub grad : Full

-- `_DeferredRsResult` with the parameters of its bucket; `in_place` is `same_buffer` of them.
pub record Deferred (Full Part : Type 0) : Type 0 where
  pub output_lst : List Part
  pub in_place : Bool
  pub params : List (Member Full)

-- The fields; `released` are the parameters whose `grad` was set to None, and `fp32_grads` the
-- gradient buffer that backward writes.
pub record Reducer (Full Part : Type 0) : Type 0 where
  pub params_in_ipg_bucket : List (Member Full)
  pub param_reduce_events : ℕ
  pub pending_rs : Option (Deferred Full Part)
  pub params_already_reduced : ℕ → Bool
  pub micro_step_id : ℕ
  pub is_gradient_accumulation_boundary : Bool
  pub grad_partitions : ℕ → Part
  pub fp32_grads : ℕ → Part
  pub released : List ℕ

-- What a rank is configured with, and the driver.
pub record Setting (Full Part : Type 0) : Type 0 where
  pub rank : ℕ
  pub reduce_bucket_size : ℕ
  pub contiguous_gradients : Bool
  pub reduce : Full → Part
  pub writes_in_place : List (Member Full) → Bool
  pub add_ : Part → Part → Part

-- A dictionary after `d[k] = v`.
abbrev pub put : {V : Type 0} → ℕ → V → (ℕ → V) → ℕ → V
put k v d j = if j == k then v else d j

-- The events at the head of the queue that are over, `finished` of them, leave it, and one more is
-- waited for if more than two are left.
pub sweep_events : ℕ → ℕ → ℕ
sweep_events finished events = let left = events - finished in if ltb 2 left then left - 1 else left

module _ {Full : Type 0} where
  -- `elements_in_ipg_bucket`
  pub elements : List (Member Full) → ℕ
  elements [] = 0
  elements (p ∷ ps) = p.ds_numel + elements ps

  -- `self.__params_in_ipg_bucket.sort(key=lambda p: p.ds_id)`
  pub insert : Member Full → List (Member Full) → List (Member Full)
  insert p [] = p ∷ []
  insert p (q ∷ qs) = let rest = insert p qs in if leb p.ds_id q.ds_id then p ∷ q ∷ qs else q ∷ rest

  pub sort : List (Member Full) → List (Member Full)
  unfolding insert
  sort [] = []
  sort (p ∷ ps) = insert p (sort ps)

  -- The check of the gradients' sizes
  pub check_sizes : List (Member Full) → Result (Unit {0})
  check_sizes [] = ok tt
  check_sizes (p ∷ ps) = guard (p.grad_numel == p.ds_numel) runtime_error >> check_sizes ps

module _ {Full Part : Type 0} where
  -- What `__partition_grads` leaves in the partition of a parameter.
  pub kept_grad : Setting Full Part → Bool → ℕ → Part → Part → Part
  kept_grad c in_place micro_step_id old new =
      if in_place then new else if micro_step_id == 0 then new else c.add_ old new

  -- The body of the loop of `__partition_grads`
  pub partition_grad :
      Setting Full Part → Bool → Member Full → Part → Reducer Full Part → Reducer Full Part
  unfolding kept_grad
  partition_grad c in_place p part s =
      if ltb p.ds_numel (p.partition_numel * c.rank)
      then s
      else (let kept = kept_grad c in_place s.micro_step_id (s.grad_partitions p.ds_id) part in
          record s {
            grad_partitions = put p.ds_id kept s.grad_partitions;
            fp32_grads =
                if s.is_gradient_accumulation_boundary
                then put p.ds_id kept s.fp32_grads
                else s.fp32_grads;
            released = p.ds_id ∷ s.released;
          })

  -- `__partition_grads`
  pub partition_grads :
      Setting Full Part
      → Bool
      → List (Member Full)
      → List Part
      → Reducer Full Part
      → Reducer Full Part
  unfolding partition_grad
  partition_grads c in_place [] parts s = s
  partition_grads c in_place (p ∷ ps) [] s = s
  partition_grads c in_place (p ∷ ps) (g ∷ gs) s =
      partition_grads c in_place ps gs (partition_grad c in_place p g s)

  -- `_flush_pending_rs`
  pub flush_pending_rs : Setting Full Part → Reducer Full Part → Reducer Full Part
  unfolding partition_grads
  flush_pending_rs c s = elim (s.pending_rs) [
    | none ↦ s
    | some d ↦
        (let t = partition_grads c d.in_place d.params d.output_lst s in
          record t { param_reduce_events = suc t.param_reduce_events; pending_rs = none })
  ]

  -- `__avg_scatter_grads`: the submission of a reduce-scatter for the bucket. The gradients have one
  -- dtype, the model's; its conversions are part of `reduce`.
  pub avg_scatter_grads : Setting Full Part → List (Member Full) → Deferred Full Part
  avg_scatter_grads c ps = record {
    output_lst = map (λ p. c.reduce p.grad) ps;
    in_place = c.writes_in_place ps;
    params = ps;
  }

  -- `__reduce_and_partition_ipg_grads`
  pub reduce_and_partition_ipg_grads :
      Setting Full Part → ℕ → Reducer Full Part → Result (Reducer Full Part)
  unfolding check_sizes sort sweep_events flush_pending_rs avg_scatter_grads
  reduce_and_partition_ipg_grads c finished s = elim (s.params_in_ipg_bucket) [
    | [] ↦ ok s
    | p ∷ ps ↦
        check_sizes (p ∷ ps)
        >> (let swept = record s {
          param_reduce_events = sweep_events finished s.param_reduce_events;
        } in
            let settled = flush_pending_rs c swept in
            ok (record settled {
              params_in_ipg_bucket = [];
              pending_rs = some (avg_scatter_grads c (sort (p ∷ ps)));
            }))
  ]

  -- `report_ipg_memory_usage`, which divides by the size of the bucket
  pub report_ipg_memory_usage : Setting Full Part → Result (Unit {0})
  report_ipg_memory_usage c = guard (not (c.reduce_bucket_size == 0)) zero_division_error

  -- `__add_grad_to_ipg_bucket`: a gradient that fits is copied to a slice of the flat buffer.
  pub add_grad_to_ipg_bucket :
      Setting Full Part → Member Full → Reducer Full Part → Result (Reducer Full Part)
  unfolding elements
  add_grad_to_ipg_bucket c p s =
      let held = elements s.params_in_ipg_bucket in
      let fits = c.contiguous_gradients && ltb (held + p.grad_numel) c.reduce_bucket_size in
      guard (not fits || leb (held + p.grad_numel) c.reduce_bucket_size) runtime_error
      >> ok (record s { params_in_ipg_bucket = s.params_in_ipg_bucket ++ p ∷ [] })

  -- `reduce_independent_p_g_buckets_and_remove_grads`, the hook of a parameter
  pub reduce_ready_partitions_and_remove_grads :
      Setting Full Part → ℕ → Member Full → Reducer Full Part → Result (Reducer Full Part)
  unfolding elements reduce_and_partition_ipg_grads add_grad_to_ipg_bucket report_ipg_memory_usage
  reduce_ready_partitions_and_remove_grads c finished p s =
      let held = elements s.params_in_ipg_bucket in
      let full = ltb 0 held && ltb c.reduce_bucket_size (held + p.ds_numel) in
      (if full
        then report_ipg_memory_usage c >> reduce_and_partition_ipg_grads c finished s
        else ok s)
      >>= λ t.
          guard (not (t.params_already_reduced p.ds_id)) assertion_error
          >> add_grad_to_ipg_bucket c p t

  -- `independent_gradient_partition_epilogue`
  pub independent_gradient_partition_epilogue :
      Setting Full Part → ℕ → Reducer Full Part → Result (Reducer Full Part)
  unfolding reduce_and_partition_ipg_grads report_ipg_memory_usage
  independent_gradient_partition_epilogue c finished s =
      report_ipg_memory_usage c >> reduce_and_partition_ipg_grads c finished s >>= λ t.
      report_ipg_memory_usage c
      >> ok (record t { params_already_reduced = λ i. false; micro_step_id = suc t.micro_step_id })

  -- The hooks of a backward pass, in the order in which the gradients are computed.
  pub hooks :
      Setting Full Part
      → (ℕ → ℕ)
      → List (Member Full)
      → Reducer Full Part
      → Result (Reducer Full Part)
  unfolding reduce_ready_partitions_and_remove_grads
  hooks c finished [] s = ok s
  hooks c finished (p ∷ ps) s =
      reduce_ready_partitions_and_remove_grads c (finished p.ds_id) p s >>= hooks c finished ps

  -- A backward pass of the training loop: the hooks, the epilogue, and the flush of
  -- `_partition_all_parameters`.
  pub backward :
      Setting Full Part
      → (ℕ → ℕ)
      → List (Member Full)
      → Reducer Full Part
      → Result (Reducer Full Part)
  unfolding hooks independent_gradient_partition_epilogue flush_pending_rs
  backward c finished ps s = hooks c finished ps s >>= λ t.
      independent_gradient_partition_epilogue c (finished 0) t >>= λ u. ok (flush_pending_rs c u)

  -- `zero_grad` and `_pre_step`, which reset the count of micro steps
  pub pre_step : Reducer Full Part → Reducer Full Part
  pre_step s = record s { micro_step_id = 0 }
