-- ===== src/Bucket/Stale.antt =====
-- Which step of a gradient's accumulation the last bucket of a pass is taken for.
use understanding_smartnic.Prelude.{
  Result, ℕ, suc, ◌+◌, ◌*◌, ◌≤◌, ◌<◌, ◌≡◌, ap, ◌∙◌, [], ◌∷◌, none, some, true, false, not, ◌&&◌,
  ◌||◌, if◌then◌else◌, leb, ltb, ◌==◌, ok, ◌>>=◌, ◌>>◌, guard, runtime_error, arith,
}
use understanding_smartnic.Bucket.{
  Member, Reducer, Setting, elements, kept_grad, partition_grad, partition_grads, insert, sort,
  check_sizes, avg_scatter_grads, flush_pending_rs, reduce_and_partition_ipg_grads,
  add_grad_to_ipg_bucket, reduce_ready_partitions_and_remove_grads,
  independent_gradient_partition_epilogue, hooks, backward, sweep_events,
}
use understanding_smartnic.Bucket.Pass.{reported}

module _ {Full Part : Type 0} where
  -- Before a pass: nothing in the bucket or pending, and the first micro step.
  abbrev pub idle : Reducer Full Part → Reducer Full Part
  idle s = record s {
    params_in_ipg_bucket = [];
    pending_rs = none;
    params_already_reduced = λ i. false;
    micro_step_id = 0;
  }

module _ {Full Part : Type 0} (c : Setting Full Part) where
  one_hook :
      (finished : ℕ → ℕ) (p : Member Full) (s : Reducer Full Part)
      → p.grad_numel ≡ p.ds_numel
      → hooks c finished (p ∷ []) (idle s) ≡ ok (record (idle s) { params_in_ipg_bucket = p ∷ [] })
  unfolding hooks reduce_ready_partitions_and_remove_grads elements add_grad_to_ipg_bucket
  one_hook finished p s e =
      let inside : (not (c.contiguous_gradients && ltb (0 + p.grad_numel) c.reduce_bucket_size)
            || leb (0 + p.grad_numel) c.reduce_bucket_size)
          ≡ true =
        ground arith in
      ap
        (λ b.
          guard b runtime_error >> ok (record (idle s) { params_in_ipg_bucket = p ∷ [] }) >>= λ t.
          ok t)
        inside

  one_reduce :
      (finished : ℕ) (p : Member Full) (s : Reducer Full Part)
      → p.grad_numel ≡ p.ds_numel
      → reduce_and_partition_ipg_grads c finished
          (record (idle s) { params_in_ipg_bucket = p ∷ [] })
        ≡ ok (record (idle s) {
          param_reduce_events = sweep_events finished s.param_reduce_events;
          pending_rs = some (avg_scatter_grads c (p ∷ []));
        })
  unfolding reduce_and_partition_ipg_grads check_sizes flush_pending_rs sort insert
  one_reduce finished p s e =
      let same : (p.grad_numel == p.ds_numel) ≡ true = ground arith in
      ap
        (λ b.
          guard b runtime_error
          >> ok tt
          >> ok (record (idle s) {
            param_reduce_events = sweep_events finished s.param_reduce_events;
            pending_rs = some (avg_scatter_grads c (p ∷ []));
          }))
        same

  -- The state that the flush finds.
  abbrev counted : (ℕ → ℕ) → Member Full → Reducer Full Part → Reducer Full Part
  counted finished p s = record (idle s) {
    param_reduce_events = sweep_events (finished 0) s.param_reduce_events;
    pending_rs = some (avg_scatter_grads c (p ∷ []));
    micro_step_id = 1;
  }

  taken :
      (finished : ℕ → ℕ) (p : Member Full) (s : Reducer Full Part)
      → p.partition_numel * c.rank ≤ p.ds_numel
      → (flush_pending_rs c (counted finished p s)).grad_partitions p.ds_id ≡ (
          if c.writes_in_place (p ∷ [])
          then c.reduce p.grad
          else c.add_ (s.grad_partitions p.ds_id) (c.reduce p.grad))
  unfolding flush_pending_rs avg_scatter_grads partition_grads partition_grad kept_grad
  taken finished p s h = ground arith

  -- Take a pass of one parameter, with a gradient of its size and a part on this rank, from an idle
  -- state, at micro step 0, with a positive bucket size. The flush comes after the
  -- epilogue, which has counted the micro step. So if the reduce-scatter does not write into the
  -- parameters' own partitions, the gradient is added to what the partition held before the pass, as
  -- for a later micro step; if it does, the partition holds this pass's gradient alone.
  pub backward-last :
      (finished : ℕ → ℕ) (p : Member Full) (s : Reducer Full Part)
      → 0 < c.reduce_bucket_size
      → p.grad_numel ≡ p.ds_numel
      → p.partition_numel * c.rank ≤ p.ds_numel
      → (t : Reducer Full Part) × (backward c finished (p ∷ []) (idle s) ≡ ok t)
        × (t.grad_partitions p.ds_id ≡ (
            if c.writes_in_place (p ∷ [])
            then c.reduce p.grad
            else c.add_ (s.grad_partitions p.ds_id) (c.reduce p.grad)))
  unfolding backward independent_gradient_partition_epilogue
  backward-last finished p s pos e h =
      let last = λ (x : Reducer Full Part). ok (flush_pending_rs c x) in
      let marked = λ (x : Reducer Full Part).
        ok
          (record x { params_already_reduced = λ i. false; micro_step_id = suc x.micro_step_id }) in
      let finish = λ (r : Result (Unit {0})) (x : Reducer Full Part).
        ((r >> reduce_and_partition_ipg_grads c (finished 0) x) >>= λ t. r >> marked t) >>= last in
      (
        _,
        ap (λ r. hooks c finished (p ∷ []) (idle s) >>= finish r) (reported c pos)
            ∙ ap (λ r. r >>= finish (ok tt)) (one_hook finished p s e)
            ∙ ap (λ r. (r >>= marked) >>= last) (one_reduce (finished 0) p s e),
        taken finished p s h,
      )
