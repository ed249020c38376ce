-- ===== src/Partition/Tests.antt =====
-- The partitioning at concrete parameters.
use understanding_smartnic.Prelude.{
  ℕ, ◌+◌, ◌≡◌, refl, List, [], ◌∷◌, none, some, true, false, inl, Result, ok, err, ◌>>=◌,
  unbound_local_error, arith,
}
use understanding_smartnic.Tensor.{concat}
use understanding_smartnic.Partition.{
  ZeroParam, available, partition_param, gather_one, gather_params, partition, aligned_size,
  padding_size, copy_part, free_param, is_empty,
}
use understanding_smartnic.Partition.Shard.{partition_param-unbound}
use understanding_smartnic.Partition.RoundTrip.{all_sent, gather_one-all_sent}
use understanding_smartnic.Partition.Cut.{
  AreFresh, all_cut, rows_of, params_sizes, gather_params-all_cut,
}
use understanding_smartnic.Partition.Gather.{allgather_params}
use understanding_smartnic.Partition.Slots.{allgather_params-all_cut}
use understanding_smartnic.Partition.Gradients.{
  GradParam, reduce_scatter_gradients, partition_gradients,
}
use understanding_smartnic.Partition.Owned.{
  no_buffers, reduce_scatter_gradients-partition_gradients,
}

-- A parameter of five elements, shared by two ranks.
abbrev five : List ℕ
five = 10 ∷ 11 ∷ 12 ∷ 13 ∷ 14 ∷ []

abbrev whole : ZeroParam ℕ
whole = record {
  ds_status = available;
  ds_numel = 5;
  ds_tensor = none;
  contents = five;
  ds_active_sub_modules = [];
}

abbrev sharded : ZeroParam ℕ
sharded = record whole { ds_tensor = some (10 ∷ 11 ∷ 12 ∷ []) }

resharded_raises : partition_param 2 0 (λ i. i) true sharded ≡ err unbound_local_error
resharded_raises =
    partition_param-unbound 2 0 (λ i. i) true sharded (10 ∷ 11 ∷ 12 ∷ []) refl (inl refl)

gather_one-all_sent_example :
    (all_sent 2 (λ r i. r) false whole 0 2 >>= λ ts. gather_one (concat ts) 5) ≡ ok five
gather_one-all_sent_example =
    gather_one-all_sent 2 (λ r i. r) false whole (omega arith) refl refl refl

-- Two parameters, shared by two ranks.
abbrev three : ZeroParam ℕ
three = record whole { ds_numel = 3; contents = 1 ∷ 2 ∷ 3 ∷ [] }

abbrev both : List (ZeroParam ℕ)
both = whole ∷ three ∷ []

both-AreFresh : AreFresh both
both-AreFresh = (refl, refl, refl, (refl, refl, refl, tt))

gather_params-all_cut_example :
    (all_cut 2 (λ r i. 90 + i) false both 0 2 >>= λ rows.
    gather_params 0 (rows_of rows) (params_sizes 2 both))
    ≡ ok (five ∷ (1 ∷ 2 ∷ 3 ∷ []) ∷ [])
gather_params-all_cut_example =
    gather_params-all_cut 2 (λ r i. 90 + i) false both (omega arith) both-AreFresh
      (omega arith, (omega arith, tt))

-- The shards of both ranks, the second one's with what its buffer held.
abbrev cut_rows : List (List (List ℕ))
cut_rows =
    ((10 ∷ 11 ∷ 12 ∷ []) ∷ (1 ∷ 2 ∷ []) ∷ []) ∷ ((13 ∷ 14 ∷ 92 ∷ []) ∷ (3 ∷ 91 ∷ []) ∷ []) ∷ []

abbrev transport : List ℕ → Result (List ℕ)
transport xs = ok (10 ∷ 11 ∷ 12 ∷ 1 ∷ 2 ∷ 13 ∷ 14 ∷ 92 ∷ 3 ∷ 91 ∷ [])

allgather_params-all_cut_example :
    allgather_params 2 1
      (λ i. 0)
      (λ k i. 0)
      transport
      (params_sizes 2 both)
      ((13 ∷ 14 ∷ 92 ∷ []) ∷ (3 ∷ 91 ∷ []) ∷ [])
    ≡ ok (five ∷ (1 ∷ 2 ∷ 3 ∷ []) ∷ [])
unfolding concat partition partition_param copy_part free_param aligned_size padding_size is_empty
allgather_params-all_cut_example =
    allgather_params-all_cut 2 1 (λ i. 0) (λ k i. 0) (λ r i. 90 + i) transport false both cut_rows
      ((13 ∷ 14 ∷ 92 ∷ []) ∷ (3 ∷ 91 ∷ []) ∷ []) both-AreFresh refl refl refl

-- The gradients of two ranks for a parameter of three elements; rank 1 has the short part.
abbrev grads : List (GradParam ℕ)
grads = record { ds_numel = 3; partition_size = 2; grad = 4 ∷ 5 ∷ 6 ∷ [] } ∷ []

abbrev rank_grads : List (List ℕ × List (List ℕ))
rank_grads = (1 ∷ 2 ∷ 3 ∷ [], (4 ∷ 5 ∷ 6 ∷ []) ∷ []) ∷ []

abbrev adding : ℕ → List (List ℕ) → Result (List ℕ)
adding idx inputs = ok (9 ∷ 0 ∷ [])

reduce_scatter_gradients-partition_gradients_example :
    (reduce_scatter_gradients 0 2 1 adding grads >>= λ qs.
    partition_gradients 0 (λ x y. x + y) 1 true false qs (no_buffers grads))
    ≡ ok (record { ds_numel = 3; partition_size = 2; grad = 9 ∷ 0 ∷ [] } ∷ [])
reduce_scatter_gradients-partition_gradients_example =
    reduce_scatter_gradients-partition_gradients 0 (λ x y. x + y) (λ x y. x + y) 2 1 adding true
      grads rank_grads (refl, refl, (refl, tt), refl, tt)
