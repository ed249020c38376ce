-- ===== src/Bucket/Tests.antt =====
-- A rank with a bucket of five elements; gradients are numbers.
use understanding_smartnic.Prelude.{
  ℕ, ◌+◌, ◌*◌, ◌≡◌, refl, List, [], ◌∷◌, none, true, false, ok, arith,
}
use understanding_smartnic.Bucket.{Member, Reducer, Setting, hooks, backward}
use understanding_smartnic.Bucket.Conserve.{times, count, IsBounded}
use understanding_smartnic.Bucket.Pass.{hooks-IsBounded, backward-released}
use understanding_smartnic.Bucket.Stale.{idle, backward-last}
use understanding_smartnic.Bucket.Output.{
  places, own_places, output_buf, output_buf-own, total_numel,
}

abbrev member : ℕ → ℕ → Member ℕ
member id numel = record {
  ds_id = id;
  ds_numel = numel;
  partition_numel = numel;
  grad_numel = numel;
  grad = 10 * id;
}

abbrev setting : Setting ℕ ℕ
setting = record {
  rank = 0;
  reduce_bucket_size = 5;
  contiguous_gradients = true;
  reduce = λ g. g + 1;
  writes_in_place = λ ps. false;
  add_ = λ x y. x + y;
}

abbrev reducer : Reducer ℕ ℕ
reducer = record {
  params_in_ipg_bucket = [];
  param_reduce_events = 0;
  pending_rs = none;
  params_already_reduced = λ i. false;
  micro_step_id = 0;
  is_gradient_accumulation_boundary = true;
  grad_partitions = λ i. 7;
  fp32_grads = λ i. 0;
  released = [];
}

abbrev members : List (Member ℕ)
members = member 2 4 ∷ member 1 3 ∷ member 0 9 ∷ []

hooks-IsBounded_example :
    (t : Reducer ℕ ℕ) × (hooks setting (λ i. 1) members reducer ≡ ok t)
    × IsBounded 5 t.params_in_ipg_bucket
hooks-IsBounded_example =
    hooks-IsBounded setting (λ i. 1) members reducer (omega arith) refl refl (λ i. refl)
      (refl, omega arith, (refl, omega arith, (refl, omega arith, tt)))

backward-released_example :
    (t : Reducer ℕ ℕ) × (backward setting (λ i. 1) members reducer ≡ ok t)
    × (t.params_in_ipg_bucket ≡ [])
    × (t.pending_rs ≡ none)
    × ((k : ℕ) → times k t.released ≡ times k [] + count k members)
backward-released_example =
    backward-released setting (λ i. 1) members reducer (omega arith) refl refl (λ i. refl)
      (refl, omega arith, (refl, omega arith, (refl, omega arith, tt)))

-- The partition held 7 before; the pass's gradient is 31.
backward-last_example :
    (t : Reducer ℕ ℕ) × (backward setting (λ i. 1) (member 3 2 ∷ []) (idle reducer) ≡ ok t)
    × (t.grad_partitions 3 ≡ 38)
backward-last_example =
    backward-last setting (λ i. 1) (member 3 2) reducer (omega arith) refl (omega arith)

output_buf-own_example :
    (places 6 (member 1 3 ∷ member 2 4 ∷ [])
      ≡ own_places (λ i. 3 + 3 * i) (member 1 3 ∷ member 2 4 ∷ []))
    × (7 ≡ total_numel (member 1 3 ∷ member 2 4 ∷ []))
unfolding output_buf
output_buf-own_example =
    output_buf-own false (λ i. 3 + 3 * i) (member 1 3 ∷ member 2 4 ∷ []) 6 7 (omega arith, tt) refl
