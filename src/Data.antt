-- ===== src/Data.antt =====
-- src/common/dataset.py and src/common/text_dataset.py: the split of a labelled data set into training
-- and test, class by class, and the chunks of a stream of tokens. Labels are integers. Downloads,
-- tokenizers and loaders are third-party code; the shuffle of `random.Random` is an argument, by the
-- number of its call, and so is the number `int(len(idxs) * float(train_ratio))` for a ratio.
pub mod Split
pub mod Chunks
mod Tests
use understanding_smartnic.Prelude.{
  ℕ, zero, suc, ◌+◌, ◌-◌, ◌*◌, ◌/◌, min, ℤ, pos, negsuc, pos_part, ltb_ℤ, ◌+ℤ◌, ◌-ℤ◌, List, [], ◌∷◌,
  ◌++◌, map, Option, none, some, Bool, true, false, not, ◌==◌, ltb, if◌then◌else◌, length, get_or,
  set, take, drop, replicate, Result, ok, err, ◌>>=◌, ◌>>◌, guard, value_error, zero_division_error,
}

abbrev pub min_ℤ : ℤ → ℤ → ℤ
min_ℤ a b = if ltb_ℤ b a then b else a

abbrev pub max_ℤ : ℤ → ℤ → ℤ
max_ℤ a b = if ltb_ℤ a b then b else a

abbrev pub smallest : ℤ → List ℤ → ℤ
smallest y [] = y
smallest y (z ∷ zs) = min_ℤ y (smallest z zs)

abbrev pub largest : ℤ → List ℤ → ℤ
largest y [] = y
largest y (z ∷ zs) = max_ℤ y (largest z zs)

abbrev pub is_zero : ℤ → Bool
is_zero (pos n) = n == 0
is_zero (negsuc n) = false

-- `_normalize_labels_and_count_classes`: the labels from 0 on, and the number of classes
unfoldable pub normalize_labels_and_count_classes : List ℤ → Result (List ℤ × ℤ)
normalize_labels_and_count_classes [] = err value_error
normalize_labels_and_count_classes (y ∷ ys) =
    let y_min = smallest y ys in
    if not (is_zero y_min)
    then ok
        (map (λ z. z -ℤ y_min) (y ∷ ys), largest (y -ℤ y_min) (map (λ z. z -ℤ y_min) ys) +ℤ pos 1)
    else ok (y ∷ ys, largest y ys +ℤ pos 1)

-- `per_class_indices[y].append(idx)` if `0 <= y < num_classes`; the list has `num_classes` entries.
unfoldable pub append_index : ℤ → ℕ → ℤ → List (List ℕ) → List (List ℕ)
append_index num_classes idx (negsuc n) per_class_indices = per_class_indices
append_index num_classes idx (pos y) per_class_indices =
    if ltb_ℤ (pos y) num_classes
    then set per_class_indices y (get_or per_class_indices y [] ++ idx ∷ [])
    else per_class_indices

-- The loop that collects the indices of each class, from index `idx` on.
unfoldable pub collect : ℤ → ℕ → List ℤ → List (List ℕ) → List (List ℕ)
unfolding append_index
collect num_classes idx [] per_class_indices = per_class_indices
collect num_classes idx (y ∷ ys) per_class_indices =
    collect num_classes (suc idx) ys (append_index num_classes idx y per_class_indices)

-- How many indices of a class of `n` are for training.
unfoldable pub train_count : Option ℕ → Option (ℕ → ℕ) → ℕ → ℕ
train_count (some train_per_class) train_ratio n = min train_per_class n
train_count none (some ratio) n = ratio n
train_count none none n = min 60 n

-- The loop over the classes, from the shuffle `call` on.
unfoldable pub divide : (ℕ → List ℕ → List ℕ) → (ℕ → ℕ) → ℕ → List (List ℕ) → List ℕ × List ℕ
divide shuffle count call [] = ([], [])
divide shuffle count call (idxs ∷ rest) =
    let shuffled = shuffle call idxs in
    let k = count (length shuffled) in
    let (train_idx, test_idx) = divide shuffle count (suc call) rest in
    (take k shuffled ++ train_idx, drop k shuffled ++ test_idx)

-- `_split_by_class_indices`; `range` of a negative number is empty
unfoldable pub split_by_class_indices :
    (ℕ → List ℕ → List ℕ) → Option ℕ → Option (ℕ → ℕ) → List ℤ → ℤ → List ℕ × List ℕ
unfolding collect train_count divide
split_by_class_indices shuffle train_per_class train_ratio labels num_classes =
    divide shuffle (train_count train_per_class train_ratio) 0
      (collect num_classes 0 labels (replicate (pos_part num_classes) []))

module _ {ℓ} {A : Type ℓ} where
  -- `t.view(n, seq_len)`, the rows of a tensor with `n * seq_len` elements
  unfoldable pub view : ℕ → ℕ → List A → List (List A)
  view zero seq_len t = []
  view (suc n) seq_len t = take seq_len t ∷ view n seq_len (drop seq_len t)

  -- `CausalLMDataset.__init__`: the chunks
  unfoldable pub causal_lm_chunks : List A → ℕ → Result (List (List A))
  unfolding view
  causal_lm_chunks token_ids seq_len = do
    guard (not (seq_len == 0)) zero_division_error
    let n = length token_ids / seq_len
    ok (view n seq_len (take (n * seq_len) token_ids))
