-- ===== src/Data/Tests.antt =====
-- A stream of seven tokens, and five labels from -1 to 1.
use understanding_smartnic.Prelude.{
  ℕ, ℤ, pos, negsuc, ◌+◌, ◌*◌, ◌<◌, ◌≡◌, refl, List, [], ◌∷◌, some, none, ltb, if◌then◌else◌,
  length, take, ok, arith,
}
use understanding_smartnic.Tensor.{concat}
use understanding_smartnic.Data.{
  causal_lm_chunks, normalize_labels_and_count_classes, split_by_class_indices,
}
use understanding_smartnic.Data.Chunks.{AreChunks, causal_lm_chunks_lem}
use understanding_smartnic.Data.Split.{in_split, in_split-normalized}

abbrev tokens : List ℕ
tokens = 11 ∷ 12 ∷ 13 ∷ 14 ∷ 15 ∷ 16 ∷ 17 ∷ []

causal_lm_chunks_lem_example :
    (chunks : List (List ℕ)) × (causal_lm_chunks tokens 3 ≡ ok chunks)
    × AreChunks 3 chunks
    × (concat chunks ≡ take (length chunks * 3) tokens)
    × (7 < length chunks * 3 + 3)
causal_lm_chunks_lem_example = causal_lm_chunks_lem tokens 3 (omega arith)

in_split-normalized_example :
    (labels : List ℤ) × (num_classes : ℤ) × (normalize_labels_and_count_classes
        (pos 1 ∷ negsuc 0 ∷ pos 1 ∷ negsuc 0 ∷ pos 0 ∷ [])
      ≡ ok (labels, num_classes))
    × ((i : ℕ)
        → in_split i (split_by_class_indices (λ call js. js) (some 1) none labels num_classes)
          ≡ (if ltb i 5 then 1 else 0))
in_split-normalized_example =
    in_split-normalized (λ call js. js) (some 1) none (pos 1)
      (negsuc 0 ∷ pos 1 ∷ negsuc 0 ∷ pos 0 ∷ []) (λ call js i. refl)
