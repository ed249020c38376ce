-- ===== src/Partition/RoundTrip.antt =====
-- Cutting a parameter into shards and gathering them is the identity.
use understanding_smartnic.Prelude.{
  ℕ, zero, suc, ◌+◌, ◌-◌, ◌*◌, ◌≤◌, ◌<◌, ◌≡◌, refl, sym, ◌∙◌, ap, List, [], ◌∷◌, ◌++◌, length, take,
  drop, length-append, length-drop, take-length, drop-length, take-append_le, take-append_ge,
  drop-drop, take-append-drop, Bool, none, some, Result, ok, err, ◌>>=◌, runtime_error, arith,
}
use native.Mathlib.Decide.{dec_le}
use understanding_smartnic.Tensor.{concat, narrow_lem}
use understanding_smartnic.Partition.{ZeroParam, gather_one, partition_param}
use understanding_smartnic.Partition.Sizes.{shard_size, aligned_size_lem}
use understanding_smartnic.Partition.Shard.{
  part, shard_of, length-shard_of, shard_of-full, part-last, partition_param-cut,
}

module _ {ℓ} {A : Type ℓ} where
  -- The all-gather: the shards of the `n` ranks from `rank` on, each with its own memory.
  abbrev shards_from : ℕ → (ℕ → ℕ → A) → List A → ℕ → ℕ → List (List A)
  shards_from c memory xs rank zero = []
  shards_from c memory xs rank (suc n) =
      shard_of c rank (memory rank) xs ∷ shards_from c memory xs (rank + 1) n

  length-shards :
      (c : ℕ) (memory : ℕ → ℕ → A) (xs : List A) (rank n : ℕ)
      → length (concat (shards_from c memory xs rank n)) ≡ n * c
  unfolding concat
  length-shards c memory xs rank zero = omega arith
  length-shards c memory xs rank (suc n) = omega (
    arith,
    length-append (shard_of c rank (memory rank) xs)
        (concat (shards_from c memory xs (rank + 1) n)),
    length-shard_of c rank (memory rank) xs,
    length-shards c memory xs (rank + 1) n,
  )

  take-part :
      (ys : List A) (n : ℕ) → length ys ≡ n → (p junk : List A) → p ≡ ys → take n (p ++ junk) ≡ ys
  take-part ys n size p junk e =
      ap (λ q. take n (q ++ junk)) e
      ∙ take-append_le n ys junk (omega arith)
      ∙ take-length ys n (omega arith)

  -- The shards of the ranks from `rank` on start with what is left of the parameter.
  take-shards :
      (c : ℕ) (memory : ℕ → ℕ → A) (xs : List A) (rank n : ℕ)
      → length xs ≤ c * rank + n * c
      → take (length xs - c * rank) (concat (shards_from c memory xs rank n)) ≡ drop (c * rank) xs
  unfolding concat
  take-shards c memory xs rank zero h =
      rw (drop-length xs (c * rank) (omega arith))
        (take-length {A = A} [] (length xs - c * rank) (omega arith))
  take-shards c memory xs rank (suc n) h =
      let rest = concat (shards_from c memory xs (rank + 1) n) in
      let size : length (shard_of c rank (memory rank) xs) ≡ c =
        length-shard_of c rank (memory rank) xs in
      let tail : length (drop (c * rank) xs) ≡ length xs - c * rank = length-drop (c * rank) xs in
      elim (dec_le (c * rank + c) (length xs)) [
        | yes k ↦
            let ih : take (length xs - c * (rank + 1)) rest ≡ drop (c * (rank + 1)) xs =
              take-shards c memory xs (rank + 1) n (omega arith) in
            let gone : length xs - c * rank - length (shard_of c rank (memory rank) xs)
                ≡ length xs - c * (rank + 1) =
              omega arith in
            let next : c * (rank + 1) ≡ c * rank + c = omega arith in
            take-append_ge (length xs - c * rank) (shard_of c rank (memory rank) xs) rest
              (omega arith)
            ∙ ap (λ k. shard_of c rank (memory rank) xs ++ take k rest) gone
            ∙ ap (λ ys. shard_of c rank (memory rank) xs ++ ys) ih
            ∙ ap (λ ys. ys ++ drop (c * (rank + 1)) xs) (shard_of-full c rank (memory rank) xs k)
            ∙ ap (λ k. part c rank xs ++ drop k xs) next
            ∙ ap (λ ys. part c rank xs ++ ys) (sym (drop-drop c (c * rank) xs))
            ∙ take-append-drop c (drop (c * rank) xs)
        | no k ↦
            take-append_le (length xs - c * rank) (shard_of c rank (memory rank) xs) rest
              (omega arith)
            ∙ take-part (drop (c * rank) xs) (length xs - c * rank) (omega arith) _ _
                (part-last c rank xs (omega arith))
      ]

  -- The shards, narrowed to the parameter's length.
  gather_one-shards :
      (w : ℕ) (memory : ℕ → ℕ → A) (xs : List A)
      → 0 < w
      → gather_one (concat (shards_from (shard_size w (length xs)) memory xs 0 w)) (length xs)
        ≡ ok xs
  unfolding gather_one
  gather_one-shards w memory xs h =
      let c = shard_size w (length xs) in
      let none : length xs - c * 0 ≡ length xs = omega arith in
      let start : c * 0 ≡ 0 = omega arith in
      narrow_lem (concat (shards_from c memory xs 0 w)) 0 (length xs)
        (omega (arith, length-shards c memory xs 0 w, aligned_size_lem w (length xs) h))
      ∙ ap ok (
          ap (λ k. take k (concat (shards_from c memory xs 0 w))) (sym none)
          ∙ take-shards c memory xs 0 w (omega (arith, aligned_size_lem w (length xs) h))
          ∙ ap (λ k. drop k xs) start)

  -- What a rank sends of a partitioned parameter.
  abbrev pub sent : ZeroParam A → Result (List A)
  sent q = elim q.ds_tensor [ none ↦ err runtime_error | some t ↦ ok t ]

  -- The ranks from `rank` on partition the parameter, each with its own memory, and send their
  -- shards.
  abbrev pub all_sent : ℕ → (ℕ → ℕ → A) → Bool → ZeroParam A → ℕ → ℕ → Result (List (List A))
  all_sent w memory updated p rank zero = ok []
  all_sent w memory updated p rank (suc n) = partition_param w rank (memory rank) updated p >>= λ q.
      sent q >>= λ t. all_sent w memory updated p (rank + 1) n >>= λ ts. ok (t ∷ ts)

  all_sent_lem :
      (w : ℕ) (memory : ℕ → ℕ → A) (updated : Bool) (p : ZeroParam A) (rank n : ℕ)
      → p.ds_tensor ≡ none
      → length p.contents ≡ p.ds_numel
      → p.ds_active_sub_modules ≡ []
      → all_sent w memory updated p rank n
        ≡ ok (shards_from (shard_size w p.ds_numel) memory p.contents rank n)
  all_sent_lem w memory updated p rank zero fresh full idle = refl
  all_sent_lem w memory updated p rank (suc n) fresh full idle =
      rw
        (
          partition_param-cut w rank (memory rank) updated p fresh full idle,
          all_sent_lem w memory updated p (rank + 1) n fresh full idle,
        )
        refl

  -- Partitioning loses nothing: when every rank of a positive world size partitions a parameter that
  -- has no shard yet, is all there and is in no active submodule, every rank succeeds, and the
  -- shards, gathered in the order of the ranks and narrowed to the parameter's length, are the
  -- parameter's contents, whatever the ranks' buffers held.
  pub gather_one-all_sent :
      (w : ℕ) (memory : ℕ → ℕ → A) (updated : Bool) (p : ZeroParam A)
      → 0 < w
      → p.ds_tensor ≡ none
      → length p.contents ≡ p.ds_numel
      → p.ds_active_sub_modules ≡ []
      → (all_sent w memory updated p 0 w >>= λ ts. gather_one (concat ts) p.ds_numel)
        ≡ ok p.contents
  gather_one-all_sent w memory updated p h fresh full idle =
      ap (λ r. r >>= λ ts. gather_one (concat ts) p.ds_numel)
        (all_sent_lem w memory updated p 0 w fresh full idle)
      ∙ ap (λ k. gather_one (concat (shards_from (shard_size w k) memory p.contents 0 w)) k)
          (sym full)
      ∙ gather_one-shards w memory p.contents h
