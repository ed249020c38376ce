-- ===== src/Partition/Cut.antt =====
-- Every rank cuts several parameters with `_partition`, and what it sends of them fills its slot.
use understanding_smartnic.Prelude.{
  ℕ, zero, suc, ◌+◌, ◌<◌, ◌≡◌, refl, sym, ◌∙◌, ap, List, [], ◌∷◌, ◌++◌, map, length, none, some,
  Bool, Result, ok, ◌>>=◌,
}
use understanding_smartnic.Tensor.{concat}
use understanding_smartnic.Partition.{ZeroParam, not_available, partition, gather_params}
use understanding_smartnic.Partition.Sizes.{shard_size}
use understanding_smartnic.Partition.Shard.{shard_of, partition_param-cut}
use understanding_smartnic.Partition.RoundTrip.{sent}
use understanding_smartnic.Partition.Gathered.{ranks_from, sizes, row, AreFilled, gather_params-row}

module _ {ℓ} {A : Type ℓ} where
  -- Parameters that have no shard yet, are all there and are in no active submodule.
  abbrev pub AreFresh : List (ZeroParam A) → Type ℓ
  AreFresh [] = Unit {ℓ}
  AreFresh (p ∷ ps) =
      (p.ds_tensor ≡ none)
      × (length p.contents ≡ p.ds_numel)
      × (p.ds_active_sub_modules ≡ [])
      × AreFresh ps

  -- The shards of partitioned parameters.
  abbrev pub sent_all : List (ZeroParam A) → Result (List (List A))
  sent_all [] = ok []
  sent_all (q ∷ qs) = sent q >>= λ t. sent_all qs >>= λ ts. ok (t ∷ ts)

  -- The shards that the ranks from `rank` on keep when they partition the parameters.
  abbrev pub all_cut :
      ℕ → (ℕ → ℕ → A) → Bool → List (ZeroParam A) → ℕ → ℕ → Result (List (List (List A)))
  all_cut w memory updated ps rank zero = ok []
  all_cut w memory updated ps rank (suc n) = partition w rank (memory rank) updated ps >>= λ qs.
      sent_all qs >>= λ ts. all_cut w memory updated ps (rank + 1) n >>= λ rest. ok (ts ∷ rest)

  abbrev pub cut_of : ℕ → (ℕ → ℕ → A) → List (List A) → ℕ → List (List A)
  cut_of w memory [] r = []
  cut_of w memory (xs ∷ xss) r =
      shard_of (shard_size w (length xs)) r (memory r) xs ∷ cut_of w memory xss r

  -- One item for each of the `n` ranks from `rank` on.
  abbrev pub lists_from : (ℕ → List (List A)) → ℕ → ℕ → List (List (List A))
  lists_from f rank zero = []
  lists_from f rank (suc n) = f rank ∷ lists_from f (rank + 1) n

  partition-cut :
      (w rank : ℕ) (memory : ℕ → ℕ → A) (updated : Bool) (ps : List (ZeroParam A))
      → AreFresh ps
      → (qs : List (ZeroParam A)) × (partition w rank (memory rank) updated ps ≡ ok qs)
        × (sent_all qs ≡ ok (cut_of w memory (map (λ p. p.contents) ps) rank))
  unfolding partition
  partition-cut w rank memory updated [] f = ([], refl, refl)
  partition-cut w rank memory updated (p ∷ ps) (fresh, full, idle, f) =
      let (qs, called, kept) = partition-cut w rank memory updated ps f in
      let shard : List A = shard_of (shard_size w p.ds_numel) rank (memory rank) p.contents in
      let q : ZeroParam A = record p {
        ds_status = not_available;
        ds_tensor = some shard;
        contents = [];
      } in
      let cut = partition_param-cut w rank (memory rank) updated p fresh full idle in
      (q ∷ qs, rw (cut, called) refl, rw (kept, full) refl)

  pub all_cut_lem :
      (w : ℕ) (memory : ℕ → ℕ → A) (updated : Bool) (ps : List (ZeroParam A)) (rank n : ℕ)
      → AreFresh ps
      → all_cut w memory updated ps rank n
        ≡ ok (lists_from (cut_of w memory (map (λ p. p.contents) ps)) rank n)
  all_cut_lem w memory updated ps rank zero f = refl
  all_cut_lem w memory updated ps rank (suc n) f =
      let (qs, called, kept) = partition-cut w rank memory updated ps f in
      rw (called, kept, all_cut_lem w memory updated ps (rank + 1) n f) refl

  -- What the ranks send of the parameters: each its shards, one behind the other.
  abbrev pub rows_of : List (List (List A)) → List (List A)
  rows_of [] = []
  rows_of (shards ∷ rest) = concat shards ∷ rows_of rest

  -- The lengths of the parameters and of their shards.
  abbrev pub params_sizes : ℕ → List (ZeroParam A) → List (ℕ × ℕ)
  params_sizes w [] = []
  params_sizes w (p ∷ ps) = (p.ds_numel, shard_size w p.ds_numel) ∷ params_sizes w ps

  pub concat-cut_of :
      (w : ℕ) (memory : ℕ → ℕ → A) (xss : List (List A)) (r : ℕ)
      → concat (cut_of w memory xss r) ≡ row w memory xss r
  unfolding concat
  concat-cut_of w memory [] r = refl
  concat-cut_of w memory (xs ∷ xss) r =
      ap (λ ys. shard_of (shard_size w (length xs)) r (memory r) xs ++ ys)
        (concat-cut_of w memory xss r)

  pub rows_of-cut_of :
      (w : ℕ) (memory : ℕ → ℕ → A) (xss : List (List A)) (rank n : ℕ)
      → rows_of (lists_from (cut_of w memory xss) rank n)
        ≡ ranks_from (λ r. [] ++ row w memory xss r) rank n
  rows_of-cut_of w memory xss rank zero = refl
  rows_of-cut_of w memory xss rank (suc n) =
      ap (λ ys. ys ∷ rows_of (lists_from (cut_of w memory xss) (rank + 1) n))
        (concat-cut_of w memory xss rank)
      ∙ ap (◌∷◌ (row w memory xss rank)) (rows_of-cut_of w memory xss (rank + 1) n)

  pub params_sizes-sizes :
      (w : ℕ) (ps : List (ZeroParam A))
      → AreFresh ps
      → params_sizes w ps ≡ sizes w (map (λ p. p.contents) ps)
  params_sizes-sizes w [] f = refl
  params_sizes-sizes w (p ∷ ps) (fresh, full, idle, f) =
      rw (sym full, params_sizes-sizes w ps f) refl

  -- Partitioning several parameters loses nothing: when every rank of a positive world size
  -- partitions parameters that have no shard yet, are all there, are in no active submodule and have
  -- at least one element each, and sends their shards one behind the other, the wait for the
  -- coalesced gather finds the parts of each parameter in the ranks' slots and restores every
  -- parameter's contents, whatever the ranks' buffers held.
  pub gather_params-all_cut :
      (w : ℕ) (memory : ℕ → ℕ → A) (updated : Bool) (ps : List (ZeroParam A))
      → 0 < w
      → AreFresh ps
      → AreFilled (map (λ p. p.contents) ps)
      → (all_cut w memory updated ps 0 w >>= λ rows.
          gather_params 0 (rows_of rows) (params_sizes w ps))
        ≡ ok (map (λ p. p.contents) ps)
  gather_params-all_cut w memory updated ps h f filled =
      let xss = map (λ p. p.contents) ps in
      ap (λ r. r >>= λ rows. gather_params 0 (rows_of rows) (params_sizes w ps))
        (all_cut_lem w memory updated ps 0 w f)
      ∙ ap (λ s. gather_params 0 (rows_of (lists_from (cut_of w memory xss) 0 w)) s)
          (params_sizes-sizes w ps f)
      ∙ ap (λ s. gather_params 0 s (sizes w xss)) (rows_of-cut_of w memory xss 0 w)
      ∙ gather_params-row w 0 memory xss (λ r. []) h (λ r. refl) filled
