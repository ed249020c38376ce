-- ===== src/Partition/Slots.antt =====
-- The slots of `Init._allgather_params` and the gather into them: the parameters come back.
use understanding_smartnic.Prelude.{
  ℕ, zero, suc, ◌+◌, ◌*◌, ◌≤◌, ◌<◌, ◌≡◌, refl, sym, ◌∙◌, ap, List, [], ◌∷◌, map, length, take, drop,
  length-take, length-drop, length-append, get_elem?, some, Bool, Result, ok, ◌>>=◌, true, ◌==◌,
  arith,
}
use native.Mathlib.Nat.{mul-le-mul_left}
use understanding_smartnic.Tensor.{concat, empty, length-empty_from}
use understanding_smartnic.Client.{Tensor, scatter_flat_to_list}
use understanding_smartnic.Client.Scatter.{Fits, filled, scatter_lem}
use understanding_smartnic.Partition.{ZeroParam}
use understanding_smartnic.Partition.Sizes.{shard_size}
use understanding_smartnic.Partition.Shard.{shard_of, length-shard_of}
use understanding_smartnic.Partition.Gather.{
  all_gather_list, fill_slot, replicate_params, partition_size, slots_from, allgather_params,
}
use understanding_smartnic.Partition.Gathered.{ranks_from, sizes, row}
use understanding_smartnic.Partition.Replicated.{replicate_params-row, fill_slot_lem}
use understanding_smartnic.Partition.Cut.{
  AreFresh, all_cut, all_cut_lem, cut_of, lists_from, rows_of, rows_of-cut_of, concat-cut_of,
  params_sizes, params_sizes-sizes,
}

module _ {ℓ} {A : Type ℓ} where
  length-row :
      (w : ℕ) (memory : ℕ → ℕ → A) (xss : List (List A)) (r : ℕ)
      → length (row w memory xss r) ≡ partition_size (sizes w xss)
  length-row w memory [] r = refl
  length-row w memory (xs ∷ xss) r =
      let c : ℕ = shard_size w (length xs) in
      omega (
        arith,
        length-append (shard_of c r (memory r) xs) (row w memory xss r),
        length-shard_of c r (memory r) xs,
        length-row w memory xss r,
      )

  module _ (w size : ℕ) (flat : List A) (long : length flat ≡ size * w) where
    length-slot : (i : ℕ) → i < w → length (take size (drop (size * i) flat)) ≡ size
    length-slot i b =
        let inside : size * (i + 1) ≤ size * w = mul-le-mul_left size (omega arith) in
        let more : size * (i + 1) ≡ size * i + size = omega arith in
        omega (arith, length-take size (drop (size * i) flat), length-drop (size * i) flat)

    length-slots : (n i : ℕ) → length (slots_from n size i flat) ≡ n
    unfolding slots_from
    length-slots zero i = refl
    length-slots (suc n) i = ap suc (length-slots n (i + 1))

    slots-Fits :
        (f : ℕ → List A) (n i : ℕ)
        → i + n ≤ w
        → ((r : ℕ) → length (f r) ≡ size)
        → Fits size (slots_from n size i flat) (ranks_from f i n)
    unfolding slots_from
    slots-Fits f zero i h e = tt
    slots-Fits f (suc n) i h e =
        (length-slot i (omega arith), e i, slots-Fits f n (i + 1) (omega arith) e)

    contents-filled :
        (f : ℕ → List A) (n i : ℕ)
        → map (λ t. t.contents) (filled (slots_from n size i flat) (ranks_from f i n))
          ≡ ranks_from f i n
    unfolding slots_from
    contents-filled f zero i = refl
    contents-filled f (suc n) i = ap (◌∷◌ (f i)) (contents-filled f n (i + 1))

  -- If the driver leaves the inputs of the ranks one after the other, each output gets its own.
  all_gather_list_lem :
      (w : ℕ) (driver : List A → Result (List A)) (outs : List (Tensor A)) (input : Tensor A)
      (xss : List (List A))
      → length outs ≡ w
      → Fits (length input.contents) outs xss
      → driver input.contents ≡ ok (concat xss)
      → all_gather_list w driver outs input ≡ ok (filled outs xss)
  unfolding all_gather_list
  all_gather_list_lem w driver outs input xss size f e =
      let all : (length outs == w) ≡ true = ground (arith, size) in
      rw all (
        ap (λ r. r >>= λ flat. scatter_flat_to_list flat outs input) e
        ∙ scatter_lem outs xss input f)

  -- The gather of parameters whose shards this rank holds.
  allgather_params-cut_of :
      (w rank : ℕ) (flat : ℕ → A) (found memory : ℕ → ℕ → A) (driver : List A → Result (List A))
      (xss : List (List A))
      → rank < w
      → driver (row w memory xss rank) ≡ ok (concat (ranks_from (row w memory xss) 0 w))
      → allgather_params w rank flat found driver (sizes w xss) (cut_of w memory xss rank) ≡ ok xss
  unfolding allgather_params
  allgather_params-cut_of w rank flat found memory driver [] b e = refl
  allgather_params-cut_of w rank flat found memory driver (xs ∷ xss) b e =
      let f : ℕ → List A = row w memory (xs ∷ xss) in
      let size : ℕ = partition_size (sizes w (xs ∷ xss)) in
      let cells : List A = empty flat (size * w) in
      let long : length cells ≡ size * w = length-empty_from 0 flat (size * w) in
      let slots = slots_from w size 0 cells in
      let input : Tensor A = record { contents = f rank; dtype = 0; device = 0 } in
      let rows = length-row w memory (xs ∷ xss) in
      let shards = cut_of w memory (xs ∷ xss) rank in
      let joined : concat shards ≡ f rank = concat-cut_of w memory (xs ∷ xss) rank in
      let mine : fill_slot 0 shards (take size (drop (size * rank) cells)) ≡ ok (f rank) =
        fill_slot_lem 0 shards [] (take size (drop (size * rank) cells)) refl
          (length-slot w size cells long rank b ∙ sym (rows rank) ∙ sym (ap length joined))
        ∙ ap ok joined in
      let fits : Fits (length (f rank)) slots (ranks_from f 0 w) =
        rw (rows rank) (slots-Fits w size cells long f w 0 (omega arith) rows) in
      let gathered : all_gather_list w driver slots input ≡ ok (filled slots (ranks_from f 0 w)) =
        all_gather_list_lem w driver slots input (ranks_from f 0 w)
          (length-slots w size cells long w 0) fits e in
      let back = contents-filled w size cells long f w 0 in
      let whole : replicate_params found 0 0 (ranks_from f 0 w) (sizes w (xs ∷ xss))
          ≡ ok (xs ∷ xss) =
        replicate_params-row w 0 0 found memory (xs ∷ xss) (λ r. []) (omega arith) (λ r. refl) in
      rw (mine, gathered, back) whole

  get_elem?-lists_from :
      (f : ℕ → List (List A)) (i n k : ℕ) (x : List (List A))
      → get_elem? (lists_from f i n) k ≡ some x
      → (k < n) × (x ≡ f (i + k))
  get_elem?-lists_from f i zero k x e = cc
  get_elem?-lists_from f i (suc n) zero x e =
      let first : f i ≡ x = cc in
      let same : i ≡ i + 0 = omega arith in (omega arith, sym first ∙ ap f same)
  get_elem?-lists_from f i (suc n) (suc k) x e =
      let (b, found) = get_elem?-lists_from f (i + 1) n k x e in
      let same : i + 1 + k ≡ i + suc k = omega arith in (omega arith, found ∙ ap f same)

  -- The blocking gather of several parameters loses nothing either: when every rank of a world has
  -- partitioned parameters that had no shard yet, were all there and in no active submodule, a rank
  -- holds the shards that it kept, and the driver gives it for these the shards of all ranks one
  -- behind the other, then `_allgather_params` returns on that rank and restores every parameter's
  -- contents, whatever the buffers held.
  pub allgather_params-all_cut :
      (w rank : ℕ) (flat : ℕ → A) (found memory : ℕ → ℕ → A) (driver : List A → Result (List A))
      (updated : Bool) (ps : List (ZeroParam A)) (rows : List (List (List A)))
      (shards : List (List A))
      → AreFresh ps
      → all_cut w memory updated ps 0 w ≡ ok rows
      → get_elem? rows rank ≡ some shards
      → driver (concat shards) ≡ ok (concat (rows_of rows))
      → allgather_params w rank flat found driver (params_sizes w ps) shards
        ≡ ok (map (λ p. p.contents) ps)
  allgather_params-all_cut w rank flat found memory driver updated ps rows shards f cut mine e =
      let xss = map (λ p. p.contents) ps in
      let g = cut_of w memory xss in
      let all : lists_from g 0 w ≡ rows =
        let same : ok (lists_from g 0 w) ≡ ok rows =
          sym (all_cut_lem w memory updated ps 0 w f) ∙ cut in
        cc in
      let (b, held) =
        get_elem?-lists_from g 0 w rank shards (ap (λ r. get_elem? r rank) all ∙ mine) in
      let same : 0 + rank ≡ rank = omega arith in
      let own : shards ≡ g rank = held ∙ ap g same in
      let sends : driver (row w memory xss rank) ≡ ok (concat (ranks_from (row w memory xss) 0 w)) =
        ap driver (sym (ap concat own ∙ concat-cut_of w memory xss rank))
        ∙ e
        ∙ ap (λ r. ok (concat r)) (ap rows_of (sym all) ∙ rows_of-cut_of w memory xss 0 w) in
      ap (λ s. allgather_params w rank flat found driver s shards) (params_sizes-sizes w ps f)
      ∙ ap (allgather_params w rank flat found driver (sizes w xss)) own
      ∙ allgather_params-cut_of w rank flat found memory driver xss b sends
