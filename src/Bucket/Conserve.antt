-- ===== src/Bucket/Conserve.antt =====
-- A backward pass takes every gradient exactly once.
use understanding_smartnic.Prelude.{
  ℕ, ◌+◌, ◌*◌, ◌≤◌, ◌≡◌, ◌⊎◌, refl, ap, ◌∙◌, List, [], ◌∷◌, ◌++◌, Option, none, some, true, false,
  if◌then◌else◌, leb, ◌==◌, ok, ◌>>◌, guard, runtime_error, arith, length,
}
use understanding_smartnic.Bucket.{
  Member, Deferred, Reducer, Setting, elements, insert, sort, check_sizes,
}

-- How often `k` stands in a list.
abbrev pub times : ℕ → List ℕ → ℕ
times k [] = 0
times k (x ∷ xs) = (if x == k then 1 else 0) + times k xs

module _ {Full : Type 0} where
  -- How often the parameter `k` stands in a list of parameters.
  abbrev pub count : ℕ → List (Member Full) → ℕ
  count k [] = 0
  count k (p ∷ ps) = (if p.ds_id == k then 1 else 0) + count k ps

  pub count-append :
      (k : ℕ) (ps qs : List (Member Full)) → count k (ps ++ qs) ≡ count k ps + count k qs
  count-append k [] qs = omega arith
  count-append k (p ∷ ps) qs = omega (arith, count-append k ps qs)

  count-insert :
      (k : ℕ) (p : Member Full) (ps : List (Member Full))
      → count k (insert p ps) ≡ (if p.ds_id == k then 1 else 0) + count k ps
  unfolding insert
  count-insert k p [] = refl
  count-insert k p (q ∷ qs) = ground (arith, count-insert k p qs)

  pub count-sort : (k : ℕ) (ps : List (Member Full)) → count k (sort ps) ≡ count k ps
  unfolding sort
  count-sort k [] = refl
  count-sort k (p ∷ ps) = omega (arith, count-insert k p (sort ps), count-sort k ps)

  -- Parameters with a part on the rank, whose gradients have their size.
  abbrev pub AreReady : ℕ → List (Member Full) → Type 0
  AreReady rank [] = Unit
  AreReady rank (p ∷ ps) =
      (p.grad_numel ≡ p.ds_numel) × (p.partition_numel * rank ≤ p.ds_numel) × AreReady rank ps

  pub AreReady-append :
      (rank : ℕ) (ps qs : List (Member Full))
      → AreReady rank ps
      → AreReady rank qs
      → AreReady rank (ps ++ qs)
  AreReady-append rank [] qs a b = b
  AreReady-append rank (p ∷ ps) qs (e, h, a) b = (e, h, AreReady-append rank ps qs a b)

  AreReady-insert :
      (rank : ℕ) (p : Member Full) (ps : List (Member Full))
      → p.grad_numel ≡ p.ds_numel
      → p.partition_numel * rank ≤ p.ds_numel
      → AreReady rank ps
      → AreReady rank (insert p ps)
  unfolding insert
  AreReady-insert rank p [] e h a = (e, h, tt)
  AreReady-insert rank p (q ∷ qs) e h (f, i, a) =
      let rest = AreReady-insert rank p qs e h a in
      elim (leb p.ds_id q.ds_id)
        as (λ b. AreReady rank (if b then p ∷ q ∷ qs else q ∷ insert p qs)) [
          | true ↦ (e, h, (f, i, a))
          | false ↦ (f, i, rest)
        ]

  pub AreReady-sort :
      (rank : ℕ) (ps : List (Member Full)) → AreReady rank ps → AreReady rank (sort ps)
  unfolding sort
  AreReady-sort rank [] a = tt
  AreReady-sort rank (p ∷ ps) (e, h, a) =
      AreReady-insert rank p (sort ps) e h (AreReady-sort rank ps a)

  pub check_sizes-AreReady :
      (rank : ℕ) (ps : List (Member Full)) → AreReady rank ps → check_sizes ps ≡ ok tt
  unfolding check_sizes
  check_sizes-AreReady rank [] a = refl
  check_sizes-AreReady rank (p ∷ ps) (e, h, a) =
      let same : (p.grad_numel == p.ds_numel) ≡ true = ground arith in
      ap (λ b. guard b runtime_error >> check_sizes ps) same ∙ check_sizes-AreReady rank ps a

  -- The elements are at most `size`, or all of them are those of the last parameter.
  abbrev pub IsBounded : ℕ → List (Member Full) → Type 0
  IsBounded size ps =
      (elements ps ≤ size)
      ⊎ ((front : List (Member Full)) × (p : Member Full) × (ps ≡ front ++ p ∷ [])
          × (elements front ≡ 0))

module _ {Full Part : Type 0} where
  -- What is still to be taken: the pending result and the bucket.
  abbrev pub waiting : Option (Deferred Full Part) → List (Member Full)
  waiting none = []
  waiting (some d) = d.params

  -- The pending result has a part for each of its parameters.
  abbrev pub IsFull : ℕ → Option (Deferred Full Part) → Type 0
  IsFull rank none = Unit
  IsFull rank (some d) = (length d.output_lst ≡ length d.params) × AreReady rank d.params

  -- Between two calls: the bucket within its size or of one parameter, the parameters ready, none
  -- marked as reduced, and the parameters of `log` in the places where they can be.
  pub record IsGood (c : Setting Full Part) (log : ℕ → ℕ) (s : Reducer Full Part) : Type 0 where
    pub bounded : IsBounded c.reduce_bucket_size s.params_in_ipg_bucket
    pub ready : AreReady c.rank s.params_in_ipg_bucket
    pub full : IsFull c.rank s.pending_rs
    pub fresh : (i : ℕ) → s.params_already_reduced i ≡ false
    pub conserved :
        (k : ℕ)
        → times k s.released + count k (waiting s.pending_rs) + count k s.params_in_ipg_bucket
          ≡ log k
