-- ===== src/Bucket/Enter.antt =====
-- The reduction of a bucket and the entry of a gradient keep the state good.
use understanding_smartnic.Prelude.{
  ℕ, ◌+◌, ◌≤◌, ◌≡◌, ◌⊎◌, inl, inr, refl, ap, ◌∙◌, List, [], ◌∷◌, ◌++◌, some, true, not, ◌&&◌, ◌||◌,
  leb, ltb, ok, ◌>>◌, guard, runtime_error, arith, length-map,
}
use mathlib.Core.Path.{subst}
use understanding_smartnic.Bucket.{
  Member, Reducer, Setting, elements, flush_pending_rs, sort, check_sizes, sweep_events,
  avg_scatter_grads, reduce_and_partition_ipg_grads, add_grad_to_ipg_bucket,
}
use understanding_smartnic.Bucket.Conserve.{
  count, count-append, count-sort, AreReady, AreReady-append, AreReady-sort, check_sizes-AreReady,
  waiting, IsGood,
}
use understanding_smartnic.Bucket.Taken.{flush_pending_rs-IsGood}

List-cases {ℓ} : {A : Type ℓ} (xs : List A) → (xs ≡ []) ⊎ ((x : A) × (ys : List A) × (xs ≡ x ∷ ys))
List-cases [] = inl refl
List-cases (x ∷ xs) = inr (x, xs, refl)

pub elements-append :
    {Full : Type 0} (ps qs : List (Member Full)) → elements (ps ++ qs) ≡ elements ps + elements qs
unfolding elements
elements-append [] qs = omega arith
elements-append (p ∷ ps) qs = omega (arith, elements-append ps qs)

module _ {Full Part : Type 0} (c : Setting Full Part) where
  -- The submission of a bucket that is not empty.
  submitted : ℕ → List (Member Full) → Reducer Full Part → Reducer Full Part
  submitted finished ps s =
      record (flush_pending_rs c
        (record s { param_reduce_events = sweep_events finished s.param_reduce_events })) {
          params_in_ipg_bucket = [];
          pending_rs = some (avg_scatter_grads c (sort ps));
        }

  reduce-empty :
      (finished : ℕ) (s : Reducer Full Part)
      → s.params_in_ipg_bucket ≡ []
      → reduce_and_partition_ipg_grads c finished s ≡ ok s
  unfolding reduce_and_partition_ipg_grads submitted
  reduce-empty finished s e =
      ap
        (λ b. elim b [
          | [] ↦ ok s
          | p ∷ ps ↦ check_sizes (p ∷ ps) >> ok (submitted finished (p ∷ ps) s)
        ])
        e

  reduce-full :
      (finished : ℕ) (s : Reducer Full Part) (p : Member Full) (ps : List (Member Full))
      → s.params_in_ipg_bucket ≡ p ∷ ps
      → AreReady c.rank (p ∷ ps)
      → reduce_and_partition_ipg_grads c finished s ≡ ok (submitted finished (p ∷ ps) s)
  unfolding reduce_and_partition_ipg_grads submitted
  reduce-full finished s p ps e a =
      ap
        (λ b. elim b [
          | [] ↦ ok s
          | p ∷ ps ↦ check_sizes (p ∷ ps) >> ok (submitted finished (p ∷ ps) s)
        ])
        e
      ∙ ap (λ r. r >> ok (submitted finished (p ∷ ps) s)) (check_sizes-AreReady c.rank (p ∷ ps) a)

  pub reduce-IsGood :
      (finished : ℕ) (log : ℕ → ℕ) (s : Reducer Full Part)
      → IsGood c log s
      → (t : Reducer Full Part) × (reduce_and_partition_ipg_grads c finished s ≡ ok t)
        × (t.params_in_ipg_bucket ≡ [])
        × IsGood c log t
  unfolding submitted avg_scatter_grads elements
  reduce-IsGood finished log s g = elim (List-cases s.params_in_ipg_bucket) [
    | inl e ↦ (s, reduce-empty finished s e, e, g)
    | inr (p, ps, e) ↦
        let ready : AreReady c.rank (p ∷ ps) = subst (AreReady c.rank) e g.ready in
        let swept : Reducer Full Part = record s {
          param_reduce_events = sweep_events finished s.param_reduce_events;
        } in
        let good : IsGood c log swept = record {
          bounded = g.bounded;
          ready = g.ready;
          full = g.full;
          fresh = g.fresh;
          conserved = g.conserved;
        } in
        let (settled, taken, same) = flush_pending_rs-IsGood c log swept good in
        (
          submitted finished (p ∷ ps) s,
          reduce-full finished s p ps e ready,
          refl,
          record {
            bounded = inl (omega arith);
            ready = tt;
            full = (
              length-map (sort (p ∷ ps)) (λ q. c.reduce q.grad),
              AreReady-sort c.rank (p ∷ ps) ready,
            );
            fresh = settled.fresh;
            conserved = λ k. omega (
              arith,
              settled.conserved k,
              ap (λ o. count k (waiting o)) taken,
              ap (count k) same,
              ap (count k) e,
              count-sort k (p ∷ ps),
            );
          },
        )
  ]

  pub add-IsGood :
      (p : Member Full) (log : ℕ → ℕ) (s : Reducer Full Part)
      → IsGood c log s
      → AreReady c.rank (p ∷ [])
      → (elements (s.params_in_ipg_bucket ++ p ∷ []) ≤ c.reduce_bucket_size)
        ⊎ (elements s.params_in_ipg_bucket ≡ 0)
      → (t : Reducer Full Part) × (add_grad_to_ipg_bucket c p s ≡ ok t)
        × IsGood c (λ k. log k + count k (p ∷ [])) t
  unfolding add_grad_to_ipg_bucket
  add-IsGood p log s g a b =
      let held : ℕ = elements s.params_in_ipg_bucket in
      let inside : (not (c.contiguous_gradients && ltb (held + p.grad_numel) c.reduce_bucket_size)
            || leb (held + p.grad_numel) c.reduce_bucket_size)
          ≡ true =
        ground arith in
      (
        record s { params_in_ipg_bucket = s.params_in_ipg_bucket ++ p ∷ [] },
        ap
            (λ t.
              guard t runtime_error
              >> ok (record s { params_in_ipg_bucket = s.params_in_ipg_bucket ++ p ∷ [] }))
            inside,
        record {
          bounded = elim b [ inl h ↦ inl h | inr e ↦ inr (s.params_in_ipg_bucket, p, refl, e) ];
          ready = AreReady-append c.rank s.params_in_ipg_bucket (p ∷ []) g.ready a;
          full = g.full;
          fresh = g.fresh;
          conserved =
              λ k. omega (arith, g.conserved k, count-append k s.params_in_ipg_bucket (p ∷ []));
        },
      )
