-- ===== src/Bucket/Taken.antt =====
-- What the partition of gradients, the flush and the reduction leave of a good state.
use understanding_smartnic.Prelude.{
  ℕ, suc, ◌+◌, ◌*◌, ◌≤◌, ◌≡◌, inl, inr, refl, sym, ap, ◌∙◌, List, [], ◌∷◌, none, some, Bool, ltb,
  Bool-cases, Option-cases, arith, length,
}
use mathlib.Core.Path.{subst}
use understanding_smartnic.Bucket.{
  Member, Deferred, Reducer, Setting, partition_grad, partition_grads, flush_pending_rs,
}
use understanding_smartnic.Bucket.Conserve.{
  times, count, AreReady, waiting, IsFull, IsBounded, IsGood,
}

module _ {Full Part : Type 0} (c : Setting Full Part) where
  -- What the partition of gradients does not touch.
  record IsKept (s t : Reducer Full Part) : Type 0 where
    bucket : t.params_in_ipg_bucket ≡ s.params_in_ipg_bucket
    pending : t.pending_rs ≡ s.pending_rs
    already : t.params_already_reduced ≡ s.params_already_reduced

  partition_grad-released :
      (in_place : Bool) (p : Member Full) (part : Part) (s : Reducer Full Part)
      → p.partition_numel * c.rank ≤ p.ds_numel
      → (partition_grad c in_place p part s).released ≡ p.ds_id ∷ s.released
  unfolding partition_grad
  partition_grad-released in_place p part s h = ground arith

  partition_grad-IsKept :
      (in_place : Bool) (p : Member Full) (part : Part) (s : Reducer Full Part)
      → IsKept s (partition_grad c in_place p part s)
  unfolding partition_grad
  partition_grad-IsKept in_place p part s =
      elim (Bool-cases (ltb p.ds_numel (p.partition_numel * c.rank))) [
        | inl e ↦ rw (e, partition_grad) (record { bucket = refl; pending = refl; already = refl })
        | inr e ↦ rw (e, partition_grad) (record { bucket = refl; pending = refl; already = refl })
      ]

  partition_grads-taken :
      (in_place : Bool) (ps : List (Member Full)) (parts : List Part) (s : Reducer Full Part)
      → length parts ≡ length ps
      → AreReady c.rank ps
      → IsKept s (partition_grads c in_place ps parts s)
        × ((k : ℕ)
            → times k (partition_grads c in_place ps parts s).released
              ≡ count k ps + times k s.released)
  unfolding partition_grads
  partition_grads-taken in_place [] parts s e a =
      (record { bucket = refl; pending = refl; already = refl }, λ k. omega arith)
  partition_grads-taken in_place (p ∷ ps) [] s e a = absurd (omega arith)
  partition_grads-taken in_place (p ∷ ps) (g ∷ gs) s e (f, h, a) =
      let t : Reducer Full Part = partition_grad c in_place p g s in
      let first : IsKept s t = partition_grad-IsKept in_place p g s in
      let (kept, taken) = partition_grads-taken in_place ps gs t (omega arith) a in
      (
        record {
          bucket = kept.bucket ∙ first.bucket;
          pending = kept.pending ∙ first.pending;
          already = kept.already ∙ first.already;
        },
        λ k. omega (arith, taken k, ap (times k) (partition_grad-released in_place p g s h)),
      )

  flush_pending_rs-none : (s : Reducer Full Part) → s.pending_rs ≡ none → flush_pending_rs c s ≡ s
  unfolding flush_pending_rs
  flush_pending_rs-none s e =
      ap
        (λ o. elim o [
          | none ↦ s
          | some d ↦
              (let t = partition_grads c d.in_place d.params d.output_lst s in
                record t { param_reduce_events = suc t.param_reduce_events; pending_rs = none })
        ])
        e

  pub flush_pending_rs-some :
      (s : Reducer Full Part) (d : Deferred Full Part)
      → s.pending_rs ≡ some d
      → flush_pending_rs c s ≡ record (partition_grads c d.in_place d.params d.output_lst s) {
        param_reduce_events =
            suc (partition_grads c d.in_place d.params d.output_lst s).param_reduce_events;
        pending_rs = none;
      }
  unfolding flush_pending_rs
  flush_pending_rs-some s d e =
      ap
        (λ o. elim o [
          | none ↦ s
          | some d ↦
              (let t = partition_grads c d.in_place d.params d.output_lst s in
                record t { param_reduce_events = suc t.param_reduce_events; pending_rs = none })
        ])
        e

  -- After a flush nothing is pending, and the pending parameters are released.
  pub flush_pending_rs-IsGood :
      (log : ℕ → ℕ) (s : Reducer Full Part)
      → IsGood c log s
      → IsGood c log (flush_pending_rs c s)
        × ((flush_pending_rs c s).pending_rs ≡ none)
        × ((flush_pending_rs c s).params_in_ipg_bucket ≡ s.params_in_ipg_bucket)
  flush_pending_rs-IsGood log s g = elim (Option-cases s.pending_rs) [
    | inl e ↦
        subst
          (λ t.
            IsGood c log t
            × (t.pending_rs ≡ none)
            × (t.params_in_ipg_bucket ≡ s.params_in_ipg_bucket))
          (sym (flush_pending_rs-none s e)) (g, e, refl)
    | inr (d, e) ↦
        let full = subst (IsFull c.rank) e g.full in
        let (kept, taken) =
          partition_grads-taken d.in_place d.params d.output_lst s full.0 full.1 in
        subst
          (λ t.
            IsGood c log t
            × (t.pending_rs ≡ none)
            × (t.params_in_ipg_bucket ≡ s.params_in_ipg_bucket))
          (sym (flush_pending_rs-some s d e))
          (
            record {
              bounded = subst (IsBounded c.reduce_bucket_size) (sym kept.bucket) g.bounded;
              ready = subst (AreReady c.rank) (sym kept.bucket) g.ready;
              full = tt;
              fresh = λ i. ap (λ f. f i) kept.already ∙ g.fresh i;
              conserved = λ k. omega (
                arith,
                taken k,
                g.conserved k,
                ap (λ o. count k (waiting o)) e,
                ap (count k) kept.bucket,
              );
            },
            refl,
            kept.bucket,
          )
  ]
