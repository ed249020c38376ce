-- ===== src/Bucket/Pass.antt =====
-- The hooks keep the bucket small, and a backward pass takes every gradient exactly once.
use understanding_smartnic.Prelude.{
  ◌<◌, Result, ℕ, suc, ◌+◌, ◌≤◌, ◌≡◌, ◌⊎◌, inl, inr, refl, sym, ap, ◌∙◌, List, [], ◌∷◌, ◌++◌, none,
  false, not, ◌&&◌, if◌then◌else◌, ltb, Bool-cases, ok, ◌>>=◌, ◌>>◌, guard, assertion_error, arith,
}
use mathlib.Core.Path.{subst}
use understanding_smartnic.Bucket.{
  report_ipg_memory_usage, Member, Reducer, Setting, elements, flush_pending_rs,
  reduce_and_partition_ipg_grads, add_grad_to_ipg_bucket, reduce_ready_partitions_and_remove_grads,
  independent_gradient_partition_epilogue, hooks, backward,
}
use understanding_smartnic.Bucket.Conserve.{
  times, count, AreReady, waiting, IsFull, IsBounded, IsGood,
}
use understanding_smartnic.Bucket.Taken.{flush_pending_rs-IsGood}
use understanding_smartnic.Bucket.Enter.{elements-append, reduce-IsGood, add-IsGood}

module _ {Full Part : Type 0} (c : Setting Full Part) where
  same_log :
      {log log' : ℕ → ℕ} (s : Reducer Full Part)
      → ((k : ℕ) → log k ≡ log' k)
      → IsGood c log s
      → IsGood c log' s
  same_log s e g = record {
    bounded = g.bounded;
    ready = g.ready;
    full = g.full;
    fresh = g.fresh;
    conserved = λ k. g.conserved k ∙ e k;
  }

  -- The rest of a hook, after a reduction that makes room.
  enter :
      (p : Member Full) (log : ℕ → ℕ) (t : Reducer Full Part)
      → IsGood c log t
      → AreReady c.rank (p ∷ [])
      → (elements (t.params_in_ipg_bucket ++ p ∷ []) ≤ c.reduce_bucket_size)
        ⊎ (elements t.params_in_ipg_bucket ≡ 0)
      → (u : Reducer Full Part) × ((guard (not (t.params_already_reduced p.ds_id)) assertion_error
            >> add_grad_to_ipg_bucket c p t)
          ≡ ok u)
        × IsGood c (λ k. log k + count k (p ∷ [])) u
  enter p log t g a b =
      let (u, e, h) = add-IsGood c p log t g a b in
      (
        u,
        ap (λ x. guard (not x) assertion_error >> add_grad_to_ipg_bucket c p t) (g.fresh p.ds_id)
            ∙ e,
        h,
      )

  -- A bucket that is not reduced has room, or has no elements.
  room_for :
      (held : ℕ) (p : Member Full) (s : Reducer Full Part)
      → elements (s.params_in_ipg_bucket ++ p ∷ []) ≡ held + (p.ds_numel + 0)
      → (ltb 0 held && ltb c.reduce_bucket_size (held + p.ds_numel)) ≡ false
      → (elements (s.params_in_ipg_bucket ++ p ∷ []) ≤ c.reduce_bucket_size) ⊎ (held ≡ 0)
  room_for held p s e f = ground (arith, e)

  start :
      (s : Reducer Full Part)
      → s.params_in_ipg_bucket ≡ []
      → s.pending_rs ≡ none
      → ((i : ℕ) → s.params_already_reduced i ≡ false)
      → IsGood c (λ k. times k s.released) s
  unfolding elements
  start s b n f = record {
    bounded = inl (omega (arith, ap elements b));
    ready = subst (AreReady c.rank) (sym b) tt;
    full = subst (IsFull c.rank) (sym n) tt;
    fresh = f;
    conserved = λ k. omega (arith, ap (λ o. count k (waiting o)) n, ap (count k) b);
  }

  pub reported : 0 < c.reduce_bucket_size → report_ipg_memory_usage c ≡ ok tt
  unfolding report_ipg_memory_usage
  reported h = ground arith

  pub hook-IsGood :
      (finished : ℕ) (p : Member Full) (log : ℕ → ℕ) (s : Reducer Full Part)
      → 0 < c.reduce_bucket_size
      → IsGood c log s
      → AreReady c.rank (p ∷ [])
      → (t : Reducer Full Part) × (reduce_ready_partitions_and_remove_grads c finished p s ≡ ok t)
        × IsGood c (λ k. log k + count k (p ∷ [])) t
  unfolding reduce_ready_partitions_and_remove_grads elements
  hook-IsGood finished p log s pos g a =
      let held : ℕ = elements s.params_in_ipg_bucket in
      let rest = λ (t : Reducer Full Part).
        guard (not (t.params_already_reduced p.ds_id)) assertion_error
        >> add_grad_to_ipg_bucket c p t in
      elim (Bool-cases (ltb 0 held && ltb c.reduce_bucket_size (held + p.ds_numel))) [
        | inl f ↦
            let (t, e, empty, h) = reduce-IsGood c finished log s g in
            let (u, i, j) = enter p log t h a (inr (ap elements empty)) in
            (
              u,
              ap
                    (λ b.
                      (if b
                        then report_ipg_memory_usage c
                          >> reduce_and_partition_ipg_grads c finished s
                        else ok s)
                      >>= rest)
                    f
                  ∙ ap (λ r. (r >> reduce_and_partition_ipg_grads c finished s) >>= rest)
                      (reported pos)
                  ∙ ap (λ r. r >>= rest) e
                  ∙ i,
              j,
            )
        | inr f ↦
            let room : (elements (s.params_in_ipg_bucket ++ p ∷ []) ≤ c.reduce_bucket_size)
                ⊎ (held ≡ 0) =
              room_for held p s (elements-append s.params_in_ipg_bucket (p ∷ [])) f in
            let (u, i, j) = enter p log s g a room in
            (
              u,
              ap
                    (λ b.
                      (if b
                        then report_ipg_memory_usage c
                          >> reduce_and_partition_ipg_grads c finished s
                        else ok s)
                      >>= rest)
                    f
                  ∙ i,
              j,
            )
      ]

  pub hooks-IsGood :
      (finished : ℕ → ℕ) (ps : List (Member Full)) (log : ℕ → ℕ) (s : Reducer Full Part)
      → 0 < c.reduce_bucket_size
      → IsGood c log s
      → AreReady c.rank ps
      → (t : Reducer Full Part) × (hooks c finished ps s ≡ ok t)
        × IsGood c (λ k. log k + count k ps) t
  unfolding hooks
  hooks-IsGood finished [] log s pos g a = (s, refl, same_log s (λ k. omega arith) g)
  hooks-IsGood finished (p ∷ ps) log s pos g (e, h, a) =
      let (t, f, i) = hook-IsGood (finished p.ds_id) p log s pos g (e, h, tt) in
      let (u, j, m) = hooks-IsGood finished ps (λ k. log k + count k (p ∷ [])) t pos i a in
      (u, ap (λ r. r >>= hooks c finished ps) f ∙ j, same_log u (λ k. omega arith) m)

  -- Let the bucket size be positive, nothing be in the bucket or pending, nothing be marked as reduced, and let each gradient have
  -- its parameter's size and a part on this rank. Then the hooks of a backward pass return, in any
  -- order of the parameters, and the bucket then holds at most `reduce_bucket_size` elements, or its
  -- last parameter has all of them.
  pub hooks-IsBounded :
      (finished : ℕ → ℕ) (ps : List (Member Full)) (s : Reducer Full Part)
      → 0 < c.reduce_bucket_size
      → s.params_in_ipg_bucket ≡ []
      → s.pending_rs ≡ none
      → ((i : ℕ) → s.params_already_reduced i ≡ false)
      → AreReady c.rank ps
      → (t : Reducer Full Part) × (hooks c finished ps s ≡ ok t)
        × IsBounded c.reduce_bucket_size t.params_in_ipg_bucket
  hooks-IsBounded finished ps s pos b n f a =
      let (t, e, g) = hooks-IsGood finished ps (λ k. times k s.released) s pos (start s b n f) a in
      (t, e, g.bounded)

  -- Let the bucket size be positive, nothing be in the bucket or pending, nothing be marked as reduced,
  -- and let each gradient have its parameter's size and a part on this rank. Then a whole backward
  -- pass, with its epilogue and the flush, returns, and leaves nothing in the bucket and nothing
  -- pending; every parameter's gradient was taken and released exactly as often as the parameter
  -- came, whatever buckets were formed.
  pub backward-released :
      (finished : ℕ → ℕ) (ps : List (Member Full)) (s : Reducer Full Part)
      → 0 < c.reduce_bucket_size
      → s.params_in_ipg_bucket ≡ []
      → s.pending_rs ≡ none
      → ((i : ℕ) → s.params_already_reduced i ≡ false)
      → AreReady c.rank ps
      → (t : Reducer Full Part) × (backward c finished ps s ≡ ok t)
        × (t.params_in_ipg_bucket ≡ [])
        × (t.pending_rs ≡ none)
        × ((k : ℕ) → times k t.released ≡ times k s.released + count k ps)
  unfolding backward independent_gradient_partition_epilogue
  backward-released finished ps s pos b n f a =
      let (t, e, g) = hooks-IsGood finished ps (λ k. times k s.released) s pos (start s b n f) a in
      let log = λ (k : ℕ). times k s.released + count k ps in
      let (u, h, empty, i) = reduce-IsGood c (finished 0) log t g in
      let v : Reducer Full Part = record u {
        params_already_reduced = λ i. false;
        micro_step_id = suc u.micro_step_id;
      } in
      let good : IsGood c log v = record {
        bounded = i.bounded;
        ready = i.ready;
        full = i.full;
        fresh = λ k. refl;
        conserved = i.conserved;
      } in
      let (j, settled, same) = flush_pending_rs-IsGood c log v good in
      let last = λ (x : Reducer Full Part). ok (flush_pending_rs c x) in
      let marked = λ (x : Reducer Full Part).
        ok
          (record x { params_already_reduced = λ i. false; micro_step_id = suc x.micro_step_id }) in
      let finish = λ (r : Result (Unit {0})) (x : Reducer Full Part).
        ((r >> reduce_and_partition_ipg_grads c (finished 0) x) >>= λ t. r >> marked t) >>= last in
      (
        flush_pending_rs c v,
        ap (λ r. hooks c finished ps s >>= finish r) (reported pos)
            ∙ ap (λ r. r >>= finish (ok tt)) e
            ∙ ap (λ r. (r >>= marked) >>= last) h,
        same ∙ empty,
        settled,
        λ k. omega (
          arith,
          j.conserved k,
          ap (λ o. count k (waiting o)) settled,
          ap (count k) (same ∙ empty),
        ),
      )
