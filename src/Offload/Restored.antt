-- ===== src/Offload/Restored.antt =====
-- The CPU copies give every parameter back.
use understanding_smartnic.Prelude.{
  ℕ, ◌≡◌, refl, sym, ap, ◌∙◌, List, [], ◌∷◌, ◌++◌, map, Option, none, some, true, false, length,
  ◌==◌, get_elem?, zero, suc, ok, arith,
}
use understanding_smartnic.Partition.{available, inflight}
use understanding_smartnic.Offload.FullCopy.{
  FullParam, Buffer, is_some, enqueue, copied, synchronize, Array, numel, at, overwrite, save, free,
  restore, restore_all, gather_copies, launch, all_copied, is_some, enqueue, copied, synchronize,
  wait_copies, CopyHandle, fits, or_pool, ensure_pinned_cpu_full_param, all_inflight, empty_like,
}

module _ {ℓ} {A : Type ℓ} where
  -- The parameter is available and holds a whole array of its shape.
  abbrev pub IsWhole : FullParam A → Type 0
  IsWhole p =
      (p.ds_status ≡ available)
      × (p.tensor.shape ≡ p.ds_shape)
      × (length p.tensor.contents ≡ p.ds_numel)
      × (numel p.ds_shape ≡ p.ds_numel)

  get_elem?-last :
      (bs : List (Buffer A)) (b : Buffer A) → get_elem? (bs ++ b ∷ []) (length bs) ≡ some b
  get_elem?-last [] b = refl
  get_elem?-last (c ∷ bs) b = get_elem?-last bs b

  get_elem?-overwrite :
      (bs : List (Buffer A)) (a : ℕ) (b : Buffer A) (xs : List A)
      → get_elem? bs a ≡ some b
      → (c : Buffer A) × (get_elem? (overwrite bs a xs) a ≡ some c)
        × (c.array.contents ≡ xs)
        × (c.array.dtype ≡ b.array.dtype)
  get_elem?-overwrite [] a b xs e = absurd (ground arith)
  get_elem?-overwrite (c ∷ bs) zero b xs e =
      (record c { array = record c.array { contents = xs } }, refl, refl, ground arith)
  get_elem?-overwrite (c ∷ bs) (suc a) b xs e = get_elem?-overwrite bs a b xs e

  overwrite-kept :
      (bs : List (Buffer A)) (i a : ℕ) (b : Buffer A) (xs : List A)
      → get_elem? bs i ≡ some b
      → (c : Buffer A) × (get_elem? (overwrite bs a xs) i ≡ some c)
        × (c.array.dtype ≡ b.array.dtype)
  overwrite-kept [] i a b xs e = absurd (ground arith)
  overwrite-kept (c ∷ bs) zero zero b xs e =
      (record c { array = record c.array { contents = xs } }, refl, ground arith)
  overwrite-kept (c ∷ bs) zero (suc a) b xs e = (c, refl, ground arith)
  overwrite-kept (c ∷ bs) (suc i) zero b xs e = (b, e, refl)
  overwrite-kept (c ∷ bs) (suc i) (suc a) b xs e = overwrite-kept bs i a b xs e

  -- Copies replace no buffer, and the last one is what is read.
  copied-last :
      (cs : List (ℕ × List A)) (bs : List (Buffer A)) (a : ℕ) (b : Buffer A) (xs : List A)
      → get_elem? bs a ≡ some b
      → (c : Buffer A) × (get_elem? (copied (cs ++ (a, xs) ∷ []) bs) a ≡ some c)
        × (c.array.contents ≡ xs)
        × (c.array.dtype ≡ b.array.dtype)
  copied-last [] bs a b xs e = get_elem?-overwrite bs a b xs e
  copied-last ((k, ys) ∷ cs) bs a b xs e =
      let (c, found, same) = overwrite-kept bs a k b ys e in
      let (d, there, all, ty) = copied-last cs (overwrite bs k ys) a c xs found in
      (d, there, all, ty ∙ same)

  -- A buffer that fits is there, and has the type of the tensor.
  fits-found :
      (like : Array A) (found : Option (Buffer A))
      → fits like found ≡ true
      → (b : Buffer A) × (found ≡ some b) × (b.array.dtype ≡ like.dtype)
  fits-found like none h = absurd (ground arith)
  fits-found like (some b) h = (b, refl, ground arith)

  at-some :
      (p : FullParam A) (o : Option ℕ) (b : Buffer A)
      → at p o ≡ some b
      → (a : ℕ) × (o ≡ some a) × (get_elem? p.buffers a ≡ some b)
  at-some p none b e = absurd (ground arith)
  at-some p (some a) b e = (a, refl, e)

  -- The buffer that `ensure_pinned_cpu_full_param` finds or makes.
  ensure_pinned-at :
      (memory : ℕ → A) (p : FullParam A)
      → (a : ℕ) × (b : Buffer A) × ((ensure_pinned_cpu_full_param memory p).cpu_full_param ≡ some a)
        × (get_elem? (ensure_pinned_cpu_full_param memory p).buffers a ≡ some b)
        × (b.array.dtype ≡ p.tensor.dtype)
        × ((ensure_pinned_cpu_full_param memory p).tensor ≡ p.tensor)
  unfolding ensure_pinned_cpu_full_param
  ensure_pinned-at memory p =
      let c = or_pool p.cpu_full_param p.cpu_full_param_pool in
      elim (fits p.tensor (at p c))
          as (λ t.
            fits p.tensor (at p c) ≡ t
            → (a : ℕ) × (b : Buffer A) × ((ensure_pinned_cpu_full_param memory p).cpu_full_param
                ≡ some a)
              × (get_elem? (ensure_pinned_cpu_full_param memory p).buffers a ≡ some b)
              × (b.array.dtype ≡ p.tensor.dtype)
              × ((ensure_pinned_cpu_full_param memory p).tensor ≡ p.tensor)) [
                | true ↦ λ h.
                    let (b, found, same) = fits-found p.tensor (at p c) h in
                    let (a, e, there) = at-some p c b found in rw h (a, b, e, there, same, refl)
                | false ↦ λ h. rw h (
                  length p.buffers,
                  empty_like memory p.tensor,
                  refl,
                  get_elem?-last p.buffers _,
                  refl,
                  refl,
                )
              ]
        refl

  enqueued-at :
      (q : FullParam A) (a : ℕ) (b : Buffer A)
      → q.cpu_full_param ≡ some a
      → get_elem? q.buffers a ≡ some b
      → (c : Buffer A) × (at
            (synchronize
              (record q { copies = enqueue q.cpu_full_param q.tensor.contents q.copies }))
            q.cpu_full_param
          ≡ some c)
        × (c.array.contents ≡ q.tensor.contents)
        × (c.array.dtype ≡ b.array.dtype)
  unfolding synchronize
  enqueued-at q a b e there =
      let (c, found, xs, ty) = copied-last q.copies q.buffers a b q.tensor.contents there in
      (c, rw e found, xs, ty)

  -- `save`, and the copies made.
  abbrev pub settled : (ℕ → A) → FullParam A → FullParam A
  settled memory p = synchronize (save memory p)

  save-kept :
      (memory : ℕ → A) (p : FullParam A)
      → ((settled memory p).tensor ≡ p.tensor)
        × ((settled memory p).ds_shape ≡ p.ds_shape)
        × ((settled memory p).ds_numel ≡ p.ds_numel)
        × ((settled memory p).ds_status ≡ p.ds_status)
        × (is_some (settled memory p).cpu_full_param ≡ true)
  unfolding save synchronize
  save-kept memory p =
      let (a, b, e, there, same, kept) = ensure_pinned-at memory p in
      (kept, ground arith, ground arith, ground arith, rw e refl)

  -- When the copy of `save` has been made, it is in the store.
  save-at :
      (memory : ℕ → A) (p : FullParam A)
      → (b : Buffer A) × (at (settled memory p) (settled memory p).cpu_full_param ≡ some b)
        × (b.array.contents ≡ p.tensor.contents)
        × (b.array.dtype ≡ p.tensor.dtype)
  unfolding save synchronize
  save-at memory p =
      let (a, b, e, there, same, kept) = ensure_pinned-at memory p in
      let (c, found, xs, ty) = enqueued-at (ensure_pinned_cpu_full_param memory p) a b e there in
      (c, found, xs ∙ ap (λ t. t.contents) kept, ty ∙ same)

  restore-found :
      (p : FullParam A) (b : Buffer A)
      → at p p.cpu_full_param ≡ some b
      → length b.array.contents ≡ p.ds_numel
      → numel p.ds_shape ≡ p.ds_numel
      → restore p
        ≡ ok (record p { tensor = record b.array { shape = p.ds_shape }; ds_status = available })
  unfolding restore
  restore-found p b e size shape =
      let s1 : (length b.array.contents == p.ds_numel) ≡ true = ground arith in
      let s2 : (numel p.ds_shape == length b.array.contents) ≡ true = ground arith in
      rw (e, s1, s2) refl

  array-eq :
      (t u : Array A) → t.contents ≡ u.contents → t.shape ≡ u.shape → t.dtype ≡ u.dtype → t ≡ u
  array-eq t u e f g =
      ap (λ x. record t { contents = x }) e
      ∙ ap (λ x. record t { contents = u.contents; shape = x }) f
      ∙ ap (λ x. record u { dtype = x }) g

  -- A parameter that is saved, freed and launched.
  abbrev pub launched : FullParam A → FullParam A
  launched p = record (free p) { ds_status = inflight }

  launched-restored :
      (memory : ℕ → A) (p : FullParam A)
      → IsWhole p
      → restore (launched (settled memory p)) ≡ ok (settled memory p)
  unfolding free
  launched-restored memory p (status, shape, size, full) =
      let s = settled memory p in
      let (b, found, xs, ty) = save-at memory p in
      let (same, shape', size', status', some') = save-kept memory p in
      let back : restore (launched s)
          ≡ ok
              (record s { tensor = record b.array { shape = s.ds_shape }; ds_status = available }) =
        restore-found (launched s) b found (ap length xs ∙ size ∙ sym size')
          (ap numel shape' ∙ full ∙ sym size') in
      let whole : record b.array { shape = s.ds_shape } ≡ s.tensor =
        array-eq _ _ (xs ∙ ap (λ u. u.contents) (sym same))
          (shape' ∙ sym shape ∙ ap (λ u. u.shape) (sym same)) (ty ∙ ap (λ u. u.dtype) (sym same)) in
      back
      ∙ ap (λ u. ok (record s { tensor = u; ds_status = available })) whole
      ∙ ap (λ u. ok (record s { ds_status = u })) (sym status ∙ sym status')

  abbrev pub AreWhole : List (FullParam A) → Type 0
  AreWhole [] = Unit
  AreWhole (p ∷ ps) = IsWhole p × AreWhole ps

  abbrev pub saved : (FullParam A → ℕ → A) → FullParam A → FullParam A
  saved memory p = settled (memory p) p

  launch-freed :
      (memory : FullParam A → ℕ → A) (ps : List (FullParam A))
      → launch (map (λ p. free (saved memory p)) ps) ≡ ok (map (λ p. launched (saved memory p)) ps)
  unfolding free
  launch-freed memory [] = refl
  launch-freed memory (p ∷ ps) = rw (launch-freed memory ps) refl

  all_copied-launched :
      (memory : FullParam A → ℕ → A) (ps : List (FullParam A))
      → all_copied (map (λ p. launched (saved memory p)) ps) ≡ true
  unfolding free
  all_copied-launched memory [] = refl
  all_copied-launched memory (p ∷ ps) =
      let (same, shape, size, status, some') = save-kept (memory p) p in
      rw some' (all_copied-launched memory ps)

  all_inflight-launched :
      (memory : FullParam A → ℕ → A) (ps : List (FullParam A))
      → all_inflight (map (λ p. launched (saved memory p)) ps) ≡ ok tt
  unfolding free
  all_inflight-launched memory [] = refl
  all_inflight-launched memory (p ∷ ps) = all_inflight-launched memory ps

  restore_all-launched :
      (memory : FullParam A → ℕ → A) (ps : List (FullParam A))
      → AreWhole ps
      → restore_all (map (λ p. launched (saved memory p)) ps)
        ≡ record { returned = ok tt; params = map (saved memory) ps }
  unfolding restore_all
  restore_all-launched memory [] h = refl
  restore_all-launched memory (p ∷ ps) (whole, rest) =
      rw (launched-restored (memory p) p whole, restore_all-launched memory ps rest) refl

  tensors-saved :
      (memory : FullParam A → ℕ → A) (ps : List (FullParam A))
      → map (λ p. p.tensor) (map (saved memory) ps) ≡ map (λ p. p.tensor) ps
  tensors-saved memory [] = refl
  tensors-saved memory (p ∷ ps) =
      let (same, shape, size, status, some') = save-kept (memory p) p in
      rw (same, tensors-saved memory ps) refl

  -- Parameters that are available and hold whole arrays of their shapes are copied to the CPU after a
  -- submodule's forward pass and freed, and all enqueued copies to the CPU, these and earlier ones,
  -- have been made. When the gather of the parameters is then requested with
  -- ENABLE_FULL_PARAM_TRANSFER set, it gives a handle that copies from the CPU, whatever the new
  -- buffers held, and its wait raises nothing and leaves the parameters as they were copied: available,
  -- and with the tensors that they had before.
  pub wait_copies-save :
      (memory : FullParam A → ℕ → A) (ps : List (FullParam A))
      → AreWhole ps
      → (h : CopyHandle A) × (gather_copies true
            (map (λ p. synchronize (free (save (memory p) p))) ps)
          ≡ ok (some h))
        × (wait_copies h ≡ (ok tt, record { params = map (saved memory) ps; is_complete = true }))
        × (map (λ p. p.tensor) (map (saved memory) ps) ≡ map (λ p. p.tensor) ps)
  unfolding gather_copies wait_copies free synchronize
  wait_copies-save memory ps whole = (
    record { params = map (λ p. launched (saved memory p)) ps; is_complete = false },
    rw (launch-freed memory ps, all_copied-launched memory ps, all_inflight-launched memory ps)
        refl,
    rw (restore_all-launched memory ps whole) refl,
    tensors-saved memory ps,
  )
