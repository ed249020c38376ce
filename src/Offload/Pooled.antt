-- ===== src/Offload/Pooled.antt =====
-- The pool of CPU tensors: a parameter's pinned memory is allocated once.
use understanding_smartnic.Prelude.{
  take, zero, suc, ℕ, ◌≤◌, ◌≡◌, refl, sym, ap, ◌∙◌, List, [], ◌∷◌, Option, none, some, Bool, true,
  false, ◌==◌, ◌⊎◌, inl, inr, length, get_elem?, ok, guard, ◌>>◌, runtime_error, arith,
}
use understanding_smartnic.Partition.{available}
use understanding_smartnic.Offload.FullCopy.{
  FullParam, make_copies, copied, empty_like, Buffer, numel, at, fits, same_shape, or_pool, save,
  free, stash, restore, restore_from,
}

same_shape_refl : (ns : List ℕ) → same_shape ns ns ≡ true
same_shape_refl [] = refl
same_shape_refl (n ∷ ns) = let e : (n == n) ≡ true = ground arith in rw e (same_shape_refl ns)

or_pool-zero : (o : Option ℕ) → (o ≡ none) ⊎ (o ≡ some 0) → or_pool o (some 0) ≡ some 0
or_pool-zero o (inl e) = rw e refl
or_pool-zero o (inr e) = rw e refl

module _ {ℓ} {A : Type ℓ} where
  -- A gather of shards gives the parameter a whole array.
  abbrev pub gathered : List A → FullParam A → FullParam A
  gathered xs p = record p {
    tensor = record p.tensor { contents = xs; shape = p.ds_shape };
    ds_status = available;
  }

  -- What the hooks and the gathers do with one parameter: a copy to the CPU is made of a whole array.
  pub data Step (p : FullParam A) : FullParam A → Type ℓ where
    saving : (memory : ℕ → A) → p.tensor.shape ≡ p.ds_shape → Step p (save memory p)
    gathering : (xs : List A) → Step p (gathered xs p)
    copying : (n : ℕ) → Step p (make_copies n p)
    freeing : Step p (free p)
    stashing : Step p (stash p)
    restoring : (q : FullParam A) → restore p ≡ ok q → Step p q

  pub data Steps : FullParam A → FullParam A → Type ℓ where
    start : (p : FullParam A) → Steps p p
    next : (p q r : FullParam A) → Step p q → Steps q r → Steps p r

  -- The one buffer of a parameter that has used its pool.
  pub IsPinned : FullParam A → Buffer A → Type 0
  IsPinned p b =
      (b.on_cpu ≡ true)
      × (b.is_pinned ≡ true)
      × (b.array.shape ≡ p.ds_shape)
      × (b.array.dtype ≡ p.tensor.dtype)

  pub data IsPooled (p : FullParam A) : Type ℓ where
    unused : p.buffers ≡ [] → p.cpu_full_param ≡ none → p.cpu_full_param_pool ≡ none → IsPooled p
    used :
        (b : Buffer A)
        → p.buffers ≡ b ∷ []
        → p.cpu_full_param_pool ≡ some 0
        → (p.cpu_full_param ≡ none) ⊎ (p.cpu_full_param ≡ some 0)
        → IsPinned p b
        → IsPooled p

  fits-IsPinned :
      (p : FullParam A) (b : Buffer A)
      → p.tensor.shape ≡ p.ds_shape
      → IsPinned p b
      → fits p.tensor (some b) ≡ true
  unfolding IsPinned
  fits-IsPinned p b e (c, d, s, t) =
      let shape : same_shape b.array.shape p.tensor.shape ≡ true =
        rw (s ∙ sym e) (same_shape_refl p.tensor.shape) in
      let ty : (b.array.dtype == p.tensor.dtype) ≡ true = ground arith in rw (c, d, shape, ty) refl

  save-IsPooled :
      (memory : ℕ → A) (p : FullParam A)
      → p.tensor.shape ≡ p.ds_shape
      → IsPooled p
      → IsPooled (save memory p)
  unfolding save IsPinned
  save-IsPooled memory p e (unused none_yet c d) =
      let f : fits p.tensor (at p (or_pool p.cpu_full_param p.cpu_full_param_pool)) ≡ false =
        rw (c, d) refl in
      let b : Buffer A = empty_like memory p.tensor in
      rw f (
        used b (rw none_yet refl) (rw none_yet refl) (inr (rw none_yet refl)) (refl, refl, e, refl))
  save-IsPooled memory p e (used b one pool cpu pinned) =
      let o : or_pool p.cpu_full_param p.cpu_full_param_pool ≡ some 0 =
        rw pool (or_pool-zero p.cpu_full_param cpu) in
      let f : fits p.tensor (at p (or_pool p.cpu_full_param p.cpu_full_param_pool)) ≡ true =
        rw (o, one) (fits-IsPinned p b e pinned) in
      rw f (used b one pool (inr o) pinned)

  stash-IsPooled : (p : FullParam A) → IsPooled p → IsPooled (stash p)
  unfolding stash IsPinned
  stash-IsPooled p (unused none_yet c d) = unused none_yet refl (rw (c, d) refl)
  stash-IsPooled p (used b one pool (inl c) pinned) =
      used b one (rw (c, pool) refl) (inl refl) pinned
  stash-IsPooled p (used b one pool (inr c) pinned) =
      used b one (rw (c, pool) refl) (inl refl) pinned

  gather-IsPooled : (p : FullParam A) (xs : List A) → IsPooled p → IsPooled (gathered xs p)
  unfolding IsPinned
  gather-IsPooled p xs (unused none_yet c d) = unused none_yet c d
  gather-IsPooled p xs (used b one pool cpu pinned) = used b one pool cpu pinned

  copied-one :
      (cs : List (ℕ × List A)) (b : Buffer A)
      → (xs : List A) × (copied cs (b ∷ [])
          ≡ record b { array = record b.array { contents = xs } } ∷ [])
  copied-one [] b = (b.array.contents, refl)
  copied-one ((zero, xs) ∷ cs) b =
      copied-one cs (record b { array = record b.array { contents = xs } })
  copied-one ((suc a, xs) ∷ cs) b = copied-one cs b

  copied-none : (cs : List (ℕ × List A)) → copied cs [] ≡ []
  copied-none [] = refl
  copied-none ((a, xs) ∷ cs) = copied-none cs

  copy-IsPooled : (p : FullParam A) (n : ℕ) → IsPooled p → IsPooled (make_copies n p)
  unfolding make_copies IsPinned
  copy-IsPooled p n (unused none_yet c d) =
      unused (ap (copied (take n p.copies)) none_yet ∙ copied-none (take n p.copies)) c d
  copy-IsPooled p n (used b one pool cpu pinned) =
      let (xs, same) = copied-one (take n p.copies) b in
      used (record b { array = record b.array { contents = xs } })
        (ap (copied (take n p.copies)) one ∙ same) pool cpu pinned

  free-IsPooled : (p : FullParam A) → IsPooled p → IsPooled (free p)
  unfolding free IsPinned
  free-IsPooled p (unused none_yet c d) = unused none_yet c d
  free-IsPooled p (used b one pool cpu pinned) = used b one pool cpu pinned

  guards-passed :
      (s t : Bool) (p q : FullParam A)
      → (guard s runtime_error >> (guard t runtime_error >> ok p)) ≡ ok q
      → q ≡ p
  guards-passed false t p q e = cc
  guards-passed true false p q e = cc
  guards-passed true true p q e = cc

  restore-found :
      (p q : FullParam A) (found : Option (Buffer A))
      → restore_from p found ≡ ok q
      → (b : Buffer A) × (found ≡ some b)
        × (q ≡ record p { tensor = record b.array { shape = p.ds_shape }; ds_status = available })
  restore-found p q none e = cc
  restore-found p q (some b) e = (
    b,
    refl,
    guards-passed (length b.array.contents == p.ds_numel)
        (numel p.ds_shape == length b.array.contents) _ q e,
  )

  found-at :
      (p : FullParam A) (b c : Buffer A) → p.buffers ≡ b ∷ [] → at p (some 0) ≡ some c → b ≡ c
  found-at p b c one e = let there : some b ≡ some c = ap (λ bs. get_elem? bs 0) (sym one) ∙ e in cc

  restore-IsPooled : (p q : FullParam A) → restore p ≡ ok q → IsPooled p → IsPooled q
  unfolding restore IsPinned
  restore-IsPooled p q e h =
      let (b, found, same) = restore-found p q (at p p.cpu_full_param) e in
      rw same (elim h [
        | unused none_yet c d ↦ unused none_yet c d
        | used b' one pool (inl c) (x, y, s, t) ↦
            let missing : none ≡ some b = ap (at p) (sym c) ∙ found in cc
        | used b' one pool (inr c) (x, y, s, t) ↦
            let eq : b' ≡ b = found-at p b' b one (ap (at p) (sym c) ∙ found) in
            used b' one pool (inr c) (x, y, s, ap (λ z. z.array.dtype) eq)
      ])

  Step-IsPooled : (p q : FullParam A) → Step p q → IsPooled p → IsPooled q
  Step-IsPooled p _ (saving memory e) h = save-IsPooled memory p e h
  Step-IsPooled p _ (gathering xs) h = gather-IsPooled p xs h
  Step-IsPooled p _ (copying n) h = copy-IsPooled p n h
  Step-IsPooled p _ freeing h = free-IsPooled p h
  Step-IsPooled p _ stashing h = stash-IsPooled p h
  Step-IsPooled p _ (restoring q e) h = restore-IsPooled p q e h

  Steps-IsPooled : (p q : FullParam A) → Steps p q → IsPooled p → IsPooled q
  Steps-IsPooled _ _ (start p) h = h
  Steps-IsPooled _ _ (next p q r step rest) h = Steps-IsPooled q r rest (Step-IsPooled p q step h)

  IsPooled-one : (p : FullParam A) → IsPooled p → length p.buffers ≤ 1
  IsPooled-one p (unused none_yet c d) = rw none_yet (omega arith)
  IsPooled-one p (used b one pool cpu pinned) = rw one (omega arith)

  -- Whatever copies, gathers, releases and restores follow, a parameter that starts without CPU tensors
  -- allocates at most one: later copies use it again. The copies are made of whole arrays.
  pub Steps-one :
      (p q : FullParam A)
      → p.buffers ≡ []
      → p.cpu_full_param ≡ none
      → p.cpu_full_param_pool ≡ none
      → Steps p q
      → length q.buffers ≤ 1
  Steps-one p q none_yet c d steps = IsPooled-one q (Steps-IsPooled p q steps (unused none_yet c d))
