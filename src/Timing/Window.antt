-- ===== src/Timing/Window.antt =====
-- What the statistics hold after any samples.
use understanding_smartnic.Prelude.{
  ℕ, zero, suc, ◌+◌, ◌-◌, ◌%◌, ◌≤◌, ◌<◌, ◌≡◌, refl, sym, ap, ◌∙◌, inl, inr, List, [], ◌∷◌, ◌++◌,
  Option, none, some, true, false, if◌then◌else◌, ltb, leb, length, set, drop, length-append,
  length-drop, drop-length, Bool-cases, arith,
}
use mathlib.Core.Path.{subst}
use mathlib.Core.List.{append-nil, append_assoc}
use native.Mathlib.Decide.{dec_le, dec_lt}
use understanding_smartnic.Timing.{Float, Stat, new, keep, tally, add, add_all}
use understanding_smartnic.Timing.Ring.{IsRing, IsRing-append, IsRing-set}

drop-append_le {ℓ} :
    {A : Type ℓ} (n : ℕ) (xs ys : List A) → n ≤ length xs → drop n (xs ++ ys) ≡ drop n xs ++ ys
drop-append_le zero xs ys h = refl
drop-append_le (suc n) [] ys h = absurd (omega arith)
drop-append_le (suc n) (x ∷ xs) ys h = drop-append_le n xs ys (omega arith)

module _ {F : Type 0} where
  -- The samples that count: those that are there and not negative.
  unfoldable pub valid : Float F → List (Option F) → List F
  valid float [] = []
  valid float (none ∷ xs) = valid float xs
  valid float (some x ∷ xs) =
      let rest = valid float xs in if float.is_less x float.zero_s then rest else x ∷ rest

  -- The statistics after the valid samples `vs`.
  abbrev pub Holds : ℕ → ℕ → List F → Stat F → Type 0
  Holds warmup cap vs s =
      (s.warmup_n ≡ warmup)
      × (s.sample_cap ≡ cap)
      × (s.seen ≡ length vs)
      × (s.count ≡ length vs - warmup)
      × IsRing cap (drop warmup vs) s.samples

  keep-Holds :
      (float : Float F) (warmup cap : ℕ) (vs : List F) (x : F) (s : Stat F)
      → 0 < cap
      → warmup ≤ length vs
      → Holds warmup cap vs s
      → Holds warmup cap (vs ++ x ∷ []) (keep x (tally float x (record s { seen = suc s.seen })))
  unfolding keep tally
  keep-Holds float warmup cap vs x s pos late (w, c, seen, count, (size, at)) =
      let n : length (vs ++ x ∷ []) ≡ length vs + 1 = length-append vs (x ∷ []) in
      let tail : drop warmup (vs ++ x ∷ []) ≡ drop warmup vs ++ x ∷ [] =
        drop-append_le warmup vs (x ∷ []) late in
      let left : length (drop warmup vs) ≡ length vs - warmup = length-drop warmup vs in
      let some_cap : ltb 0 s.sample_cap ≡ true = ground arith in
      elim (dec_lt (length s.samples) cap) [
        | yes room ↦
            let e : ltb (length s.samples) s.sample_cap ≡ true = ground arith in
            rw (some_cap, e)
              (
                w,
                c,
                omega arith,
                omega arith,
                subst (λ ys. IsRing cap ys (s.samples ++ x ∷ [])) (sym tail)
                    (IsRing-append cap (drop warmup vs) s.samples x pos room (size, at)),
              )
        | no full ↦
            let e : ltb (length s.samples) s.sample_cap ≡ false = ground arith in
            let index : (suc s.count - 1) % s.sample_cap ≡ length (drop warmup vs) % cap =
              ap (λ k. k % s.sample_cap) (omega arith) ∙ ap (λ k. length (drop warmup vs) % k) c in
            rw (some_cap, e, index)
              (
                w,
                c,
                omega arith,
                omega arith,
                subst (λ ys. IsRing cap ys (set s.samples (length (drop warmup vs) % cap) x))
                    (sym tail)
                    (IsRing-set cap (drop warmup vs) s.samples x pos (omega arith) (size, at)),
              )
      ]

  add-Holds :
      (float : Float F) (warmup cap : ℕ) (vs : List F) (x : F) (s : Stat F)
      → 0 < cap
      → float.is_less x float.zero_s ≡ false
      → Holds warmup cap vs s
      → Holds warmup cap (vs ++ x ∷ []) (add float (some x) s)
  unfolding add
  add-Holds float warmup cap vs x s pos good h = elim (dec_le warmup (length vs)) [
    | yes late ↦
        let (w, c, seen, count, ring) = h in
        let e : leb (suc s.seen) s.warmup_n ≡ false = ground arith in
        rw (good, e) (keep-Holds float warmup cap vs x s pos late h)
    | no early ↦
        let (w, c, seen, count, (size, at)) = h in
        let e : leb (suc s.seen) s.warmup_n ≡ true = ground arith in
        let n : length (vs ++ x ∷ []) ≡ length vs + 1 = length-append vs (x ∷ []) in
        let nothing : drop warmup vs ≡ [] = drop-length vs warmup (omega arith) in
        let same : drop warmup (vs ++ x ∷ []) ≡ [] =
          drop-length (vs ++ x ∷ []) warmup (omega arith) in
        rw (good, e)
          (
            w,
            c,
            omega arith,
            omega arith,
            subst (λ ys. IsRing cap ys s.samples) (nothing ∙ sym same) (size, at),
          )
  ]

  add-negative :
      (float : Float F) (x : F) (s : Stat F)
      → float.is_less x float.zero_s ≡ true
      → add float (some x) s ≡ s
  unfolding add
  add-negative float x s e = rw e refl

  valid-negative :
      (float : Float F) (x : F) (xs : List (Option F))
      → float.is_less x float.zero_s ≡ true
      → valid float (some x ∷ xs) ≡ valid float xs
  unfolding valid
  valid-negative float x xs e = rw e refl

  valid-cons :
      (float : Float F) (x : F) (xs : List (Option F))
      → float.is_less x float.zero_s ≡ false
      → valid float (some x ∷ xs) ≡ x ∷ valid float xs
  unfolding valid
  valid-cons float x xs e = rw e refl

  add_all-Holds :
      (float : Float F) (warmup cap : ℕ) (xs : List (Option F)) (vs : List F) (s : Stat F)
      → 0 < cap
      → Holds warmup cap vs s
      → Holds warmup cap (vs ++ valid float xs) (add_all float xs s)
  unfolding add_all valid
  add_all-Holds float warmup cap [] vs s pos h =
      subst (λ ys. Holds warmup cap ys s) (sym (append-nil vs)) h
  add_all-Holds float warmup cap (none ∷ xs) vs s pos h =
      add_all-Holds float warmup cap xs vs s pos h
  add_all-Holds float warmup cap (some x ∷ xs) vs s pos h =
      elim (Bool-cases (float.is_less x float.zero_s)) [
        | inl bad ↦
            subst (λ t. Holds warmup cap (vs ++ valid float (some x ∷ xs)) (add_all float xs t))
              (sym (add-negative float x s bad))
              (subst (λ ys. Holds warmup cap (vs ++ ys) (add_all float xs s))
                (sym (valid-negative float x xs bad))
                (add_all-Holds float warmup cap xs vs s pos h))
        | inr good ↦
            subst (λ ys. Holds warmup cap (vs ++ ys) (add_all float xs (add float (some x) s)))
              (sym (valid-cons float x xs good))
              (subst (λ ys. Holds warmup cap ys (add_all float xs (add float (some x) s)))
                (append_assoc vs (x ∷ []) (valid float xs))
                (add_all-Holds float warmup cap xs (vs ++ x ∷ []) (add float (some x) s) pos
                  (add-Holds float warmup cap vs x s pos good h)))
      ]

  new-Holds :
      (float : Float F) (warmup cap : ℕ) → 0 < cap → Holds warmup cap [] (new float warmup cap)
  unfolding new
  new-Holds float warmup cap pos = (
    refl,
    refl,
    refl,
    omega arith,
    subst (λ ys. IsRing cap ys []) (sym (drop-length {A = F} [] warmup (omega arith)))
        (omega arith, λ i h k. absurd (omega arith)),
  )

  -- After any samples, with a positive capacity: `seen` counts the samples that are there and not
  -- negative, `count` those of them after the warm-up, and the ring holds exactly the latest of
  -- these, as many as fit, each at its index modulo the capacity.
  pub add_all-samples :
      (float : Float F) (warmup cap : ℕ) (xs : List (Option F))
      → 0 < cap
      → Holds warmup cap (valid float xs) (add_all float xs (new float warmup cap))
  add_all-samples float warmup cap xs pos =
      add_all-Holds float warmup cap xs [] (new float warmup cap) pos
        (new-Holds float warmup cap pos)
