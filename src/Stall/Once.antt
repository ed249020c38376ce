-- ===== src/Stall/Once.antt =====
-- No bracket is recorded twice.
use understanding_smartnic.Prelude.{
  ℕ, ◌+◌, ◌≤◌, ◌≡◌, ◌≢◌, refl, sym, ap, inl, inr, List, [], ◌∷◌, ◌++◌, Option, none, some, Bool,
  true, false, ◌||◌, ◌==◌, if◌then◌else◌, ℤ, Bool-cases, Option-cases, arith,
}
use mathlib.Core.Path.{subst}
use understanding_smartnic.Stall.{
  Bracket, Entry, StallEventTracker, World, Op, begins, ends, drains, freezes, counts, init, begin,
  end, drain, entries_of, freeze, set_iter, set_epoch, find, forget, hold, step, run,
}

none≢some {ℓ} : {A : Type ℓ} {a : A} → none ≢ some a
none≢some e = cc

module _ {Label : Type 0} where
  -- How often a number is among the brackets.
  abbrev pub times : ℕ → List (Bracket Label) → ℕ
  times i [] = 0
  times i (b ∷ bs) = (if i == b.ag_id then 1 else 0) + times i bs

  times-append :
      (i : ℕ) (xs ys : List (Bracket Label)) → times i (xs ++ ys) ≡ times i xs + times i ys
  times-append i [] ys = omega arith
  times-append i (x ∷ xs) ys = omega (arith, times-append i xs ys)

  -- A found handle has the number, and forgetting takes one of them.
  times-forget :
      (i k : ℕ) (bs : List (Bracket Label)) (b : Bracket Label)
      → find i bs ≡ some b
      → times k (forget i bs) + (if k == b.ag_id then 1 else 0) ≡ times k bs
  unfolding find forget
  times-forget i k [] b e = cc
  times-forget i k (c ∷ cs) b e = elim (Bool-cases (i == c.ag_id)) [
    | inl f ↦
        let found : some c ≡ some b = rw (find, f) at e in
        let same : c.ag_id ≡ b.ag_id =
          ap (λ o. elim o [ none ↦ c.ag_id | some x ↦ x.ag_id ]) found in
        rw (f, same) (omega arith)
    | inr f ↦
        let later : find i cs ≡ some b = rw (find, f) at e in
        rw f (omega (arith, times-forget i k cs b later))
  ]

  forget-none : (i : ℕ) (bs : List (Bracket Label)) → find i bs ≡ none → forget i bs ≡ bs
  unfolding find forget
  forget-none i [] e = refl
  forget-none i (c ∷ cs) e = elim (Bool-cases (i == c.ag_id)) [
    | inl f ↦ absurd (none≢some (sym (rw (find, f) at e)))
    | inr f ↦ rw f (ap (◌∷◌ c) (forget-none i cs (rw (find, f) at e)))
  ]

module _ {Label Ms : Type 0} where
  abbrev pub times_recorded : ℕ → List (Entry Label Ms) → ℕ
  times_recorded i [] = 0
  times_recorded i (r ∷ rs) = (if i == r.ag_id then 1 else 0) + times_recorded i rs

  recorded-append :
      (i : ℕ) (xs ys : List (Entry Label Ms))
      → times_recorded i (xs ++ ys) ≡ times_recorded i xs + times_recorded i ys
  recorded-append i [] ys = omega arith
  recorded-append i (x ∷ xs) ys = omega (arith, recorded-append i xs ys)

  -- How often a number is anywhere.
  abbrev pub total : ℕ → World Label Ms → ℕ
  total i w = times i w.held + times i w.tracker.pending + times_recorded i w.tracker.records

  -- Every number is in one place at most, and numbers not given out are in none.
  abbrev pub IsOnce : World Label Ms → Type 0
  IsOnce w = (i : ℕ) → (total i w ≤ 1) × (w.tracker.counter ≤ i → total i w ≡ 0)

  recorded-entries_of :
      (i : ℕ) (epoch : ℤ) (elapsed : Bracket Label → Option Ms) (neg : Ms → Bool) (z : Ms)
      (bs : List (Bracket Label))
      → times_recorded i (entries_of epoch elapsed neg z bs) ≤ times i bs
  unfolding entries_of
  recorded-entries_of i epoch elapsed neg z [] = omega arith
  recorded-entries_of i epoch elapsed neg z (b ∷ bs) =
      let ih = recorded-entries_of i epoch elapsed neg z bs in
      elim (Option-cases (elapsed b)) [
        | inl e ↦ rw (entries_of, e) (omega (arith, ih))
        | inr (ms, e) ↦ rw (entries_of, e) (omega (arith, ih))
      ]

  -- What `drain` keeps and records was pending or recorded, no oftener than before.
  drain-total :
      (i : ℕ) (synced : Bool) (elapsed : Bracket Label → Option Ms) (neg : Ms → Bool) (z : Ms)
      (t : StallEventTracker Label Ms)
      → (times i (drain synced elapsed neg z t).pending
            + times_recorded i (drain synced elapsed neg z t).records
          ≤ times i t.pending + times_recorded i t.records)
        × ((drain synced elapsed neg z t).counter ≡ t.counter)
  unfolding drain
  drain-total i synced elapsed neg z t =
      let read = entries_of t.epoch_idx elapsed neg z t.pending in
      let few = recorded-entries_of i t.epoch_idx elapsed neg z t.pending in
      elim (Bool-cases (t.frozen || elim t.pending [ [] ↦ true | b ∷ bs ↦ false ])) [
        | inl e ↦ rw e (omega arith, refl)
        | inr e ↦ elim (Bool-cases synced) [
          | inl f ↦ rw (e, f) (omega (arith, few, recorded-append i t.records read), refl)
          | inr f ↦ rw (e, f) (omega arith, refl)
        ]
      ]

  -- A number that is in one place at most, and in none if it was not given out.
  abbrev OnceAt : ℕ → List (Bracket Label) → StallEventTracker Label Ms → Type 0
  OnceAt i held t =
      (times i held + times i t.pending + times_recorded i t.records ≤ 1)
      × (t.counter ≤ i → times i held + times i t.pending + times_recorded i t.records ≡ 0)

  end-IsOnce :
      (i k : ℕ) (recorded : Bool) (b : Bracket Label) (w : World Label Ms)
      → find k w.held ≡ some b
      → OnceAt i w.held w.tracker
      → OnceAt i (forget k w.held) (end recorded (some b) w.tracker)
  unfolding end
  end-IsOnce i k true b w e (one, fresh) =
      let moved = times-forget k i w.held b e in
      let last = times-append i w.tracker.pending (b ∷ []) in
      (omega (arith, moved, last), λ le. let gone = fresh le in omega (arith, moved, last))
  end-IsOnce i k false b w e (one, fresh) =
      let moved = times-forget k i w.held b e in
      (omega (arith, moved), λ le. let gone = fresh le in omega (arith, moved))

  step-IsOnce :
      (neg : Ms → Bool) (z : Ms) (o : Op Label Ms) (w : World Label Ms)
      → IsOnce w
      → IsOnce (step neg z o w)
  unfolding step begin end freeze set_iter set_epoch hold
  step-IsOnce neg z (begins true label) w h i = let (one, fresh) = h i in ground arith
  step-IsOnce neg z (begins false label) w h i = h i
  step-IsOnce neg z (ends recorded k) w h i = elim (Option-cases (find k w.held)) [
    | inl e ↦ rw (e, forget-none k w.held e) (h i)
    | inr (b, e) ↦ rw e (end-IsOnce i k recorded b w e (h i))
  ]
  step-IsOnce neg z (drains synced elapsed) w h i =
      let (few, same) = drain-total i synced elapsed neg z w.tracker in
      let (one, fresh) = h i in
      (omega arith, λ le. let none_left = fresh (subst (λ k. k ≤ i) same le) in omega arith)
  step-IsOnce neg z freezes w h i = h i
  step-IsOnce neg z (counts iter epoch) w h i = h i

  run_from :
      (neg : Ms → Bool) (z : Ms) (os : List (Op Label Ms)) (w : World Label Ms)
      → IsOnce w
      → IsOnce (run neg z os w)
  unfolding run
  run_from neg z [] w h = h
  run_from neg z (o ∷ os) w h = run_from neg z os (step neg z o w) (step-IsOnce neg z o w h)

init-IsOnce :
    (Label Ms : Type 0) → IsOnce (record { tracker = init {Label = Label} {Ms = Ms}; held = [] })
unfolding init
init-IsOnce Label Ms i = (omega arith, λ le. refl)

module _ {Label Ms : Type 0} where
  -- From a new tracker, whatever brackets its callers begin and end, whichever events fail and
  -- whenever it is drained or frozen, every bracket number is in at most one place: held by a
  -- caller, queued, or recorded. So no wait is counted twice, and no two records share a number.
  pub run-IsOnce :
      (neg : Ms → Bool) (z : Ms) (os : List (Op Label Ms))
      → IsOnce (run neg z os (record { tracker = init; held = [] }))
  run-IsOnce neg z os =
      run_from neg z os (record { tracker = init; held = [] }) (init-IsOnce Label Ms)
