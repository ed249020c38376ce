-- ===== src/Coordinator/Expected.antt =====
-- The queue that `fetch_sub_module` expects: it starts with entries of exactly the parameters of the
-- submodule that this step has not met yet.
use understanding_smartnic.Prelude.{
  ℕ, ◌≡◌, ◌≤◌, ◌<◌, inl, inr, refl, sym, ◌∙◌, ap, List, [], ◌∷◌, ◌++◌, map, Option, Bool, true,
  false, ◌&&◌, ◌||◌, ltb, ◌==◌, length, is_in, is_subset, is_same_set, add, discard, some,
  is_in-head, is_in-cons, is_in-add_self, is_in-add_ne, Distinct-add, Distinct-ne, is_in-discard_ne,
  Distinct, Bool-cases, arith,
}
use mathlib.Core.Bool.{true≢false}
use native.Mathlib.Decide.{ℕ_discrete}
use understanding_smartnic.Coordinator.{ParamInTrace, put}
use understanding_smartnic.Coordinator.Fetch.{is_before, not_fetched, discard_queue}

-- A parameter of the submodule that was not met at this step or later.
abbrev pub is_awaited : (ℕ → Option ℕ) → ℕ → List ℕ → ℕ → Bool
is_awaited recent step ps q = is_in q ps && is_before (recent q) step

-- The queue starts with entries of these parameters, of each at least one.
abbrev pub Awaits : (ℕ → Bool) → List ParamInTrace → Type 0
Awaits awaited queue =
    (front : List ParamInTrace) × (rest : List ParamInTrace) × (queue ≡ front ++ rest)
    × ((q : ℕ) → is_in q (map (λ t. t.param) front) ≡ awaited q)

is_in-not_fetched :
    (recent : ℕ → Option ℕ) (step : ℕ) (ps : List ℕ) (q : ℕ)
    → is_in q (not_fetched recent step ps) ≡ is_awaited recent step ps q
unfolding not_fetched
is_in-not_fetched recent step [] q = refl
is_in-not_fetched recent step (p ∷ ps) q = elim (ℕ_discrete q p) [
  | yes e ↦ rw e (ground (arith, is_in-not_fetched recent step ps p))
  | no n ↦ ground (arith, is_in-not_fetched recent step ps q)
]

Distinct-not_fetched :
    (recent : ℕ → Option ℕ) (step : ℕ) (ps : List ℕ)
    → Distinct ps
    → Distinct (not_fetched recent step ps)
unfolding not_fetched
Distinct-not_fetched recent step [] d = tt
Distinct-not_fetched recent step (p ∷ ps) d = elim (Bool-cases (is_before (recent p) step)) [
  | inl e ↦ rw e (
    is_in-not_fetched recent step ps p ∙ rw (d.0) refl,
    Distinct-not_fetched recent step ps (d.1),
  )
  | inr e ↦ rw e (Distinct-not_fetched recent step ps (d.1))
]

-- Sets of numbers, and their sizes.
is_subset-in :
    (xs ys : List ℕ) → is_subset xs ys ≡ true → (q : ℕ) → is_in q xs ≡ true → is_in q ys ≡ true
is_subset-in [] ys e q i = cc
is_subset-in (x ∷ xs) ys e q i = elim (ℕ_discrete q x) [
  | yes k ↦ rw k (ground (arith, e))
  | no n ↦ is_subset-in xs ys (ground (arith, e)) q (ground (arith, i))
]

in-is_subset :
    (xs ys : List ℕ) → ((q : ℕ) → is_in q xs ≡ true → is_in q ys ≡ true) → is_subset xs ys ≡ true
in-is_subset [] ys h = refl
in-is_subset (x ∷ xs) ys h =
    let first : is_in x ys ≡ true = h x (ground arith) in
    rw first (in-is_subset xs ys (λ q i. h q (ground (arith, i))))

is_same_set-in : (xs ys : List ℕ) → is_same_set xs ys ≡ true → (q : ℕ) → is_in q xs ≡ is_in q ys
is_same_set-in xs ys e q =
    let a : is_subset xs ys ≡ true = ground (arith, e) in
    let b : is_subset ys xs ≡ true = ground (arith, e) in
    elim (Bool-cases (is_in q xs)) [
      | inl i ↦ i ∙ sym (is_subset-in xs ys a q i)
      | inr i ↦ elim (Bool-cases (is_in q ys)) [
        | inr j ↦ i ∙ sym j
        | inl j ↦ absurd (true≢false (sym (is_subset-in ys xs b q j) ∙ i))
      ]
    ]

or_false : (b : Bool) → (b || false) ≡ b
or_false b = ground arith

is_in-moved :
    (q p : ℕ) (set ps : List ℕ)
    → (is_in q (add p set) || is_in q ps) ≡ (is_in q set || is_in q (p ∷ ps))
is_in-moved q p set ps = elim (ℕ_discrete q p) [
  | yes e ↦ rw e (rw (is_in-add_self p set) (ground arith))
  | no n ↦ rw (is_in-add_ne p q set n) (ground arith)
]

length-discard_le : (x : ℕ) (ys : List ℕ) → length (discard x ys) ≤ length ys
length-discard_le x [] = omega arith
length-discard_le x (y ∷ ys) = ground (arith, length-discard_le x ys)

length-discard : (x : ℕ) (ys : List ℕ) → is_in x ys ≡ true → length (discard x ys) < length ys
length-discard x [] i = cc
length-discard x (y ∷ ys) i = elim (Bool-cases (x == y)) [
  | inl e ↦ rw e (omega (arith, length-discard_le x ys))
  | inr e ↦
      let there : is_in x ys ≡ true = ground (arith, i) in
      rw e (omega (arith, length-discard x ys there))
]

length-subset :
    (xs ys : List ℕ)
    → Distinct xs
    → ((q : ℕ) → is_in q xs ≡ true → is_in q ys ≡ true)
    → length xs ≤ length ys
length-subset [] ys d h = omega arith
length-subset (x ∷ xs) ys d h =
    let less = length-discard x ys (h x (is_in-head x xs)) in
    let rest =
      length-subset xs (discard x ys) (d.1)
        (λ q i. is_in-discard_ne x q ys (Distinct-ne x q xs d i) ∙ h q (is_in-cons q x xs i)) in
    omega (arith, less, rest)

-- A set within another that is not larger is the other.
whole_subset :
    (xs ys : List ℕ)
    → Distinct xs
    → ((q : ℕ) → is_in q xs ≡ true → is_in q ys ≡ true)
    → length ys ≤ length xs
    → (q : ℕ) → is_in q xs ≡ is_in q ys
whole_subset xs ys d h l q = elim (Bool-cases (is_in q xs)) [
  | inl i ↦ i ∙ sym (h q i)
  | inr i ↦ elim (Bool-cases (is_in q ys)) [
    | inr j ↦ i ∙ sym j
    | inl j ↦
        let more =
          length-subset (q ∷ xs) ys (i, d)
            (λ r k. elim (ℕ_discrete r q) [ yes e ↦ rw e j | no n ↦ h r (ground (arith, k)) ]) in
        absurd (omega (arith, more, l))
  ]
]

-- The loop over the queue takes entries from its front.
discard_queue-split :
    (n : ℕ) (ts : List ParamInTrace) (recent : ℕ → Option ℕ) (set : List ℕ)
    → (front : List ParamInTrace) × (rest : List ParamInTrace) × (ts ≡ front ++ rest)
      × ((q : ℕ)
          → is_in q (discard_queue n ts recent set).chosen
            ≡ (is_in q set || is_in q (map (λ t. t.param) front)))
unfolding discard_queue
discard_queue-split n [] recent set = ([], [], refl, λ q. sym (or_false (is_in q set)))
discard_queue-split n (t ∷ ts) recent set = elim (Bool-cases (ltb (length set) n)) [
  | inr e ↦ ([], t ∷ ts, refl, λ q. rw e (sym (or_false (is_in q set))))
  | inl e ↦
      let (front, rest, same, all) =
        discard_queue-split n ts (put t.param (some t.step_id_last_used_at) recent)
          (add t.param set) in
      (
        t ∷ front,
        rest,
        ap (◌∷◌ t) same,
        λ q. rw e (all q ∙ is_in-moved q t.param set (map (λ u. u.param) front)),
      )
]

-- And it takes all those that are awaited.
discard_queue-awaited :
    (new : List ℕ) (front rest : List ParamInTrace) (recent : ℕ → Option ℕ) (set : List ℕ)
    → Distinct set
    → Distinct new
    → ((q : ℕ) → (is_in q set || is_in q (map (λ t. t.param) front)) ≡ is_in q new)
    → (q : ℕ) → is_in q (discard_queue (length new) (front ++ rest) recent set).chosen ≡ is_in q new
unfolding discard_queue
discard_queue-awaited new [] [] recent set d e all q = sym (or_false (is_in q set)) ∙ all q
discard_queue-awaited new [] (t ∷ rest) recent set d e all q =
    let enough = length-subset new set e (λ r i. sym (or_false (is_in r set)) ∙ all r ∙ i) in
    let stop : ltb (length set) (length new) ≡ false = ground (arith, enough) in
    rw stop (sym (or_false (is_in q set)) ∙ all q)
discard_queue-awaited new (t ∷ front) rest recent set d e all q =
    elim (Bool-cases (ltb (length set) (length new))) [
      | inl k ↦ rw k (
          discard_queue-awaited new front rest (put t.param (some t.step_id_last_used_at) recent)
            (add t.param set) (Distinct-add t.param set d) e
            (λ r. is_in-moved r t.param set (map (λ u. u.param) front) ∙ all r) q)
      | inr k ↦ rw k (whole_subset set new d (λ r i. sym (all r) ∙ rw i refl) (ground (arith, k)) q)
    ]

-- The test of `fetch_sub_module` succeeds exactly for a queue that starts with what is awaited.
pub is_same_set-Awaits :
    (recent : ℕ → Option ℕ) (step : ℕ) (ps : List ℕ) (queue : List ParamInTrace)
    → Distinct ps
    → is_same_set
        (discard_queue (length (not_fetched recent step ps)) queue recent []).chosen
        (not_fetched recent step ps)
      ≡ true
    → Awaits (is_awaited recent step ps) queue
is_same_set-Awaits recent step ps queue d e =
    let new = not_fetched recent step ps in
    let (front, rest, same, all) = discard_queue-split (length new) queue recent [] in
    (
      front,
      rest,
      same,
      λ q.
          sym (all q)
          ∙ is_same_set-in (discard_queue (length new) queue recent []).chosen new e q
          ∙ is_in-not_fetched recent step ps q,
    )

pub Awaits-is_same_set :
    (recent : ℕ → Option ℕ) (step : ℕ) (ps : List ℕ) (queue : List ParamInTrace)
    → Distinct ps
    → Awaits (is_awaited recent step ps) queue
    → is_same_set
        (discard_queue (length (not_fetched recent step ps)) queue recent []).chosen
        (not_fetched recent step ps)
      ≡ true
Awaits-is_same_set recent step ps queue d (front, rest, same, all) =
    let new = not_fetched recent step ps in
    let taken =
      discard_queue-awaited new front rest recent [] tt (Distinct-not_fetched recent step ps d)
        (λ q. all q ∙ sym (is_in-not_fetched recent step ps q)) in
    rw same (
      rw
        (
          in-is_subset (discard_queue (length new) (front ++ rest) recent []).chosen new
              (λ q i. sym (taken q) ∙ i),
          in-is_subset new (discard_queue (length new) (front ++ rest) recent []).chosen
              (λ q i. taken q ∙ i),
        )
        refl)
