-- ===== src/Accounting/Union.antt =====
-- What the totals call the time of the DPU is the time in which some gather was outstanding.
use understanding_smartnic.Prelude.{
  ℕ, zero, suc, ◌+◌, ◌-◌, max, min, ◌≤◌, ◌≡◌, ◌⊎◌, refl, ◌∙◌, List, [], ◌∷◌, Bool, true, false,
  ◌&&◌, ◌||◌, leb, ltb, if◌then◌else◌, arith, Bool-cases, inl, inr,
}
use native.Mathlib.Decide.{dec_lt}
use understanding_smartnic.Accounting.{Totals, accumulate_all_gather_detailed}

-- A gather: when it was requested, when it was complete, how long the wait blocked, and its bytes.
pub record Gather : Type 0 where
  pub t_request : ℕ
  pub t_complete : ℕ
  pub block : ℕ
  pub nbytes : ℕ

abbrev pub accumulate_all : List Gather → Totals → Totals
accumulate_all [] s = s
accumulate_all (g ∷ gs) s =
    accumulate_all gs (accumulate_all_gather_detailed g.t_request g.t_complete g.block g.nbytes s)

-- Gathers complete after their requests, and are requested and complete in the order of the list,
-- none before `requested` and none complete before `last`.
abbrev pub InOrder : ℕ → ℕ → List Gather → Type 0
InOrder requested last [] = Unit
InOrder requested last (g ∷ gs) =
    (requested ≤ g.t_request)
    × (g.t_request ≤ g.t_complete)
    × (last ≤ g.t_complete)
    × InOrder g.t_request g.t_complete gs

-- Whether a gather is outstanding in the tick that begins at `t`.
abbrev pub is_outstanding : List Gather → ℕ → Bool
is_outstanding [] t = false
is_outstanding (g ∷ gs) t = (leb g.t_request t && ltb t g.t_complete) || is_outstanding gs t

-- The ticks before `horizon` that pass the test.
abbrev pub count : (ℕ → Bool) → ℕ → ℕ
count test zero = 0
count test (suc horizon) = if test horizon then suc (count test horizon) else count test horizon

-- The ticks from `last` on with a gather outstanding.
abbrev later : ℕ → List Gather → ℕ → Bool
later last gs t = leb last t && is_outstanding gs t

-- All gathers are complete by the horizon.
abbrev pub EndBy : ℕ → List Gather → Type 0
EndBy horizon [] = Unit
EndBy horizon (g ∷ gs) = (g.t_complete ≤ horizon) × EndBy horizon gs

count-ext : (f g : ℕ → Bool) (n : ℕ) → ((t : ℕ) → f t ≡ g t) → count f n ≡ count g n
count-ext f g zero e = refl
count-ext f g (suc n) e = rw (e n, count-ext f g n e) refl

count-none : (f : ℕ → Bool) (n : ℕ) → ((t : ℕ) → f t ≡ false) → count f n ≡ 0
count-none f zero e = refl
count-none f (suc n) e = rw (e n) (count-none f n e)

-- A set of ticks that is split in two.
count-split :
    (f g h : ℕ → Bool) (n : ℕ)
    → ((t : ℕ) → ((f t ≡ g t) × (h t ≡ false)) ⊎ ((g t ≡ false) × (f t ≡ h t)))
    → count f n ≡ count g n + count h n
count-split f g h zero e = refl
count-split f g h (suc n) e =
    let ih = count-split f g h n e in
    elim (e n) [
      | inl (same, off) ↦ rw (same, off) (ground (arith, ih))
      | inr (off, same) ↦ rw (same, off) (ground (arith, ih))
    ]

-- The ticks of an interval.
count-interval : (a c n : ℕ) → count (λ t. leb a t && ltb t c) n ≡ min c n - a
count-interval a c zero = omega arith
count-interval a c (suc n) = ground (arith, count-interval a c n)

outstanding-after :
    (gs : List Gather) (r l t : ℕ) → InOrder r l gs → is_outstanding gs t ≡ true → r ≤ t
outstanding-after [] r l t o e = cc
outstanding-after (g ∷ gs) r l t (ra, rc, lc, o) e = elim (Bool-cases (is_outstanding gs t)) [
  | inl later_one ↦ omega (arith, outstanding-after gs g.t_request g.t_complete t o later_one)
  | inr none_later ↦ ground (arith, e, none_later)
]

-- Before the first gather is complete only its own interval counts, after that only the others'.
split-later :
    (g : Gather) (gs : List Gather) (r last t : ℕ)
    → InOrder r last (g ∷ gs)
    → ((later last (g ∷ gs) t ≡ (leb (max g.t_request last) t && ltb t g.t_complete))
        × (later g.t_complete gs t ≡ false))
      ⊎ (((leb (max g.t_request last) t && ltb t g.t_complete) ≡ false)
          × (later last (g ∷ gs) t ≡ later g.t_complete gs t))
split-later g gs r last t (ra, rc, lc, o) = elim (dec_lt t g.t_complete) [
  | no h ↦ inr (ground arith, ground arith)
  | yes h ↦ elim (Bool-cases (is_outstanding gs t)) [
    | inl e ↦
        inl (ground (arith, outstanding-after gs g.t_request g.t_complete t o e), ground arith)
    | inr e ↦ inl (ground arith, ground arith)
  ]
]

accumulate_all-dpu :
    (gs : List Gather) (s : Totals) (r horizon : ℕ)
    → InOrder r s.last_complete gs
    → EndBy horizon gs
    → (accumulate_all gs s).dpu ≡ s.dpu + count (later s.last_complete gs) horizon
unfolding accumulate_all_gather_detailed
accumulate_all-dpu [] s r horizon o b =
    omega (arith, count-none (later s.last_complete []) horizon (λ t. ground arith))
accumulate_all-dpu (g ∷ gs) s r horizon (ra, rc, lc, o) (b, bs) =
    let next : Totals =
      accumulate_all_gather_detailed g.t_request g.t_complete g.block g.nbytes s in
    let own = count-interval (max g.t_request s.last_complete) g.t_complete horizon in
    let both =
      count-split (later s.last_complete (g ∷ gs))
        (λ t. leb (max g.t_request s.last_complete) t && ltb t g.t_complete) (later g.t_complete gs)
        horizon (λ t. split-later g gs r s.last_complete t (ra, rc, lc, o)) in
    let rest = accumulate_all-dpu gs next g.t_request horizon o bs in omega (arith, own, both, rest)

-- From zeroed totals, gathers that are requested and complete in one order, each after its request,
-- have for the time of the DPU the number of ticks in which at least one of them was outstanding, up
-- to a horizon by which all are complete.
pub accumulate_all-count :
    (gs : List Gather) (s : Totals) (horizon : ℕ)
    → s.dpu ≡ 0
    → s.last_complete ≡ 0
    → InOrder 0 0 gs
    → EndBy horizon gs
    → (accumulate_all gs s).dpu ≡ count (is_outstanding gs) horizon
accumulate_all-count gs s horizon d l o b =
    accumulate_all-dpu gs s 0 horizon (rw l o) b
    ∙ rw (d, l)
        (ground (arith, count-ext (later 0 gs) (is_outstanding gs) horizon (λ t. ground arith)))
