-- ===== src/Accounting/Buckets.antt =====
-- The size classes of the report are apart and leave no record out.
use understanding_smartnic.Prelude.{ℕ, ◌+◌, ◌≡◌, List, [], ◌∷◌, Option, length, arith}
use understanding_smartnic.Accounting.{AgRecord, buckets, group}

-- The entries of the groups of some classes.
abbrev grouped : List (ℕ × Option ℕ) → List AgRecord → ℕ
grouped [] rs = 0
grouped (b ∷ bs) rs = length (group b rs) + grouped bs rs

-- The groups of the report have together as many entries as there are records, so each record is
-- in the group of exactly one size class.
grouped-buckets : (rs : List AgRecord) → grouped buckets rs ≡ length rs
unfolding group
grouped-buckets [] = omega arith
grouped-buckets (r ∷ rs) = ground (arith, grouped-buckets rs)
