-- ===== src/Data/Split.antt =====
-- The split takes every index once.
use understanding_smartnic.Prelude.{
  ℕ, zero, suc, ℤ, pos, negsuc, pos_part, neg_part, ltb_ℤ, ◌-ℤ◌, ◌+ℤ◌, ◌+◌, ◌<◌, ◌≤◌, ◌≡◌, inl, inr,
  refl, ◌∙◌, ap, List, [], ◌∷◌, ◌++◌, map, Option, true, ◌==◌, ltb, leb, ◌&&◌, if◌then◌else◌,
  length, get_or, set, take, drop, replicate, length-set, length-replicate, take-append-drop,
  length-map, ok, Bool-cases, arith,
}
use understanding_smartnic.Data.{
  min_ℤ, max_ℤ, smallest, largest, normalize_labels_and_count_classes, collect, append_index,
  is_zero, train_count, divide, split_by_class_indices,
}

-- How often an index occurs.
abbrev pub occurrences : ℕ → List ℕ → ℕ
occurrences i [] = 0
occurrences i (j ∷ js) = (if i == j then 1 else 0) + occurrences i js

-- And in the lists of all classes.
abbrev in_classes : ℕ → List (List ℕ) → ℕ
in_classes i [] = 0
in_classes i (js ∷ rest) = occurrences i js + in_classes i rest

-- 1 for the indices from `idx` on, up to `n` of them.
abbrev pub is_index : ℕ → ℕ → ℕ → ℕ
is_index idx n i = if leb idx i && ltb i (idx + n) then 1 else 0

occurrences-append :
    (i : ℕ) (js ks : List ℕ) → occurrences i (js ++ ks) ≡ occurrences i js + occurrences i ks
occurrences-append i [] ks = omega arith
occurrences-append i (j ∷ js) ks = omega (arith, occurrences-append i js ks)

-- One more index in one of the classes.
in_classes-set :
    (i idx y : ℕ) (per : List (List ℕ))
    → y < length per
    → in_classes i (set per y (get_or per y [] ++ idx ∷ []))
      ≡ in_classes i per + (if i == idx then 1 else 0)
in_classes-set i idx y [] h = absurd (omega arith)
in_classes-set i idx zero (js ∷ rest) h = omega (arith, occurrences-append i js (idx ∷ []))
in_classes-set i idx (suc y) (js ∷ rest) h =
    omega (arith, in_classes-set i idx y rest (omega arith))

in_classes-replicate : (i n : ℕ) → in_classes i (replicate n []) ≡ 0
in_classes-replicate i zero = refl
in_classes-replicate i (suc n) = omega (arith, in_classes-replicate i n)

-- Labels of the classes.
abbrev pub AreBelow : ℕ → List ℤ → Type 0
AreBelow n [] = Unit
AreBelow n (y ∷ ys) = (neg_part y ≡ 0) × (pos_part y < n) × AreBelow n ys

is_index-next :
    (idx n i : ℕ) → (if i == idx then 1 else 0) + is_index (suc idx) n i ≡ is_index idx (suc n) i
is_index-next idx n i = ground arith

in_classes-collect :
    (i n idx : ℕ) (ys : List ℤ) (per : List (List ℕ))
    → AreBelow n ys
    → length per ≡ n
    → in_classes i (collect (pos n) idx ys per) ≡ in_classes i per + is_index idx (length ys) i
unfolding collect append_index
in_classes-collect i n idx [] per b e = ground arith
in_classes-collect i n idx (negsuc y ∷ ys) per (neg, below, b) e = absurd (omega (arith, neg))
in_classes-collect i n idx (pos y ∷ ys) per (neg, below, b) e =
    let grown = set per y (get_or per y [] ++ idx ∷ []) in
    let inside : ltb_ℤ (pos y) (pos n) ≡ true = ground arith in
    let long : length grown ≡ n = length-set per y (get_or per y [] ++ idx ∷ []) ∙ e in
    rw inside (
      omega (
        arith,
        in_classes-collect i n (suc idx) ys grown b long,
        in_classes-set i idx y per (omega arith),
        is_index-next idx (length ys) i,
      ))

-- A shuffle keeps what it shuffles.
abbrev pub Shuffles : (ℕ → List ℕ → List ℕ) → Type 0
Shuffles shuffle =
    (call : ℕ) (js : List ℕ) (i : ℕ) → occurrences i (shuffle call js) ≡ occurrences i js

-- How often an index is in the training set or in the test set.
abbrev pub in_split : ℕ → List ℕ × List ℕ → ℕ
in_split i (train_idx, test_idx) = occurrences i train_idx + occurrences i test_idx

in_split-divide :
    (shuffle : ℕ → List ℕ → List ℕ) (count : ℕ → ℕ) (i call : ℕ) (per : List (List ℕ))
    → Shuffles shuffle
    → in_split i (divide shuffle count call per) ≡ in_classes i per
unfolding divide
in_split-divide shuffle count i call [] fair = omega arith
in_split-divide shuffle count i call (js ∷ rest) fair =
    let shuffled = shuffle call js in
    let k = count (length shuffled) in
    let (train_idx, test_idx) = divide shuffle count (suc call) rest in
    omega (
      arith,
      occurrences-append i (take k shuffled) train_idx,
      occurrences-append i (drop k shuffled) test_idx,
      occurrences-append i (take k shuffled) (drop k shuffled),
      ap (occurrences i) (take-append-drop k shuffled),
      fair call js i,
      in_split-divide shuffle count i (suc call) rest fair,
    )

in_split-below :
    (shuffle : ℕ → List ℕ → List ℕ) (train_per_class : Option ℕ) (train_ratio : Option (ℕ → ℕ))
    (labels : List ℤ) (n i : ℕ)
    → Shuffles shuffle
    → AreBelow n labels
    → in_split i (split_by_class_indices shuffle train_per_class train_ratio labels (pos n))
      ≡ is_index 0 (length labels) i
unfolding split_by_class_indices
in_split-below shuffle train_per_class train_ratio labels n i fair b =
    in_split-divide shuffle (train_count train_per_class train_ratio) i 0
      (collect (pos n) 0 labels (replicate n [])) fair
    ∙ in_classes-collect i n 0 labels (replicate n []) b (length-replicate n [])
    ∙ omega (arith, in_classes-replicate i n)

-- Bounds of the labels, and labels that are not negative.
abbrev le : ℤ → ℤ → Type 0
le a b = pos_part a + neg_part b ≤ pos_part b + neg_part a

abbrev AreFrom : ℤ → List ℤ → Type 0
AreFrom m [] = Unit {0}
AreFrom m (y ∷ ys) = le m y × AreFrom m ys

abbrev AreUpto : ℤ → List ℤ → Type 0
AreUpto m [] = Unit {0}
AreUpto m (y ∷ ys) = le y m × AreUpto m ys

abbrev AreNonneg : List ℤ → Type 0
AreNonneg [] = Unit {0}
AreNonneg (y ∷ ys) = (neg_part y ≡ 0) × AreNonneg ys

AreFrom-mono : (m n : ℤ) (ys : List ℤ) → le m n → AreFrom n ys → AreFrom m ys
AreFrom-mono m n [] h b = tt
AreFrom-mono m n (y ∷ ys) h (c, b) = (omega arith, AreFrom-mono m n ys h b)

AreUpto-mono : (m n : ℤ) (ys : List ℤ) → le m n → AreUpto m ys → AreUpto n ys
AreUpto-mono m n [] h b = tt
AreUpto-mono m n (y ∷ ys) h (c, b) = (omega arith, AreUpto-mono m n ys h b)

min_ℤ-le : (a b : ℤ) → le (min_ℤ a b) a × le (min_ℤ a b) b
min_ℤ-le a b = (ground arith, ground arith)

max_ℤ-le : (a b : ℤ) → le a (max_ℤ a b) × le b (max_ℤ a b)
max_ℤ-le a b = (ground arith, ground arith)

AreFrom-smallest : (y : ℤ) (ys : List ℤ) → AreFrom (smallest y ys) (y ∷ ys)
AreFrom-smallest y [] = (omega arith, tt)
AreFrom-smallest y (z ∷ zs) =
    let (first, rest) = min_ℤ-le y (smallest z zs) in
    (
      first,
      AreFrom-mono (smallest y (z ∷ zs)) (smallest z zs) (z ∷ zs) rest (AreFrom-smallest z zs),
    )

AreUpto-largest : (y : ℤ) (ys : List ℤ) → AreUpto (largest y ys) (y ∷ ys)
AreUpto-largest y [] = (omega arith, tt)
AreUpto-largest y (z ∷ zs) =
    let (first, rest) = max_ℤ-le y (largest z zs) in
    (first, AreUpto-mono (largest z zs) (largest y (z ∷ zs)) (z ∷ zs) rest (AreUpto-largest z zs))

-- A label less the smallest one.
nonneg-sub : (m z : ℤ) → le m z → neg_part (z -ℤ m) ≡ 0
unfolding ◌-ℤ◌
nonneg-sub m z h = ground arith

AreNonneg-map : (m : ℤ) (ys : List ℤ) → AreFrom m ys → AreNonneg (map (λ z. z -ℤ m) ys)
AreNonneg-map m [] b = tt
AreNonneg-map m (y ∷ ys) (c, b) = (nonneg-sub m y c, AreNonneg-map m ys b)

is_zero-le : (m y : ℤ) → is_zero m ≡ true → le m y → neg_part y ≡ 0
is_zero-le (pos n) (pos k) e h = refl
is_zero-le (pos n) (negsuc k) e h = absurd (ground arith)
is_zero-le (negsuc n) y e h = cc

AreNonneg-zero : (m : ℤ) (ys : List ℤ) → is_zero m ≡ true → AreFrom m ys → AreNonneg ys
AreNonneg-zero m [] e b = tt
AreNonneg-zero m (y ∷ ys) e (c, b) = (is_zero-le m y e c, AreNonneg-zero m ys e b)

nonneg_above : (y m : ℤ) → neg_part y ≡ 0 → le y m → neg_part m ≡ 0
nonneg_above y (pos n) e h = refl
nonneg_above y (negsuc n) e h = absurd (omega arith)

AreBelow-upto :
    (m : ℤ) (ys : List ℤ)
    → neg_part m ≡ 0
    → AreNonneg ys
    → AreUpto m ys
    → AreBelow (pos_part m + 1) ys
AreBelow-upto m [] e n u = tt
AreBelow-upto m (y ∷ ys) e (k, n) (h, u) = (k, omega arith, AreBelow-upto m ys e n u)

next_ℤ : (m : ℤ) → neg_part m ≡ 0 → m +ℤ pos 1 ≡ pos (pos_part m + 1)
unfolding ◌+ℤ◌
next_ℤ (pos n) e = ground arith
next_ℤ (negsuc n) e = absurd (omega arith)

-- The number of classes for labels that are not negative.
classes :
    (y : ℤ) (ys : List ℤ)
    → AreNonneg (y ∷ ys)
    → (n : ℕ) × (largest y ys +ℤ pos 1 ≡ pos n) × AreBelow n (y ∷ ys)
classes y ys all =
    let m = largest y ys in
    let upto = AreUpto-largest y ys in
    let nonneg : neg_part m ≡ 0 = nonneg_above y m (all.0) (upto.0) in
    (pos_part m + 1, next_ℤ m nonneg, AreBelow-upto m (y ∷ ys) nonneg all upto)

normalize-AreBelow :
    (y : ℤ) (ys : List ℤ)
    → (labels : List ℤ) × (n : ℕ) × (normalize_labels_and_count_classes (y ∷ ys)
        ≡ ok (labels, pos n))
      × AreBelow n labels
      × (length labels ≡ length (y ∷ ys))
unfolding normalize_labels_and_count_classes
normalize-AreBelow y ys =
    let m = smallest y ys in
    let from = AreFrom-smallest y ys in
    elim (Bool-cases (is_zero m)) [
      | inr e ↦
          let (n, count, below) =
            classes (y -ℤ m) (map (λ z. z -ℤ m) ys) (AreNonneg-map m (y ∷ ys) from) in
          (
            map (λ z. z -ℤ m) (y ∷ ys),
            n,
            rw (e, count) refl,
            below,
            length-map (y ∷ ys) (λ z. z -ℤ m),
          )
      | inl e ↦
          let (n, count, below) = classes y ys (AreNonneg-zero m (y ∷ ys) e from) in
          (y ∷ ys, n, rw (e, count) refl, below, refl)
    ]

-- For a data set with at least one label, of any sign, the normalization returns, and splitting what
-- it gives, with a shuffle that keeps what it shuffles and any choice of the number for training, puts
-- each index of the data set into the training or the test set exactly once, and no other index into
-- either.
pub in_split-normalized :
    (shuffle : ℕ → List ℕ → List ℕ) (train_per_class : Option ℕ) (train_ratio : Option (ℕ → ℕ))
    (y : ℤ) (ys : List ℤ)
    → Shuffles shuffle
    → (labels : List ℤ) × (num_classes : ℤ) × (normalize_labels_and_count_classes (y ∷ ys)
        ≡ ok (labels, num_classes))
      × ((i : ℕ)
          → in_split i
              (split_by_class_indices shuffle train_per_class train_ratio labels num_classes)
            ≡ (if ltb i (length (y ∷ ys)) then 1 else 0))
in_split-normalized shuffle train_per_class train_ratio y ys fair =
    let (labels, n, run, below, long) = normalize-AreBelow y ys in
    (
      labels,
      pos n,
      run,
      λ i.
          in_split-below shuffle train_per_class train_ratio labels n i fair below
          ∙ ap (λ k. is_index 0 k i) long
          ∙ ground arith,
    )
