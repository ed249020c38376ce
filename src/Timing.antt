-- ===== src/Timing.antt =====
-- src/common/submodule_timing.py, class `Stat`: running statistics that leave out a warm-up and keep
-- the latest samples in a ring. Times are Python's floats, of which the code uses the operations of
-- `Float`.
pub mod Phases
pub mod Ring
pub mod Window
mod Tests
use understanding_smartnic.Prelude.{
  ℕ, suc, ◌+◌, ◌-◌, ◌%◌, List, [], ◌∷◌, ◌++◌, Option, none, some, Bool, true, false, if◌then◌else◌,
  ltb, leb, length, set,
}

-- The operations on times that `add` uses.
pub record Float (F : Type 0) : Type 0 where
  pub zero_s : F
  pub inf : F
  pub plus : F → F → F
  pub times : F → F → F
  pub is_less : F → F → Bool

-- `Stat`
pub record Stat (F : Type 0) : Type 0 where
  pub warmup_n : ℕ
  pub seen : ℕ
  pub count : ℕ
  pub total_s : F
  pub total_sq_s : F
  pub min_s : F
  pub max_s : F
  pub sample_cap : ℕ
  pub samples : List F

module _ {F : Type 0} where
  -- `Stat(warmup_n=..., sample_cap=...)`
  pub new : Float F → ℕ → ℕ → Stat F
  new float warmup_n sample_cap = record {
    warmup_n = warmup_n;
    seen = 0;
    count = 0;
    total_s = float.zero_s;
    total_sq_s = float.zero_s;
    min_s = float.inf;
    max_s = float.zero_s;
    sample_cap = sample_cap;
    samples = [];
  }

  -- `if self.sample_cap > 0`, after the count went up
  pub keep : F → Stat F → Stat F
  keep x s =
      if ltb 0 s.sample_cap
      then (if ltb (length s.samples) s.sample_cap
          then record s { samples = s.samples ++ x ∷ [] }
          else record s { samples = set s.samples ((s.count - 1) % s.sample_cap) x })
      else s

  -- The counters and the extremes.
  pub tally : Float F → F → Stat F → Stat F
  tally float x s = record s {
    count = suc s.count;
    total_s = float.plus s.total_s x;
    total_sq_s = float.plus s.total_sq_s (float.times x x);
    min_s = if float.is_less x s.min_s then x else s.min_s;
    max_s = if float.is_less s.max_s x then x else s.max_s;
  }

  -- `add`; None is `none`.
  pub add : Float F → Option F → Stat F → Stat F
  unfolding keep tally
  add float none s = s
  add float (some x) s =
      let t = record s { seen = suc s.seen } in
      if float.is_less x float.zero_s
      then s
      else (if leb t.seen t.warmup_n then t else keep x (tally float x t))

  pub add_all : Float F → List (Option F) → Stat F → Stat F
  unfolding add
  add_all float [] s = s
  add_all float (x ∷ xs) s = add_all float xs (add float x s)
