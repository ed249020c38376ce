-- ===== src/Stall.antt =====
-- src/common/stall_event_tracker.py, class `StallEventTracker`: brackets of two CUDA events around a
-- wait, queued until one synchronisation reads them all. The events are the driver's: whether an
-- event can be recorded, whether the synchronisation succeeds, and the time that it reads for a
-- bracket are arguments. `Label` is what the caller passes on (phase, operation, parameter, bytes),
-- `Ms` the type of times. The lock makes each operation atomic; profiling is enabled.
pub mod Once
mod Tests
use understanding_smartnic.Prelude.{
  ℕ, suc, ◌+◌, List, [], ◌∷◌, ◌++◌, Option, none, some, Bool, true, false, not, ◌||◌, ◌==◌,
  if◌then◌else◌, ℤ, pos, negsuc,
}

-- A handle of `begin`, without the events.
pub record Bracket (Label : Type 0) : Type 0 where
  pub ag_id : ℕ
  pub label : Label
  pub iter_idx : ℤ

-- An entry of `_records`
pub record Entry (Label Ms : Type 0) : Type 0 where
  pub epoch : ℤ
  pub iter : ℤ
  pub ag_id : ℕ
  pub label : Label
  pub ms : Ms

pub record StallEventTracker (Label Ms : Type 0) : Type 0 where
  pub pending : List (Bracket Label)
  pub records : List (Entry Label Ms)
  pub iter_idx : ℤ
  pub epoch_idx : ℤ
  pub counter : ℕ
  pub frozen : Bool

module _ {Label Ms : Type 0} where
  -- `__init__`
  pub init : StallEventTracker Label Ms
  init = record {
    pending = [];
    records = [];
    iter_idx = negsuc 0;
    epoch_idx = pos 0;
    counter = 0;
    frozen = false;
  }

  -- `set_iter` and `set_epoch`
  pub set_iter : ℤ → StallEventTracker Label Ms → StallEventTracker Label Ms
  set_iter idx t = record t { iter_idx = idx }

  pub set_epoch : ℤ → StallEventTracker Label Ms → StallEventTracker Label Ms
  set_epoch idx t = record t { epoch_idx = idx }

  -- `begin`, where `recorded` is whether the first event was recorded
  pub begin :
      Bool
      → Label
      → StallEventTracker Label Ms
      → StallEventTracker Label Ms × Option (Bracket Label)
  begin recorded label t =
      if recorded
      then (
        record t { counter = suc t.counter },
        some (record { ag_id = t.counter; label = label; iter_idx = t.iter_idx }),
      )
      else (t, none)

  -- `end`, where `recorded` is whether the second event was recorded
  pub end : Bool → Option (Bracket Label) → StallEventTracker Label Ms → StallEventTracker Label Ms
  end recorded none t = t
  end recorded (some b) t = if recorded then record t { pending = t.pending ++ b ∷ [] } else t

  -- The loop of `drain`: a time that cannot be read drops its bracket, a negative one counts as 0.
  pub entries_of :
      ℤ
      → (Bracket Label → Option Ms)
      → (Ms → Bool)
      → Ms
      → List (Bracket Label)
      → List (Entry Label Ms)
  entries_of epoch elapsed is_negative zero_ms [] = []
  entries_of epoch elapsed is_negative zero_ms (b ∷ bs) =
      let rest = entries_of epoch elapsed is_negative zero_ms bs in
      elim (elapsed b) [
        | none ↦ rest
        | some ms ↦
            record {
              epoch = epoch;
              iter = b.iter_idx;
              ag_id = b.ag_id;
              label = b.label;
              ms = if is_negative ms then zero_ms else ms;
            }
            ∷ rest
      ]

  -- `drain`, where `synced` is whether the synchronisation succeeded
  pub drain :
      Bool
      → (Bracket Label → Option Ms)
      → (Ms → Bool)
      → Ms
      → StallEventTracker Label Ms
      → StallEventTracker Label Ms
  unfolding entries_of
  drain synced elapsed is_negative zero_ms t =
      if t.frozen || elim t.pending [ [] ↦ true | b ∷ bs ↦ false ]
      then t
      else let read = entries_of t.epoch_idx elapsed is_negative zero_ms t.pending in
        if synced
        then record t { pending = []; records = t.records ++ read }
        else record t { pending = [] }

  -- `freeze` and `reset`
  pub freeze : StallEventTracker Label Ms → StallEventTracker Label Ms
  freeze t = record t { frozen = true }

  pub reset : StallEventTracker Label Ms → StallEventTracker Label Ms
  reset t = record t { records = []; pending = []; counter = 0; iter_idx = negsuc 0 }

-- The tracker and the handles that its callers hold.
pub record World (Label Ms : Type 0) : Type 0 where
  pub tracker : StallEventTracker Label Ms
  pub held : List (Bracket Label)

-- What callers do between two resets: a caller ends a handle that it holds, once, and drops it.
pub data Op (Label Ms : Type 0) : Type 0 where
  begins : Bool → Label → Op Label Ms
  ends : Bool → ℕ → Op Label Ms
  drains : Bool → (Bracket Label → Option Ms) → Op Label Ms
  freezes : Op Label Ms
  counts : ℤ → ℤ → Op Label Ms

module _ {Label : Type 0} where
  -- The held handle with a number, if there is one.
  pub find : ℕ → List (Bracket Label) → Option (Bracket Label)
  find i [] = none
  find i (b ∷ bs) = let rest = find i bs in if i == b.ag_id then some b else rest

  pub forget : ℕ → List (Bracket Label) → List (Bracket Label)
  forget i [] = []
  forget i (b ∷ bs) = let rest = forget i bs in if i == b.ag_id then bs else b ∷ rest

  pub hold : Option (Bracket Label) → List (Bracket Label) → List (Bracket Label)
  hold none held = held
  hold (some b) held = b ∷ held

module _ {Label Ms : Type 0} where
  pub step : (Ms → Bool) → Ms → Op Label Ms → World Label Ms → World Label Ms
  unfolding begin end drain freeze set_iter set_epoch find forget hold
  step is_negative zero_ms (begins recorded label) w =
      let r = begin recorded label w.tracker in record { tracker = r.0; held = hold (r.1) w.held }
  step is_negative zero_ms (ends recorded i) w = record {
    tracker = end recorded (find i w.held) w.tracker;
    held = forget i w.held;
  }
  step is_negative zero_ms (drains synced elapsed) w = record w {
    tracker = drain synced elapsed is_negative zero_ms w.tracker;
  }
  step is_negative zero_ms freezes w = record w { tracker = freeze w.tracker }
  step is_negative zero_ms (counts iter epoch) w = record w {
    tracker = set_epoch epoch (set_iter iter w.tracker);
  }

  pub run : (Ms → Bool) → Ms → List (Op Label Ms) → World Label Ms → World Label Ms
  unfolding step
  run is_negative zero_ms [] w = w
  run is_negative zero_ms (o ∷ os) w = run is_negative zero_ms os (step is_negative zero_ms o w)
