-- ===== src/Timing/Tests.antt =====
-- A ring of two samples after a warm-up of one, over numbers in place of floats.
use understanding_smartnic.Prelude.{
  ℕ, ◌+◌, ◌*◌, ◌≡◌, refl, List, [], ◌∷◌, Option, none, some, ltb, arith, ◌-◌, ◌==◌,
}
use understanding_smartnic.Timing.Phases.{Key, Timers, measure, snapshot-end}
use understanding_smartnic.Timing.{Stat, Float, new, add_all, add, keep, tally}
use understanding_smartnic.Timing.Window.{Holds, valid, add_all-samples}

abbrev whole_seconds : Float ℕ
whole_seconds = record {
  zero_s = 0;
  inf = 1000000;
  plus = λ a b. a + b;
  times = λ a b. a * b;
  is_less = ltb;
}

abbrev five : List (Option ℕ)
five = some 9 ∷ some 4 ∷ none ∷ some 6 ∷ some 5 ∷ []

-- The third sample after the warm-up takes the place of the first.
latest_two : (add_all whole_seconds five (new whole_seconds 1 2)).samples ≡ 5 ∷ 6 ∷ []
unfolding add_all add keep tally new
latest_two = refl

add_all-samples_example :
    Holds 1 2 (valid whole_seconds five) (add_all whole_seconds five (new whole_seconds 1 2))
add_all-samples_example = add_all-samples whole_seconds 1 2 five (omega arith)

abbrev no_timers : Timers ℕ ℕ
no_timers = record {
  stats = λ p m. none;
  inflight_cpu = λ k. none;
  inflight_gpu = λ k. none;
  pending_gpu = [];
}

abbrev key : Key
key = record { phase = 1; module_id = 4; call_id = 0 }

-- Phase 1 is measured by events, which read 7 and 10.
abbrev measured_out : (ℕ → ℕ → Option (Stat ℕ)) × Timers ℕ ℕ
measured_out =
    measure whole_seconds (λ a b. a - b) (λ a b. b - a) (λ p. p == 1) 100 200 7 10 key no_timers

snapshot-end_example :
    (measured_out.0 1 4 ≡ some (add whole_seconds (some 3) (new whole_seconds 10 1024)))
    × (measured_out.1.inflight_gpu key ≡ none)
    × (measured_out.1.inflight_cpu key ≡ none)
    × (measured_out.1.pending_gpu ≡ [])
snapshot-end_example =
    snapshot-end whole_seconds (λ a b. a - b) (λ a b. b - a) (λ p. p == 1) 100 200 7 10 key
      no_timers refl refl refl
