-- ===== src/Work/Release.antt =====
-- Resources of a request: over any use of it nothing is waited for, scheduled or released twice.
use understanding_smartnic.Prelude.{
  ℕ, ◌≤◌, ◌≡◌, refl, List, [], ◌∷◌, true, false, if◌then◌else◌, arith,
}
use understanding_smartnic.Work.Calls.{Io, is_release, is_schedule, is_wait, successes}
use understanding_smartnic.Work.{Work, Answers, Op, waits, tests, drops, init, step, run}

-- One invariant for the three kinds of request.
pub record Once (s : Io Work) : Type 0 where
  pub release_once : successes is_release s.calls ≤ 1
  pub not_released : s.work.released ≡ false → successes is_release s.calls ≡ 0
  pub schedule_once : successes is_schedule s.calls ≤ 1
  pub not_scheduled : s.work.gpu_flag_scheduled ≡ false → successes is_schedule s.calls ≡ 0
  pub wait_once : successes is_wait s.calls ≤ 1
  pub not_completed : s.work.completed ≡ false → successes is_wait s.calls ≡ 0

-- A new request.
abbrev pub start : ℕ → ℕ → ℕ → Io Work
start handle addr value = record { work = init handle addr value; calls = [] }

Once-start : (handle addr value : ℕ) → Once (start handle addr value)
unfolding successes
Once-start handle addr value = ground arith

Once-step : (o : Op) (s : Io Work) → Once s → Once (step o s)
unfolding step successes
Once-step (waits a) s v = ground arith
Once-step (tests done) s v = ground arith
Once-step (drops a) s v = ground arith

pub Once-run : (ops : List Op) (s : Io Work) → Once s → Once (run ops s)
unfolding run
Once-run [] s v = v
Once-run (o ∷ ops) s v = Once-run ops (step o s) (Once-step o s v)

-- Whatever a holder does with a new request, and whatever the driver answers, at most one blocking
-- wait, at most one stream wait and at most one release of it succeed.
pub run-Once : (ops : List Op) (handle addr value : ℕ) → Once (run ops (start handle addr value))
run-Once ops handle addr value =
    Once-run ops (start handle addr value) (Once-start handle addr value)

-- The driver accepts every release.
abbrev pub ReleasesOk : Op → Type 0
ReleasesOk (waits a) = a.release_ok ≡ true
ReleasesOk (tests done) = Unit {0}
ReleasesOk (drops a) = a.release_ok ≡ true

abbrev pub AllReleases : List Op → Type 0
AllReleases [] = Unit {0}
AllReleases (o ∷ ops) = ReleasesOk o × AllReleases ops

abbrev pub IsExact : Io Work → Type 0
IsExact s = successes is_release s.calls ≡ (if s.work.released then 1 else 0)

IsExact-start : (handle addr value : ℕ) → IsExact (start handle addr value)
unfolding init successes
IsExact-start handle addr value = refl

IsExact-step : (o : Op) (s : Io Work) → ReleasesOk o → IsExact s → IsExact (step o s)
unfolding step successes
IsExact-step (waits a) s h v = ground arith
IsExact-step (tests done) s h v = ground arith
IsExact-step (drops a) s h v = ground arith

IsExact-run : (ops : List Op) (s : Io Work) → AllReleases ops → IsExact s → IsExact (run ops s)
unfolding run
IsExact-run [] s h v = v
IsExact-run (o ∷ ops) s h v = IsExact-run ops (step o s) h.1 (IsExact-step o s h.0 v)

released-drop : (a : Answers) (s : Io Work) → (step (drops a) s).work.released ≡ true
unfolding step
released-drop a s = ground arith

-- If the driver accepts every release, then once the request is dropped exactly one release was
-- made, with or without waits and tests before: no request leaks and none is released twice.
run-drop :
    (ops : List Op) (a : Answers) (handle addr value : ℕ)
    → AllReleases ops
    → a.release_ok ≡ true
    → let s = step (drops a) (run ops (start handle addr value)) in successes is_release s.calls ≡ 1
run-drop ops a handle addr value h e =
    let s = run ops (start handle addr value) in
    let exact : IsExact s =
      IsExact-run ops (start handle addr value) h (IsExact-start handle addr value) in
    let exact' : IsExact (step (drops a) s) = IsExact-step (drops a) s e exact in
    ground (arith, released-drop a s, exact')
