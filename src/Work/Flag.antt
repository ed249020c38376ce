-- ===== src/Work/Flag.antt =====
-- The two paths of `wait`: with a flag Python never blocks, without one no stream wait is made.
use understanding_smartnic.Prelude.{ℕ, ◌≡◌, ◌≢◌, refl, ◌∙◌, List, [], ◌∷◌, true, ok, arith}
use understanding_smartnic.Work.Calls.{Io, req_release, wait_value, is_schedule, is_wait, attempts}
use understanding_smartnic.Work.{Work, Answers, Op, waits, tests, drops, init, wait, step, run}
use understanding_smartnic.Work.Release.{start}

addr-step : (o : Op) (s : Io Work) → (step o s).work.gpu_flag_addr ≡ s.work.gpu_flag_addr
unfolding step
addr-step (waits a) s = ground arith
addr-step (tests done) s = ground arith
addr-step (drops a) s = ground arith

blocks-step :
    (o : Op) (s : Io Work)
    → s.work.gpu_flag_addr ≢ 0
    → attempts is_wait (step o s).calls ≡ attempts is_wait s.calls
unfolding step attempts
blocks-step (waits a) s h = ground arith
blocks-step (tests done) s h = ground arith
blocks-step (drops a) s h = ground arith

schedules-step :
    (o : Op) (s : Io Work)
    → s.work.gpu_flag_addr ≡ 0
    → attempts is_schedule (step o s).calls ≡ attempts is_schedule s.calls
unfolding step attempts
schedules-step (waits a) s h = ground arith
schedules-step (tests done) s h = ground arith
schedules-step (drops a) s h = ground arith

completed-step :
    (o : Op) (s : Io Work)
    → s.work.completed ≡ true
    → ((step o s).work.completed ≡ true)
      × (attempts is_wait (step o s).calls ≡ attempts is_wait s.calls)
unfolding step attempts
completed-step (waits a) s h = ground arith
completed-step (tests done) s h = ground arith
completed-step (drops a) s h = ground arith

blocks-run :
    (ops : List Op) (s : Io Work)
    → s.work.gpu_flag_addr ≢ 0
    → attempts is_wait (run ops s).calls ≡ attempts is_wait s.calls
unfolding run
blocks-run [] s h = refl
blocks-run (o ∷ ops) s h = blocks-run ops (step o s) (rw addr-step h) ∙ blocks-step o s h

schedules-run :
    (ops : List Op) (s : Io Work)
    → s.work.gpu_flag_addr ≡ 0
    → attempts is_schedule (run ops s).calls ≡ attempts is_schedule s.calls
unfolding run
schedules-run [] s h = refl
schedules-run (o ∷ ops) s h = schedules-run ops (step o s) (rw addr-step h) ∙ schedules-step o s h

-- A request with a flag never makes Python block, and one without a flag never makes a stream wait,
-- whatever is done with it and whatever the driver answers.
run-path :
    (ops : List Op) (handle addr value : ℕ)
    → let s = run ops (start handle addr value) in
      (addr ≢ 0 → attempts is_wait s.calls ≡ 0) × (addr ≡ 0 → attempts is_schedule s.calls ≡ 0)
unfolding init attempts
run-path ops handle addr value = (
  λ h. blocks-run ops (start handle addr value) h,
  λ h. schedules-run ops (start handle addr value) h,
)

-- Once a request counts as completed, as after a successful `is_completed`, no later call blocks:
-- `wait` skips the wait of the driver.
run-completed :
    (ops : List Op) (s : Io Work)
    → s.work.completed ≡ true
    → attempts is_wait (run ops s).calls ≡ attempts is_wait s.calls
unfolding run
run-completed [] s h = refl
run-completed (o ∷ ops) s h =
    run-completed ops (step o s) (completed-step o s h).0 ∙ (completed-step o s h).1

-- `wait` on a request that was not touched before, with a flag: exactly the stream wait for the
-- flag's address and value, then the release.
wait-flag :
    (a : Answers) (handle addr value : ℕ)
    → addr ≢ 0
    → a.available ≡ true
    → a.res ≡ 0
    → a.release_ok ≡ true
    → let (s, r) = wait a (start handle addr value) in
      (s.calls ≡ (req_release handle, true) ∷ (wait_value addr value, true) ∷ [])
      × (s.work.completed ≡ true)
      × (r ≡ ok tt)
unfolding wait init
wait-flag a handle addr value h e f g = ground arith
