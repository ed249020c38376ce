-- ===== src/Work/Tests.antt =====
-- Uses of a request, and the theorems at them.
use understanding_smartnic.Prelude.{◌≡◌, refl, List, [], ◌∷◌, true, false}
use understanding_smartnic.Work.Calls.{Io, req_wait, req_release, req_test, wait_value}
use understanding_smartnic.Work.{Work, Answers, Op, waits, tests, init, step, run}
use understanding_smartnic.Work.Release.{start, Once, run-Once}
use understanding_smartnic.Work.Legacy.{view, client_run, view-run}

abbrev good : Answers
good = record { available = true; res = 0; wait_ok = true; release_ok = true }

-- The stream wait is refused, then accepted; the request is waited for twice and dropped.
abbrev busy : Answers
busy = record good { res = 700 }

abbrev script : List Op
script = tests false ∷ waits busy ∷ waits good ∷ waits good ∷ []

flag_run :
    (run script (start 9 4096 3)).calls
    ≡ (req_release 9, true)
      ∷ (wait_value 4096 3, true)
      ∷ (wait_value 4096 3, false)
      ∷ (req_test 9, true)
      ∷ []
unfolding run step init
flag_run = refl

blocking_run :
    (run script (start 9 0 0)).calls
    ≡ (req_release 9, true) ∷ (req_wait 9, true) ∷ (req_test 9, true) ∷ []
unfolding run step init
blocking_run = refl

run-Once_example : Once (run script (start 9 4096 3))
run-Once_example = run-Once script 9 4096 3

abbrev tested : Io Work
tested = record { work = record (init 9 0 0) { completed = true }; calls = (req_test 9, true) ∷ [] }

view-run_example : view (run script (start 9 0 0)) ≡ client_run script (view (start 9 0 0))
unfolding init
view-run_example = view-run script (start 9 0 0) refl
