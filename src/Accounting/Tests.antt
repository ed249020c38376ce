-- ===== src/Accounting/Tests.antt =====
-- Two gathers that overlap, and a wait for each.
use understanding_smartnic.Prelude.{◌≡◌, refl, List, [], ◌∷◌, some, true, false, arith}
use understanding_smartnic.Accounting.{Totals, Books, AllGatherHandle, forward}
use understanding_smartnic.Accounting.Union.{
  Gather, accumulate_all, count, is_outstanding, accumulate_all-count,
}
use understanding_smartnic.Accounting.Agree.{Agree, Event, waited, happen_all, happen_all-Agree}

abbrev no_totals : Totals
no_totals = record { calls = 0; dpu = 0; block = 0; bytes = 0; last_complete = 0 }

-- From 2 to 6 and from 4 to 9, and after a pause from 12 to 13.
abbrev gathers : List Gather
gathers =
    record { t_request = 2; t_complete = 6; block = 1; nbytes = 100 }
    ∷ record { t_request = 4; t_complete = 9; block = 2; nbytes = 200 }
    ∷ record { t_request = 12; t_complete = 13; block = 0; nbytes = 300 }
    ∷ []

accumulate_all-count_example :
    (accumulate_all gathers no_totals).dpu ≡ count (is_outstanding gathers) 20
accumulate_all-count_example =
    accumulate_all-count gathers no_totals 20 refl refl
      (
        omega arith,
        omega arith,
        omega arith,
        (omega arith, omega arith, omega arith, (omega arith, omega arith, omega arith, tt)),
      )
      (omega arith, (omega arith, (omega arith, tt)))

abbrev empty_books : Books
empty_books = record {
  totals = no_totals;
  phase = forward;
  phase_stats = record { fwd_block = 0; fwd_calls = 0; bwd_block = 0; bwd_calls = 0 };
  records = [];
}

abbrev polled : AllGatherHandle
polled = record { t_request = some 2; has_is_completed = true; use_gpu_flag = false; nbytes = 64 }

abbrev waits : List Event
waits = waited false polled 5 6 8 ∷ waited false polled 9 9 12 ∷ []

happen_all-Agree_example : Agree empty_books (happen_all waits empty_books)
happen_all-Agree_example = happen_all-Agree waits empty_books
