-- ===== src/Stall/Tests.antt =====
-- Brackets of two waits, ended in the other order.
use understanding_smartnic.Prelude.{ℕ, ◌≡◌, refl, [], ◌∷◌, List, some, true, false, pos}
use understanding_smartnic.Stall.{
  World, Op, begins, ends, drains, counts, init, run, begin, end, drain, entries_of, find, forget,
  hold, step, set_iter, set_epoch,
}
use understanding_smartnic.Stall.Once.{IsOnce, run-IsOnce}

abbrev work : List (Op ℕ ℕ)
work =
    counts (pos 3) (pos 0)
    ∷ begins true 7
    ∷ begins true 8
    ∷ ends true 1
    ∷ ends true 0
    ∷ drains true (λ b. some 5)
    ∷ []

abbrev after : World ℕ ℕ
after = run (λ ms. false) 0 work (record { tracker = init; held = [] })

both_recorded :
    after.tracker.records
    ≡ record { epoch = pos 0; iter = pos 3; ag_id = 1; label = 8; ms = 5 }
      ∷ record { epoch = pos 0; iter = pos 3; ag_id = 0; label = 7; ms = 5 }
      ∷ []
unfolding run init step begin end drain entries_of find forget hold set_iter set_epoch
both_recorded = refl

run-IsOnce_example : IsOnce after
run-IsOnce_example = run-IsOnce (λ ms. false) 0 work
