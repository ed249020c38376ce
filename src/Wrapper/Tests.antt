-- ===== src/Wrapper/Tests.antt =====
-- Seven micro steps, with an optimizer that counts its steps.
use understanding_smartnic.Prelude.{ℕ, ◌+◌, ◌≡◌, Bool, ok, if◌then◌else◌, arith}
use understanding_smartnic.Wrapper.Boundary.{steps_dpu, fresh, after, steps_dpu-after}

abbrev counting : Bool → ℕ → ℕ
counting first_step n = if first_step then n + 100 else n + 1

steps_dpu-after_example : steps_dpu counting 7 (fresh 3 0) ≡ ok (after counting 3 0 7 2)
steps_dpu-after_example = steps_dpu-after counting 3 0 (omega arith) 7
