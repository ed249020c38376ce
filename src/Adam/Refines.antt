-- ===== src/Adam/Refines.antt =====
-- Training with the delayed update is training with gradients that are one iteration old.
use understanding_smartnic.Prelude.{ℕ, List, [], ◌∷◌}
use understanding_smartnic.Adam.{Action}
use understanding_smartnic.Adam.Quiet.{adam_groups}
use understanding_smartnic.Adam.Writes.{write_all}
use understanding_smartnic.Adam.Finishes.{AreBelow}

-- The weights after the iterations, without processes or buffers: each iteration applies the
-- gradients of the one before, and its own are left for the next.
unfoldable pub delayed :
    {Weight Grad : Type 0}
    → (ℕ → Weight → Grad → Weight)
    → (ℕ → ℕ)
    → List (List (Action Grad))
    → List Weight
    → List Grad
    → List Grad
    → List Weight
delayed adam group [] weights previous spare = weights
delayed adam group (actions ∷ rest) weights previous spare =
    delayed adam group rest (adam_groups adam group 0 weights previous) (write_all actions spare)
      previous

-- Every write of every iteration is to one of the `n` subgroups.
abbrev pub AreAllBelow : {Grad : Type 0} → ℕ → List (List (Action Grad)) → Type 0
AreAllBelow n [] = Unit
AreAllBelow n (actions ∷ rest) = AreBelow n actions × AreAllBelow n rest
