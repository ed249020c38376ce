-- ===== src/Adam/Quiet.antt =====
-- The states of the delayed update: the worker at rest, and at each point of a step.
use understanding_smartnic.Prelude.{
  ℕ, suc, ◌+◌, ◌-◌, ◌<◌, ◌≡◌, refl, List, [], ◌∷◌, ◌++◌, length, get_or, true, false, arith,
}
use understanding_smartnic.Adam.{
  World, Command, step_dpu, set_affinity, step, shutdown, receiving, stepping, done,
}

-- What a step of the optimizer on all subgroups from subgroup `i` on makes of the weights.
abbrev pub adam_groups :
    {Weight Grad : Type 0}
    → (ℕ → Weight → Grad → Weight)
    → (ℕ → ℕ)
    → ℕ
    → List Weight
    → List Grad
    → List Weight
adam_groups adam group i [] grads = []
adam_groups adam group i (w ∷ ws) [] = w ∷ ws
adam_groups adam group i (w ∷ ws) (g ∷ grads) =
    adam (group i) w g ∷ adam_groups adam group (suc i) ws grads

-- Commands that only bind the worker to processors.
abbrev pub AreAffinities : List Command → Type 0
AreAffinities [] = Unit
AreAffinities (set_affinity cpus ∷ cs) = AreAffinities cs
AreAffinities (step k ∷ cs) = ⊥
AreAffinities (shutdown ∷ cs) = ⊥

module _ {Weight Grad Half : Type 0} where
  -- The buffer that backward writes, and the one that the worker reads.
  abbrev pub written : World Weight Grad Half → List Grad
  written w = get_or w.fp32_grad_bufs w.grad_buf_switch []

  abbrev pub read : World Weight Grad Half → List Grad
  read w = get_or w.fp32_grad_bufs (1 - w.grad_buf_switch) []

  -- One weight and two gradients for each of the `n` subgroups.
  pub record HasShape (n : ℕ) (w : World Weight Grad Half) : Type 0 where
    pub weights : length w.fp32_partitioned_groups_flat ≡ n
    pub two : length w.fp32_grad_bufs ≡ 2
    pub switch : w.grad_buf_switch < 2
    pub for_write : length (written w) ≡ n
    pub for_read : length (read w) ≡ n

  -- The worker waits, and nothing but affinities is on its way.
  pub record IsQuiet (n : ℕ) (w : World Weight Grad Half) : Type 0 where
    pub shape : HasShape n w
    pub waits : w.phase ≡ receiving
    pub asked : AreAffinities w.commands
    pub answered : w.messages ≡ []

  -- A step is asked for, runs, or is done, and leaves the weights `target` after `left` more rounds
  -- of the worker.
  pub data IsAt (adam : ℕ → Weight → Grad → Weight) (group : ℕ → ℕ) (target : List Weight)
      (left : ℕ) (w : World Weight Grad Half) : Type 0 where
    asks :
        (before : List Command)
        → AreAffinities before
        → w.commands ≡ before ++ step (1 - w.grad_buf_switch) ∷ []
        → w.messages ≡ []
        → w.phase ≡ receiving
        → left ≡ length before + suc (suc (length w.fp32_partitioned_groups_flat))
        → target ≡ adam_groups adam group 0 w.fp32_partitioned_groups_flat (read w)
        → IsAt adam group target left w
    runs :
        (i : ℕ) (ws rest : List Weight) (gs grads : List Grad)
        → w.commands ≡ []
        → w.messages ≡ []
        → w.phase ≡ stepping (1 - w.grad_buf_switch) i
        → w.fp32_partitioned_groups_flat ≡ ws ++ rest
        → read w ≡ gs ++ grads
        → length ws ≡ i
        → length gs ≡ i
        → left ≡ suc (length rest)
        → target ≡ ws ++ adam_groups adam group i rest grads
        → IsAt adam group target left w
    ends :
        w.commands ≡ []
        → left ≡ 0
        → w.messages ≡ done ∷ []
        → w.phase ≡ receiving
        → target ≡ w.fp32_partitioned_groups_flat
        → IsAt adam group target left w

  -- A step that was asked for, with the buffer that the worker reads and what backward has written.
  pub record Underway (adam : ℕ → Weight → Grad → Weight) (group : ℕ → ℕ) (n : ℕ)
      (target : List Weight) (left : ℕ) (reads writes : List Grad) (w : World Weight Grad Half)
      : Type 0 where
    pub shape : HasShape n w
    pub at : IsAt adam group target left w
    pub pending : w.adam_step_pending ≡ true
    pub same_read : read w ≡ reads
    pub same_written : written w ≡ writes

module _ {Weight Grad Half : Type 0} (adam : ℕ → Weight → Grad → Weight) (group : ℕ → ℕ) where
  -- `step_dpu` asks for a step on the buffer that the last iteration wrote.
  pub step_dpu-Underway :
      (n : ℕ) (w : World Weight Grad Half)
      → IsQuiet n w
      → Underway adam group n
          (adam_groups adam group 0 w.fp32_partitioned_groups_flat (read w))
          (length w.commands + suc (suc n))
          (read w)
          (written w)
          (step_dpu false w)
  unfolding step_dpu
  step_dpu-Underway n w q = record {
    shape = record {
      weights = q.shape.weights;
      two = q.shape.two;
      switch = q.shape.switch;
      for_write = q.shape.for_write;
      for_read = q.shape.for_read;
    };
    at = asks w.commands q.asked refl q.answered q.waits (omega (arith, q.shape.weights)) refl;
    pending = refl;
    same_read = refl;
    same_written = refl;
  }
