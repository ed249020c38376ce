-- ===== src/Adam/Tests.antt =====
-- Two subgroups; weights and gradients are numbers, and the optimizer adds a gradient.
use understanding_smartnic.Prelude.{ℕ, ◌+◌, ◌≡◌, ◌≢◌, refl, List, [], ◌∷◌, false, ok, arith}
use understanding_smartnic.Adam.{
  World, Action, work, write, Message, stepping, receiving, step_dpu, perform,
}
use understanding_smartnic.Adam.Quiet.{IsQuiet}
use understanding_smartnic.Adam.Finishes.{perform-apart}
use understanding_smartnic.Adam.Step.{step_groups, step_groups-adam_groups}

abbrev adds : ℕ → ℕ → ℕ → ℕ
adds group weight grad = weight + grad

abbrev world : World ℕ ℕ ℕ
world = record {
  fp32_partitioned_groups_flat = 10 ∷ 20 ∷ [];
  fp32_grad_bufs = (1 ∷ 2 ∷ []) ∷ (3 ∷ 4 ∷ []) ∷ [];
  fp16_partitioned_groups_flat = 10 ∷ 20 ∷ [];
  grad_buf_switch = 0;
  adam_step_pending = false;
  commands = [];
  messages = [];
  phase = receiving;
}

abbrev pass : List (Action ℕ)
pass = write 0 (λ g. 5) ∷ work ∷ work ∷ write 1 (λ g. 7) ∷ []

world-IsQuiet : IsQuiet 2 world
world-IsQuiet = record {
  shape = record {
    weights = refl;
    two = refl;
    switch = omega arith;
    for_write = refl;
    for_read = refl;
  };
  waits = refl;
  asked = tt;
  answered = refl;
}

perform-apart_example :
    (v : World ℕ ℕ ℕ) × (perform adds (λ i. i) 2 pass (step_dpu false world) ≡ ok v)
    × ((k i : ℕ) → v.phase ≡ stepping k i → k ≢ v.grad_buf_switch)
    × ((m : Message) (ms : List Message) → v.messages ≡ m ∷ ms → v.phase ≡ receiving)
perform-apart_example =
    perform-apart adds (λ i. i) 2 pass world world-IsQuiet (omega arith, (omega arith, tt))

step_groups-adam_groups_example :
    step_groups adds (λ i. i) (λ w. w) 0 2 world
    ≡ ok (record world {
      fp32_partitioned_groups_flat = 11 ∷ 22 ∷ [];
      fp16_partitioned_groups_flat = 11 ∷ 22 ∷ [];
    })
step_groups-adam_groups_example = step_groups-adam_groups adds (λ i. i) (λ w. w) world refl refl
