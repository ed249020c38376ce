-- ===== src/Adam/Published.antt =====
-- What the end of an update makes of the state.
use understanding_smartnic.Prelude.{
  ℕ, ◌-◌, ◌≤◌, ◌≡◌, refl, ap, ◌∙◌, List, [], map, length, get_or, arith,
}
use understanding_smartnic.Adam.{World, publish}
use understanding_smartnic.Adam.Quiet.{written, read, IsQuiet}

module _ {Weight Grad Half : Type 0} where
  -- What holds after an update; `most` bounds the commands that are still on their way.
  pub record IsUpdated (n most : ℕ) (half : Weight → Half) (target : List Weight)
      (reads writes : List Grad) (v : World Weight Grad Half) : Type 0 where
    pub weights : v.fp32_partitioned_groups_flat ≡ target
    pub copies : v.fp16_partitioned_groups_flat ≡ map half target
    pub next_read : read v ≡ writes
    pub next_written : written v ≡ reads
    pub quiet : IsQuiet n v
    pub told : length v.commands ≤ most

  pub publish-IsUpdated :
      (n : ℕ) (half : Weight → Half) (w : World Weight Grad Half)
      → IsQuiet n w
      → IsUpdated n
          (length w.commands)
          half
          w.fp32_partitioned_groups_flat
          (read w)
          (written w)
          (publish half w)
  unfolding publish
  publish-IsUpdated n half w q =
      let back : 1 - (1 - w.grad_buf_switch) ≡ w.grad_buf_switch = omega (arith, q.shape.switch) in
      let again : get_or w.fp32_grad_bufs (1 - (1 - w.grad_buf_switch)) [] ≡ written w =
        ap (λ k. get_or w.fp32_grad_bufs k []) back in
      record {
        weights = refl;
        copies = refl;
        next_read = again;
        next_written = refl;
        quiet = record {
          shape = record {
            weights = q.shape.weights;
            two = q.shape.two;
            switch = omega (arith, q.shape.switch);
            for_write = q.shape.for_read;
            for_read = ap length again ∙ q.shape.for_write;
          };
          waits = q.waits;
          asked = q.asked;
          answered = q.answered;
        };
        told = omega arith;
      }
