-- ===== src/Adam/First.antt =====
-- The first iteration, in which no step is asked for.
use understanding_smartnic.Prelude.{
  ℕ, zero, suc, ◌-◌, ◌<◌, ◌≤◌, ◌≡◌, refl, sym, ap, ◌∙◌, List, [], ◌∷◌, map, length, get_or, true,
  false, if◌then◌else◌, ok, err, ◌>>=◌, arith, set, length-set, get_or-set_ne, get_or-set_self, ◌≢◌,
}
use mathlib.Core.Path.{subst}
use understanding_smartnic.Adam.{
  World, Command, Action, work, write, adam_worker, receive, step_dpu, publish, await_done,
  update_new_params, update_within, perform, iteration, raises, returns, step, set_affinity,
  shutdown,
}
use understanding_smartnic.Adam.Published.{IsUpdated, publish-IsUpdated}
use understanding_smartnic.Adam.Quiet.{AreAffinities, written, read, IsQuiet}
use understanding_smartnic.Adam.Writes.{write_to, write_all, offload_grad_lem, length-write_to}
use understanding_smartnic.Adam.Finishes.{AreBelow}

module _ {Weight Grad Half : Type 0} (adam : ℕ → Weight → Grad → Weight) (group : ℕ → ℕ) where
  -- What is known while no step is asked for.
  record Rests (n most : ℕ) (weights : List Weight) (reads writes : List Grad)
      (w : World Weight Grad Half) : Type 0 where
    quiet : IsQuiet n w
    pending : w.adam_step_pending ≡ false
    same_weights : w.fp32_partitioned_groups_flat ≡ weights
    same_read : read w ≡ reads
    same_written : written w ≡ writes
    told : length w.commands ≤ most

  receive-Rests :
      (n most : ℕ) (weights : List Weight) (reads writes : List Grad) (cs : List Command)
      (w : World Weight Grad Half)
      → AreAffinities cs
      → length cs ≤ most
      → w.commands ≡ cs
      → Rests n most weights reads writes w
      → Rests n most weights reads writes (receive cs w)
  unfolding receive
  receive-Rests n most weights reads writes [] w a l c r = r
  receive-Rests n most weights reads writes (set_affinity cpus ∷ cs) w a l c r = record {
    quiet = record {
      shape = record {
        weights = r.quiet.shape.weights;
        two = r.quiet.shape.two;
        switch = r.quiet.shape.switch;
        for_write = r.quiet.shape.for_write;
        for_read = r.quiet.shape.for_read;
      };
      waits = r.quiet.waits;
      asked = a;
      answered = r.quiet.answered;
    };
    pending = r.pending;
    same_weights = r.same_weights;
    same_read = r.same_read;
    same_written = r.same_written;
    told = omega arith;
  }
  receive-Rests n most weights reads writes (step k ∷ cs) w a l c r = absurd a
  receive-Rests n most weights reads writes (shutdown ∷ cs) w a l c r = absurd a

  work-Rests :
      (n most : ℕ) (weights : List Weight) (reads writes : List Grad) (w : World Weight Grad Half)
      → Rests n most weights reads writes w
      → Rests n most weights reads writes (adam_worker adam group n w.phase w)
  unfolding adam_worker
  work-Rests n most weights reads writes w r =
      subst (λ q. Rests n most weights reads writes (adam_worker adam group n q w))
        (sym r.quiet.waits)
        (receive-Rests n most weights reads writes w.commands w r.quiet.asked r.told refl r)

  write-Rests :
      (n most : ℕ) (weights : List Weight) (reads writes : List Grad) (i : ℕ) (change : Grad → Grad)
      (w : World Weight Grad Half)
      → Rests n most weights reads writes w
      → Rests n most weights reads (write_to i change writes) (record w {
        fp32_grad_bufs = set w.fp32_grad_bufs w.grad_buf_switch (write_to i change (written w));
      })
  write-Rests n most weights reads writes i change w r =
      let s = r.quiet.shape in
      let v = write_to i change (written w) in
      let other : w.grad_buf_switch ≢ 1 - w.grad_buf_switch = omega (arith, s.switch) in
      let here : w.grad_buf_switch < length w.fp32_grad_bufs = omega (arith, s.switch, s.two) in
      let same_read : get_or (set w.fp32_grad_bufs w.grad_buf_switch v) (1 - w.grad_buf_switch) []
          ≡ read w =
        get_or-set_ne w.fp32_grad_bufs v [] other in
      let new : get_or (set w.fp32_grad_bufs w.grad_buf_switch v) w.grad_buf_switch [] ≡ v =
        get_or-set_self w.fp32_grad_bufs w.grad_buf_switch v [] here in
      record {
        quiet = record {
          shape = record {
            weights = s.weights;
            two = length-set w.fp32_grad_bufs w.grad_buf_switch v ∙ s.two;
            switch = s.switch;
            for_write = ap length new ∙ length-write_to i change (written w) ∙ s.for_write;
            for_read = ap length same_read ∙ s.for_read;
          };
          waits = r.quiet.waits;
          asked = r.quiet.asked;
          answered = r.quiet.answered;
        };
        pending = r.pending;
        same_weights = r.same_weights;
        same_read = same_read ∙ r.same_read;
        same_written = new ∙ ap (write_to i change) r.same_written;
        told = r.told;
      }

  perform-Rests :
      (n most : ℕ) (weights : List Weight) (reads writes : List Grad) (actions : List (Action Grad))
      (w : World Weight Grad Half)
      → AreBelow n actions
      → Rests n most weights reads writes w
      → (v : World Weight Grad Half) × (perform adam group n actions w ≡ ok v)
        × Rests n most weights reads (write_all actions writes) v
  unfolding perform
  perform-Rests n most weights reads writes [] w b r = (w, refl, r)
  perform-Rests n most weights reads writes (work ∷ rest) w b r =
      perform-Rests n most weights reads writes rest (adam_worker adam group n w.phase w) b
        (work-Rests n most weights reads writes w r)
  perform-Rests n most weights reads writes (write i change ∷ rest) w b r =
      let (v, e, x) =
        perform-Rests n most weights reads (write_to i change writes) rest _ b.1
          (write-Rests n most weights reads writes i change w r) in
      (
        v,
        ap (λ q. q >>= perform adam group n rest)
              (offload_grad_lem i change w (omega (arith, b.0, r.quiet.shape.for_write)))
            ∙ e,
        x,
      )

  -- Without a step that was asked for, the update does not wait.
  update_within-quiet :
      (rounds n : ℕ) (half : Weight → Half) (w : World Weight Grad Half)
      → w.adam_step_pending ≡ false
      → update_within adam group n half rounds w ≡ returns (publish half w)
  unfolding update_within update_new_params
  update_within-quiet zero n half w e =
      ap (λ b. if b then await_done half w.messages w else returns (publish half w)) e
  update_within-quiet (suc rounds) n half w e =
      let now : update_new_params half w ≡ returns (publish half w) =
        ap (λ b. if b then await_done half w.messages w else returns (publish half w)) e in
      rw (now, update_within) refl

  -- The first iteration returns and leaves the weights.
  pub iteration-first :
      (n rounds : ℕ) (half : Weight → Half) (actions : List (Action Grad))
      (w : World Weight Grad Half)
      → IsQuiet n w
      → AreBelow n actions
      → (v : World Weight Grad Half) × (iteration adam group n half rounds true actions w
          ≡ returns v)
        × IsUpdated n
            (length w.commands)
            half
            w.fp32_partitioned_groups_flat
            (read w)
            (write_all actions (written w))
            v
  unfolding iteration step_dpu
  iteration-first n rounds half actions w q b =
      let start : Rests n (length w.commands) w.fp32_partitioned_groups_flat (read w) (written w)
          (record w { adam_step_pending = false }) =
        record {
          quiet = record {
            shape = record {
              weights = q.shape.weights;
              two = q.shape.two;
              switch = q.shape.switch;
              for_write = q.shape.for_write;
              for_read = q.shape.for_read;
            };
            waits = q.waits;
            asked = q.asked;
            answered = q.answered;
          };
          pending = refl;
          same_weights = refl;
          same_read = refl;
          same_written = refl;
          told = omega arith;
        } in
      let (x, e, r) =
        perform-Rests n (length w.commands) w.fp32_partitioned_groups_flat (read w) (written w)
          actions (record w { adam_step_pending = false }) b start in
      let y = publish-IsUpdated n half x r.quiet in
      (
        publish half x,
        ap (λ o. elim o [ err e ↦ raises e | ok v ↦ update_within adam group n half rounds v ]) e
            ∙ update_within-quiet rounds n half x r.pending,
        record {
          weights = y.weights ∙ r.same_weights;
          copies = y.copies ∙ ap (map half) r.same_weights;
          next_read = y.next_read ∙ r.same_written;
          next_written = y.next_written ∙ r.same_read;
          quiet = y.quiet;
          told = omega (arith, y.told, r.told);
        },
      )
