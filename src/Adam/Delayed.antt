-- ===== src/Adam/Delayed.antt =====
-- Between `step_dpu` and `update_new_params`, with the worker and backward in any order.
use understanding_smartnic.Prelude.{
  ℕ, suc, ◌+◌, ◌-◌, ◌<◌, ◌≡◌, refl, sym, ap, ◌∙◌, List, [], ◌∷◌, ◌++◌, some, length, get_elem?,
  get_or, set, length-append, length-set, arith, if◌then◌else◌, ltb, true,
}
use understanding_smartnic.Prelude.Middle.{get_elem?-middle, set-middle, append_step}
use mathlib.Core.Path.{subst}
use understanding_smartnic.Adam.{
  World, Command, set_affinity, step, shutdown, receiving, stepping, done, step_sub_group, receive,
  adam_worker,
}
use understanding_smartnic.Adam.Quiet.{
  adam_groups, AreAffinities, written, read, HasShape, Underway, IsAt, asks, runs, ends,
}

module _ {Weight Grad Half : Type 0} (adam : ℕ → Weight → Grad → Weight) (group : ℕ → ℕ) where
  -- One round for subgroup `i`.
  step_sub_group_lem :
      (k i : ℕ) (w : World Weight Grad Half) (weight : Weight) (grad : Grad)
      → get_elem? w.fp32_partitioned_groups_flat i ≡ some weight
      → get_elem? (get_or w.fp32_grad_bufs k []) i ≡ some grad
      → step_sub_group adam group k i w ≡ record w {
        fp32_partitioned_groups_flat =
            set w.fp32_partitioned_groups_flat i (adam (group i) weight grad);
        phase = stepping k (suc i);
      }
  unfolding step_sub_group
  step_sub_group_lem k i w weight grad e f = ground arith

  -- A round keeps the buffers, the switch and the flag.
  record IsRound (n : ℕ) (target : List Weight) (left : ℕ) (w v : World Weight Grad Half)
      : Type 0 where
    weights : length v.fp32_partitioned_groups_flat ≡ n
    bufs : v.fp32_grad_bufs ≡ w.fp32_grad_bufs
    switch : v.grad_buf_switch ≡ w.grad_buf_switch
    pending : v.adam_step_pending ≡ w.adam_step_pending
    at : IsAt adam group target left v

  work-runs :
      (n : ℕ) (target : List Weight) (w : World Weight Grad Half) (i : ℕ) (ws rest : List Weight)
      (gs grads : List Grad)
      → HasShape n w
      → w.commands ≡ []
      → w.messages ≡ []
      → w.fp32_partitioned_groups_flat ≡ ws ++ rest
      → read w ≡ gs ++ grads
      → length ws ≡ i
      → length gs ≡ i
      → target ≡ ws ++ adam_groups adam group i rest grads
      → IsRound n target
          (length rest)
          w
          (adam_worker adam group n (stepping (1 - w.grad_buf_switch) i) w)
  unfolding adam_worker
  work-runs n target w i ws [] gs grads s c m e f lw lg t =
      let full : i ≡ n = omega (arith, s.weights, ap length e, length-append ws [], lw) in
      let out : adam_worker adam group n (stepping (1 - w.grad_buf_switch) i) w
          ≡ record w { messages = w.messages ++ done ∷ []; phase = receiving } =
        ground (arith, full) in
      rw out (record {
        weights = s.weights;
        bufs = refl;
        switch = refl;
        pending = refl;
        at = ends c refl (ap (λ l. l ++ done ∷ []) m) refl (t ∙ sym e);
      })
  work-runs n target w i ws (r ∷ rest) gs [] s c m e f lw lg t = absurd (
      omega (
        arith,
        s.weights,
        ap length e,
        length-append ws (r ∷ rest),
        lw,
        s.for_read,
        ap length f,
        length-append gs [],
        lg,
      ))
  work-runs n target w i ws (r ∷ rest) gs (g ∷ grads) s c m e f lw lg t =
      let more : i < n = omega (arith, s.weights, ap length e, length-append ws (r ∷ rest), lw) in
      let lt : ltb i n ≡ true = ground arith in
      let out : adam_worker adam group n (stepping (1 - w.grad_buf_switch) i) w ≡ record w {
        fp32_partitioned_groups_flat = set w.fp32_partitioned_groups_flat i (adam (group i) r g);
        phase = stepping (1 - w.grad_buf_switch) (suc i);
      } =
        ap
          (λ b.
            if b
            then step_sub_group adam group (1 - w.grad_buf_switch) i w
            else record w { messages = w.messages ++ done ∷ []; phase = receiving })
          lt
        ∙ step_sub_group_lem (1 - w.grad_buf_switch) i w r g
            (ap (λ l. get_elem? l i) e ∙ get_elem?-middle ws i r rest lw)
            (ap (λ l. get_elem? l i) f ∙ get_elem?-middle gs i g grads lg) in
      rw out (record {
        weights = length-set w.fp32_partitioned_groups_flat i (adam (group i) r g) ∙ s.weights;
        bufs = refl;
        switch = refl;
        pending = refl;
        at =
            runs (suc i) (ws ++ adam (group i) r g ∷ []) rest (gs ++ g ∷ []) grads c m refl
              (ap (λ l. set l i (adam (group i) r g)) e
                ∙ set-middle ws i r (adam (group i) r g) rest lw)
              (f ∙ append_step gs g grads)
              (omega (arith, lw, length-append ws (adam (group i) r g ∷ [])))
              (omega (arith, lg, length-append gs (g ∷ []))) refl
              (t ∙ append_step ws (adam (group i) r g) (adam_groups adam group (suc i) rest grads));
      })

  work-asks :
      (n : ℕ) (target : List Weight) (w : World Weight Grad Half) (before : List Command)
      → HasShape n w
      → AreAffinities before
      → w.messages ≡ []
      → target ≡ adam_groups adam group 0 w.fp32_partitioned_groups_flat (read w)
      → w.phase ≡ receiving
      → IsRound n target
          (length before + suc n)
          w
          (receive (before ++ step (1 - w.grad_buf_switch) ∷ []) w)
  unfolding receive
  work-asks n target w [] s a m t p = record {
    weights = s.weights;
    bufs = refl;
    switch = refl;
    pending = refl;
    at =
        runs 0 [] w.fp32_partitioned_groups_flat [] (read w) refl m refl refl refl refl refl
          (omega (arith, s.weights)) t;
  }
  work-asks n target w (set_affinity cpus ∷ before) s a m t p = record {
    weights = s.weights;
    bufs = refl;
    switch = refl;
    pending = refl;
    at = asks before a refl m p (omega (arith, s.weights)) t;
  }
  work-asks n target w (step k ∷ before) s a m t p = absurd a
  work-asks n target w (shutdown ∷ before) s a m t p = absurd a

  -- One round of the worker, whatever it is at.
  work-IsRound :
      (n : ℕ) (target : List Weight) (left : ℕ) (w : World Weight Grad Half)
      → HasShape n w
      → IsAt adam group target left w
      → IsRound n target (left - 1) w (adam_worker adam group n w.phase w)
  unfolding adam_worker receive
  work-IsRound n target left w s (asks before a c m p l t) =
      let count : length before + suc n ≡ left - 1 = omega (arith, l, s.weights) in
      let out : receive (before ++ step (1 - w.grad_buf_switch) ∷ []) w
          ≡ adam_worker adam group n w.phase w =
        ap (λ cs. receive cs w) (sym c) ∙ ap (λ q. adam_worker adam group n q w) (sym p) in
      subst (λ k. IsRound n target k w (adam_worker adam group n w.phase w)) count
        (subst (IsRound n target (length before + suc n) w) out
          (work-asks n target w before s a m t p))
  work-IsRound n target left w s (runs i ws rest gs grads c m p e f lw lg l t) =
      let count : length rest ≡ left - 1 = omega (arith, l) in
      subst (λ k. IsRound n target k w (adam_worker adam group n w.phase w)) count
        (subst (λ q. IsRound n target (length rest) w (adam_worker adam group n q w)) (sym p)
          (work-runs n target w i ws rest gs grads s c m e f lw lg t))
  work-IsRound n target left w s (ends c l m p t) =
      let count : left - 1 ≡ 0 = omega (arith, l) in
      let out : w ≡ adam_worker adam group n w.phase w =
        ap (λ cs. receive cs w) (sym c) ∙ ap (λ q. adam_worker adam group n q w) (sym p) in
      subst (IsRound n target (left - 1) w) out (record {
        weights = s.weights;
        bufs = refl;
        switch = refl;
        pending = refl;
        at = ends c count m p t;
      })

  -- A round leaves what is under way.
  pub work-Underway :
      (n : ℕ) (target : List Weight) (left : ℕ) (reads writes : List Grad)
      (w : World Weight Grad Half)
      → Underway adam group n target left reads writes w
      → Underway adam group n target (left - 1) reads writes (adam_worker adam group n w.phase w)
  work-Underway n target left reads writes w u =
      let v : World Weight Grad Half = adam_worker adam group n w.phase w in
      let r : IsRound n target (left - 1) w v = work-IsRound n target left w u.shape u.at in
      let same_read : read v ≡ read w =
        ap (λ b. get_or b (1 - v.grad_buf_switch) []) r.bufs
        ∙ ap (λ k. get_or w.fp32_grad_bufs (1 - k) []) r.switch in
      let same_written : written v ≡ written w =
        ap (λ b. get_or b v.grad_buf_switch []) r.bufs
        ∙ ap (λ k. get_or w.fp32_grad_bufs k []) r.switch in
      record {
        shape = record {
          weights = r.weights;
          two = ap length r.bufs ∙ u.shape.two;
          switch = omega (arith, r.switch, u.shape.switch);
          for_write = ap length same_written ∙ u.shape.for_write;
          for_read = ap length same_read ∙ u.shape.for_read;
        };
        at = r.at;
        pending = r.pending ∙ u.pending;
        same_read = same_read ∙ u.same_read;
        same_written = same_written ∙ u.same_written;
      }
