-- ===== src/Adam/Finishes.antt =====
-- The delayed update returns, and does to the weights what the optimizer does with the gradients of
-- the iteration before.
use understanding_smartnic.Prelude.{
  ℕ, zero, suc, ◌+◌, ◌-◌, ◌<◌, ◌≤◌, ◌≡◌, ◌≢◌, refl, sym, ap, ◌∙◌, List, [], ◌∷◌, map, length, false,
  if◌then◌else◌, ok, ◌>>=◌, arith,
}
use mathlib.Core.Path.{subst}
use understanding_smartnic.Adam.{
  World, Message, Action, work, write, adam_worker, step_dpu, publish, await_done,
  update_new_params, update_within, perform, blocks, returns, receiving, stepping,
}
use understanding_smartnic.Adam.Quiet.{
  adam_groups, step_dpu-Underway, AreAffinities, written, read, IsQuiet, Underway, asks, runs, ends,
}
use understanding_smartnic.Adam.Published.{IsUpdated, publish-IsUpdated}
use understanding_smartnic.Adam.Delayed.{work-Underway}
use understanding_smartnic.Adam.Writes.{write_to, write_all, offload_grad_lem, write-Underway}

-- Every write is to one of the `n` subgroups.
abbrev pub AreBelow : {Grad : Type 0} → ℕ → List (Action Grad) → Type 0
AreBelow n [] = Unit
AreBelow n (work ∷ rest) = AreBelow n rest
AreBelow n (write i change ∷ rest) = (i < n) × AreBelow n rest

module _ {Weight Grad Half : Type 0} (adam : ℕ → Weight → Grad → Weight) (group : ℕ → ℕ) where
  -- What is known when a step is under way and backward goes on.
  pub perform-Underway :
      (n : ℕ) (target : List Weight) (left : ℕ) (reads writes : List Grad)
      (actions : List (Action Grad)) (w : World Weight Grad Half)
      → AreBelow n actions
      → Underway adam group n target left reads writes w
      → (v : World Weight Grad Half) × (m : ℕ) × (perform adam group n actions w ≡ ok v)
        × (m ≤ left)
        × Underway adam group n target m reads (write_all actions writes) v
  unfolding perform
  perform-Underway n target left reads writes [] w b u = (w, left, refl, omega arith, u)
  perform-Underway n target left reads writes (work ∷ rest) w b u =
      let (v, m, e, l, x) =
        perform-Underway n target (left - 1) reads writes rest (adam_worker adam group n w.phase w)
          b (work-Underway adam group n target left reads writes w u) in
      (v, m, e, omega (arith, l), x)
  perform-Underway n target left reads writes (write i change ∷ rest) w b u =
      let (v, m, e, l, x) =
        perform-Underway n target left reads (write_to i change writes) rest _ b.1
          (write-Underway adam group n target left reads writes i change w u) in
      (
        v,
        m,
        ap (λ r. r >>= perform adam group n rest)
              (offload_grad_lem i change w (omega (arith, b.0, u.shape.for_write)))
            ∙ e,
        l,
        x,
      )

  -- The worker has not answered before its last round.
  silent :
      (n : ℕ) (target : List Weight) (left : ℕ) (reads writes : List Grad) (half : Weight → Half)
      (w : World Weight Grad Half)
      → Underway adam group n target (suc left) reads writes w
      → update_new_params half w ≡ blocks
  unfolding update_new_params await_done
  silent n target left reads writes half w u = elim (u.at) [
    | asks before a c m p l t ↦
        ap (λ b. if b then await_done half w.messages w else returns (publish half w)) u.pending
        ∙ ap (λ ms. await_done half ms w) m
    | runs i ws rest gs grads c m p we f lw lg l t ↦
        ap (λ b. if b then await_done half w.messages w else returns (publish half w)) u.pending
        ∙ ap (λ ms. await_done half ms w) m
    | ends c l m p t ↦ absurd (omega (arith, l))
  ]

  -- At the end of the worker's rounds the update goes through.
  finished :
      (n most : ℕ) (target : List Weight) (reads writes : List Grad) (half : Weight → Half)
      (w : World Weight Grad Half)
      → Underway adam group n target 0 reads writes w
      → (v : World Weight Grad Half) × (update_new_params half w ≡ returns v)
        × IsUpdated n most half target reads writes v
  unfolding update_new_params await_done
  finished n most target reads writes half w u = elim (u.at) [
    | asks before a c m p l t ↦ absurd (omega (arith, l))
    | runs i ws rest gs grads c m p we f lw lg l t ↦ absurd (omega (arith, l))
    | ends c l m p t ↦
        let x : World Weight Grad Half = record w { messages = [] } in
        let quiet : IsQuiet n x = record {
          shape = record {
            weights = u.shape.weights;
            two = u.shape.two;
            switch = u.shape.switch;
            for_write = u.shape.for_write;
            for_read = u.shape.for_read;
          };
          waits = p;
          asked = subst AreAffinities (sym c) tt;
          answered = refl;
        } in
        let done_x = publish-IsUpdated n half x quiet in
        (
          publish half x,
          ap (λ b. if b then await_done half w.messages w else returns (publish half w)) u.pending
              ∙ ap (λ ms. await_done half ms w) m,
          record {
            weights = done_x.weights ∙ sym t;
            copies = done_x.copies ∙ ap (map half) (sym t);
            next_read = done_x.next_read ∙ u.same_written;
            next_written = done_x.next_written ∙ u.same_read;
            quiet = done_x.quiet;
            told = omega (arith, ap length c);
          },
        )
  ]

  -- From a step that is under way, the update returns within the rounds that are left.
  pub update_within-Underway :
      (n most : ℕ) (target : List Weight) (left rounds : ℕ) (reads writes : List Grad)
      (half : Weight → Half) (w : World Weight Grad Half)
      → left ≤ rounds
      → Underway adam group n target left reads writes w
      → (v : World Weight Grad Half) × (update_within adam group n half rounds w ≡ returns v)
        × IsUpdated n most half target reads writes v
  unfolding update_within
  update_within-Underway n most target zero zero reads writes half w h u =
      finished n most target reads writes half w u
  update_within-Underway n most target zero (suc rounds) reads writes half w h u =
      let (v, e, x) = finished n most target reads writes half w u in
      (v, rw (e, update_within) refl, x)
  update_within-Underway n most target (suc left) zero reads writes half w h u =
      absurd (omega arith)
  update_within-Underway n most target (suc left) (suc rounds) reads writes half w h u =
      let fewer : suc left - 1 ≡ left = omega arith in
      let next : Underway adam group n target left reads writes
          (adam_worker adam group n w.phase w) =
        subst
          (λ k. Underway adam group n target k reads writes (adam_worker adam group n w.phase w))
          fewer (work-Underway adam group n target (suc left) reads writes w u) in
      let (v, e, x) =
        update_within-Underway n most target left rounds reads writes half
          (adam_worker adam group n w.phase w) (omega arith) next in
      (v, rw (silent n target left reads writes half w u, update_within) e, x)

  -- While a step is under way, the buffer that the worker reads is not the one that backward writes,
  -- and once the worker has answered it is at rest.
  Underway-apart :
      (n : ℕ) (target : List Weight) (left : ℕ) (reads writes : List Grad)
      (w : World Weight Grad Half)
      → Underway adam group n target left reads writes w
      → ((k i : ℕ) → w.phase ≡ stepping k i → k ≢ w.grad_buf_switch)
        × ((m : Message) (ms : List Message) → w.messages ≡ m ∷ ms → w.phase ≡ receiving)
  Underway-apart n target left reads writes w u = elim (u.at) [
    | asks before a c m p l t ↦ ((λ k i e. cc), λ x xs e. p)
    | runs j ws rest gs grads c m p we f lw lg l t ↦ (
      (λ k i e. let same : 1 - w.grad_buf_switch ≡ k = cc in omega (arith, same, u.shape.switch)),
      λ x xs e. cc,
    )
    | ends c l m p t ↦ ((λ k i e. cc), λ x xs e. p)
  ]

  -- Let the worker rest with nothing but affinities on its way, ask for a step by `step_dpu`, and let
  -- the worker's rounds and backward's writes to the subgroups come in any order. No write raises. If
  -- the worker is then inside the step, the gradient buffer that it reads is not the one that
  -- backward writes; and if it has answered, it is back at `recv`, so that `update_new_params` copies
  -- weights that nobody changes.
  pub perform-apart :
      (n : ℕ) (actions : List (Action Grad)) (w : World Weight Grad Half)
      → IsQuiet n w
      → AreBelow n actions
      → (v : World Weight Grad Half) × (perform adam group n actions (step_dpu false w) ≡ ok v)
        × ((k i : ℕ) → v.phase ≡ stepping k i → k ≢ v.grad_buf_switch)
        × ((m : Message) (ms : List Message) → v.messages ≡ m ∷ ms → v.phase ≡ receiving)
  perform-apart n actions w q b =
      let target : List Weight = adam_groups adam group 0 w.fp32_partitioned_groups_flat (read w) in
      let (v, m, e, l, u) =
        perform-Underway n target (length w.commands + suc (suc n)) (read w) (written w) actions
          (step_dpu false w) b (step_dpu-Underway adam group n w q) in
      let (x, y) = Underway-apart n target m (read w) (write_all actions (written w)) v u in
      (v, e, x, y)
