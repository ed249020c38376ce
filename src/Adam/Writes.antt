-- ===== src/Adam/Writes.antt =====
-- What backward writes into its buffer while the worker reads the other one.
use understanding_smartnic.Prelude.{
  ℕ, zero, suc, ◌-◌, ◌<◌, ◌≡◌, ◌≢◌, refl, sym, ap, ◌∙◌, List, [], ◌∷◌, some, none, length,
  get_elem?, get_or, set, length-set, get_or-set_ne, get_or-set_self, arith, none, ok, err,
  index_error,
}
use understanding_smartnic.Adam.{World, offload_grad, Action, work, write}
use understanding_smartnic.Adam.Quiet.{adam_groups, written, read, Underway, IsAt, asks, runs, ends}

-- What the writes make of the buffer.
abbrev pub write_to {ℓ} : {Grad : Type ℓ} → ℕ → (Grad → Grad) → List Grad → List Grad
write_to i change [] = []
write_to zero change (g ∷ gs) = change g ∷ gs
write_to (suc i) change (g ∷ gs) = g ∷ write_to i change gs

abbrev pub write_all : {Grad : Type 0} → List (Action Grad) → List Grad → List Grad
write_all [] gs = gs
write_all (work ∷ rest) gs = write_all rest gs
write_all (write i change ∷ rest) gs = write_all rest (write_to i change gs)

get_elem?-below {ℓ} :
    {A : Type ℓ} (xs : List A) (i : ℕ) → i < length xs → (x : A) × (get_elem? xs i ≡ some x)
get_elem?-below [] i h = absurd (omega arith)
get_elem?-below (x ∷ xs) zero h = (x, refl)
get_elem?-below (x ∷ xs) (suc i) h = get_elem?-below xs i (omega arith)

pub length-write_to {ℓ} :
    {Grad : Type ℓ} (i : ℕ) (change : Grad → Grad) (gs : List Grad)
    → length (write_to i change gs) ≡ length gs
length-write_to i change [] = refl
length-write_to zero change (g ∷ gs) = refl
length-write_to (suc i) change (g ∷ gs) = ap suc (length-write_to i change gs)

pub length-write_all :
    {Grad : Type 0} (actions : List (Action Grad)) (gs : List Grad)
    → length (write_all actions gs) ≡ length gs
length-write_all [] gs = refl
length-write_all (work ∷ rest) gs = length-write_all rest gs
length-write_all (write i change ∷ rest) gs =
    length-write_all rest (write_to i change gs) ∙ length-write_to i change gs

write_to-some {ℓ} :
    {Grad : Type ℓ} (i : ℕ) (change : Grad → Grad) (gs : List Grad) (g : Grad)
    → get_elem? gs i ≡ some g
    → set gs i (change g) ≡ write_to i change gs
write_to-some i change [] g e = cc
write_to-some zero change (h ∷ gs) g e = let same : h ≡ g = cc in ap (λ x. change x ∷ gs) (sym same)
write_to-some (suc i) change (h ∷ gs) g e = ap (◌∷◌ h) (write_to-some i change gs g e)

module _ {Weight Grad Half : Type 0} where
  -- A write is a change of the buffer that the switch names.
  pub offload_grad_lem :
      (i : ℕ) (change : Grad → Grad) (w : World Weight Grad Half)
      → i < length (written w)
      → offload_grad i change w
        ≡ ok (record w {
          fp32_grad_bufs = set w.fp32_grad_bufs w.grad_buf_switch (write_to i change (written w));
        })
  unfolding offload_grad
  offload_grad_lem i change w h =
      let (g, e) = get_elem?-below (written w) i h in
      ap
        (λ o. elim o [
          | none ↦ err index_error
          | some grad ↦ ok (record w {
            fp32_grad_bufs =
                set w.fp32_grad_bufs w.grad_buf_switch (set (written w) i (change grad));
          })
        ])
        e
      ∙ ap (λ b. ok (record w { fp32_grad_bufs = set w.fp32_grad_bufs w.grad_buf_switch b }))
          (write_to-some i change (written w) g e)

  -- The point that the worker is at depends on the buffer that it reads only.
  IsAt-other :
      {adam : ℕ → Weight → Grad → Weight} {group : ℕ → ℕ} {target : List Weight} {left : ℕ}
      (w : World Weight Grad Half) (bufs : List (List Grad))
      → IsAt adam group target left w
      → get_or bufs (1 - w.grad_buf_switch) [] ≡ read w
      → IsAt adam group target left (record w { fp32_grad_bufs = bufs })
  IsAt-other {adam} {group} w bufs (asks before a c m p l t) e =
      asks before a c m p l
        (t ∙ ap (adam_groups adam group 0 w.fp32_partitioned_groups_flat) (sym e))
  IsAt-other w bufs (runs i ws rest gs grads c m p we f lw lg l t) e =
      runs i ws rest gs grads c m p we (e ∙ f) lw lg l t
  IsAt-other w bufs (ends c l m p t) e = ends c l m p t

  -- A write leaves what is under way, and is seen in the buffer that backward writes only.
  pub write-Underway :
      (adam : ℕ → Weight → Grad → Weight) (group : ℕ → ℕ) (n : ℕ) (target : List Weight) (left : ℕ)
      (reads writes : List Grad) (i : ℕ) (change : Grad → Grad) (w : World Weight Grad Half)
      → Underway adam group n target left reads writes w
      → Underway adam group n target left reads (write_to i change writes) (record w {
        fp32_grad_bufs = set w.fp32_grad_bufs w.grad_buf_switch (write_to i change (written w));
      })
  write-Underway adam group n target left reads writes i change w u =
      let other : w.grad_buf_switch ≢ 1 - w.grad_buf_switch = omega (arith, u.shape.switch) in
      let below : w.grad_buf_switch < length w.fp32_grad_bufs =
        omega (arith, u.shape.switch, u.shape.two) in
      let same_read : get_or
            (set w.fp32_grad_bufs w.grad_buf_switch (write_to i change (written w)))
            (1 - w.grad_buf_switch) []
          ≡ read w =
        get_or-set_ne w.fp32_grad_bufs (write_to i change (written w)) [] other in
      let new : get_or (set w.fp32_grad_bufs w.grad_buf_switch (write_to i change (written w)))
            w.grad_buf_switch []
          ≡ write_to i change (written w) =
        get_or-set_self w.fp32_grad_bufs w.grad_buf_switch (write_to i change (written w)) []
          below in
      record {
        shape = record {
          weights = u.shape.weights;
          two =
              length-set w.fp32_grad_bufs w.grad_buf_switch (write_to i change (written w))
              ∙ u.shape.two;
          switch = u.shape.switch;
          for_write = ap length new ∙ length-write_to i change (written w) ∙ u.shape.for_write;
          for_read = ap length same_read ∙ u.shape.for_read;
        };
        at =
            IsAt-other w (set w.fp32_grad_bufs w.grad_buf_switch (write_to i change (written w)))
              u.at same_read;
        pending = u.pending;
        same_read = same_read ∙ u.same_read;
        same_written = new ∙ ap (write_to i change) u.same_written;
      }
