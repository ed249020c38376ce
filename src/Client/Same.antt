-- ===== src/Client/Same.antt =====
-- The list and the flat reduce-scatter agree, and so do the blocking and the asynchronous calls.
use understanding_smartnic.Prelude.{
  ℕ, suc, ◌+◌, ◌*◌, ◌<◌, ◌≡◌, refl, sym, ap, ◌∙◌, List, [], ◌∷◌, Bool, true, false, ◌==◌, length,
  length-append, Result, ok, err, ◌>>=◌, ◌>>◌, guard, value_error, type_error, runtime_error, arith,
  Error,
}
use understanding_smartnic.Tensor.{concat, cat}
use understanding_smartnic.Client.{
  Tensor, scatter_flat_to_list, check_outputs, all_gather_list_via_base,
}
use understanding_smartnic.Client.Flat.{
  reduce_scatter_flat_via_base, reduce_scatter_list_via_base, check_inputs, flat_list, copy_flat,
  enqueue_all_gather_list, wait_all_gather,
}

-- A guard that lets a call return has been passed.
guard-ok {ℓ} :
    {Y : Type ℓ} (b : Bool) (e : Error) (next : Result Y) (y : Y)
    → (guard b e >> next) ≡ ok y
    → (b ≡ true) × (next ≡ ok y)
guard-ok true e next y h = (refl, h)
guard-ok false e next y h = cc

eq_of : (a b : ℕ) → (a == b) ≡ true → a ≡ b
eq_of a b e = ground arith

module _ {ℓ} {A : Type ℓ} where
  -- Passed checks say that every input has the output's size.
  length-flat_list :
      (output : Tensor A) (inputs : List (Tensor A))
      → check_inputs output inputs ≡ ok tt
      → length (concat (flat_list inputs)) ≡ length inputs * length output.contents
  unfolding check_inputs concat
  length-flat_list output [] e = omega arith
  length-flat_list output (t ∷ ts) e =
      let n : ℕ = length output.contents in
      let types =
        guard (t.dtype == output.dtype) type_error
        >> (guard (t.device == output.device) type_error >> check_inputs output ts) in
      let (size, a) = guard-ok (length t.contents == n) value_error types tt e in
      let (same, b) =
        guard-ok (t.dtype == output.dtype) type_error
          (guard (t.device == output.device) type_error >> check_inputs output ts) tt a in
      let (here, rest) =
        guard-ok (t.device == output.device) type_error (check_inputs output ts) tt b in
      let more : suc (length ts) * n ≡ n + length ts * n = omega arith in
      omega (
        arith,
        eq_of (length t.contents) n size,
        length-append t.contents (concat (flat_list ts)),
        length-flat_list output ts rest,
        more,
      )

  -- The inputs of `reduce_scatter_list_via_base` as one tensor.
  abbrev pub joined : Tensor A → List (Tensor A) → Tensor A
  joined output inputs = record {
    contents = concat (flat_list inputs);
    dtype = output.dtype;
    device = output.device;
  }

  -- The copy goes through for an output of the right size.
  copied :
      (output : Tensor A) (r : Result (List A))
      → ((ys : List A) → r ≡ ok ys → length ys ≡ length output.contents)
      → (r >>= copy_flat output) ≡ (r >>= λ flat. ok (record output { contents = flat }))
  unfolding copy_flat
  copied output (err e) d = refl
  copied output (ok ys) d =
      let size = d ys refl in
      let fits : (length ys == length output.contents) ≡ true = ground arith in
      ap (λ b. guard b runtime_error >> ok (record output { contents = ys })) fits

  copies :
      (driver : List A → Result (List A)) (output : Tensor A) (all : List A)
      → ((xs ys : List A) → driver xs ≡ ok ys → length ys ≡ length output.contents)
      → (driver all >>= copy_flat output)
        ≡ (driver all >>= λ flat. ok (record output { contents = flat }))
  copies driver output all d = copied output (driver all) (d all)

  -- If there is one input for each rank, at least one, the inputs pass the checks, and the driver
  -- leaves as many elements as the output has or raises, then the reduce-scatter of the list ends like
  -- the reduce-scatter of the inputs put next to each other, with the same output or exception.
  pub reduce_scatter_list_via_base-flat :
      (world_size : ℕ) (driver : List A → Result (List A)) (output : Tensor A)
      (inputs : List (Tensor A))
      → 0 < world_size
      → length inputs ≡ world_size
      → check_inputs output inputs ≡ ok tt
      → ((xs ys : List A) → driver xs ≡ ok ys → length ys ≡ length output.contents)
      → reduce_scatter_list_via_base world_size driver output inputs
        ≡ reduce_scatter_flat_via_base world_size driver output (joined output inputs)
  unfolding reduce_scatter_list_via_base reduce_scatter_flat_via_base cat
  reduce_scatter_list_via_base-flat world_size driver output [] h l c d = absurd (omega arith)
  reduce_scatter_list_via_base-flat world_size driver output (t ∷ ts) h l c d =
      let all : List A = concat (flat_list (t ∷ ts)) in
      let filled = λ (flat : List A). record output { contents = flat } in
      let whole : length all ≡ length output.contents * world_size =
        length-flat_list output (t ∷ ts) c ∙ ap (λ k. k * length output.contents) l ∙ omega arith in
      let counted : (length (t ∷ ts) == world_size) ≡ true = ground arith in
      let sized : (length all == length output.contents * world_size) ≡ true = ground arith in
      let same : (output.dtype == output.dtype) ≡ true = ground arith in
      let here : (output.device == output.device) ≡ true = ground arith in
      let list_end : reduce_scatter_list_via_base world_size driver output (t ∷ ts)
          ≡ (driver all >>= copy_flat output) =
        ap
          (λ b.
            guard b value_error
            >> (check_inputs output (t ∷ ts) >> (driver all >>= copy_flat output)))
          counted
        ∙ ap (λ r. r >> (driver all >>= copy_flat output)) c in
      let flat_end : reduce_scatter_flat_via_base world_size driver output (joined output (t ∷ ts))
          ≡ (driver all >>= λ flat. ok (filled flat)) =
        ap
          (λ b.
            guard b value_error
            >> (guard (output.dtype == output.dtype) type_error
                >> (guard (output.device == output.device) type_error
                    >> (driver all >>= λ flat. ok (filled flat)))))
          sized
        ∙ ap
            (λ b.
              guard b type_error
              >> (guard (output.device == output.device) type_error
                  >> (driver all >>= λ flat. ok (filled flat))))
            same
        ∙ ap (λ b. guard b type_error >> (driver all >>= λ flat. ok (filled flat))) here in
      list_end ∙ copies driver output all d ∙ sym flat_end

  waited :
      (driver : List A → Result (List A)) (outs : List (Tensor A)) (input : Tensor A) (b : Bool)
      (r : Result (Unit {0}))
      → ((guard b value_error >> (r >> ok (record { out_list = outs; like = input })))
          >>= wait_all_gather driver)
        ≡ (guard b value_error
            >> (r >> (driver input.contents >>= λ flat. scatter_flat_to_list flat outs input)))
  unfolding wait_all_gather
  waited driver outs input false r = refl
  waited driver outs input true (err e) = refl
  waited driver outs input true (ok u) = refl

  -- An asynchronous gather into a list that is waited for does what the blocking one does.
  enqueue_all_gather_list-wait :
      (world_size : ℕ) (driver : List A → Result (List A)) (outs : List (Tensor A))
      (input : Tensor A)
      → (enqueue_all_gather_list world_size outs input >>= wait_all_gather driver)
        ≡ all_gather_list_via_base world_size driver outs input
  unfolding enqueue_all_gather_list all_gather_list_via_base
  enqueue_all_gather_list-wait world_size driver outs input =
      waited driver outs input (length outs == world_size) (check_outputs input outs)
