-- ===== src/Data/Chunks.antt =====
-- The chunks of a stream of tokens.
use understanding_smartnic.Prelude.{
  ℕ, zero, suc, ◌+◌, ◌*◌, ◌/◌, ◌<◌, ◌≡◌, refl, sym, ◌∙◌, ap, List, [], ◌∷◌, ◌++◌, length, take,
  drop, length-take, length-drop, take-append-drop, ok, ◌==◌, false, arith,
}
use native.Mathlib.Nat.{div-add-mod, mod-lt}
use understanding_smartnic.Tensor.{concat}
use understanding_smartnic.Data.{view, causal_lm_chunks}

module _ {ℓ} {A : Type ℓ} where
  -- Chunks that are all of one length.
  abbrev pub AreChunks : ℕ → List (List A) → Type 0
  AreChunks seq_len [] = Unit
  AreChunks seq_len (c ∷ cs) = (length c ≡ seq_len) × AreChunks seq_len cs

  view_lem :
      (n seq_len : ℕ) (t : List A)
      → length t ≡ n * seq_len
      → (length (view n seq_len t) ≡ n)
        × AreChunks seq_len (view n seq_len t)
        × (concat (view n seq_len t) ≡ t)
  unfolding view concat
  view_lem zero seq_len [] e = (refl, tt, refl)
  view_lem zero seq_len (x ∷ t) e = absurd (omega arith)
  view_lem (suc n) seq_len t e =
      let rest : length (drop seq_len t) ≡ n * seq_len = omega (arith, length-drop seq_len t) in
      let (count, chunks, whole) = view_lem n seq_len (drop seq_len t) rest in
      (
        ap suc count,
        (omega (arith, length-take seq_len t), chunks),
        ap (λ ys. take seq_len t ++ ys) whole ∙ take-append-drop seq_len t,
      )

  -- For a positive chunk length the data set is made: its chunks all have that length, joined they are
  -- the first tokens of the stream, and fewer tokens than one chunk's are left out.
  pub causal_lm_chunks_lem :
      (token_ids : List A) (seq_len : ℕ)
      → 0 < seq_len
      → (chunks : List (List A)) × (causal_lm_chunks token_ids seq_len ≡ ok chunks)
        × AreChunks seq_len chunks
        × (concat chunks ≡ take (length chunks * seq_len) token_ids)
        × (length token_ids < length chunks * seq_len + seq_len)
  unfolding causal_lm_chunks
  causal_lm_chunks_lem token_ids seq_len h =
      let n : ℕ = length token_ids / seq_len in
      let split = div-add-mod (length token_ids) seq_len in
      let below = mod-lt (length token_ids) h in
      let used : length (take (n * seq_len) token_ids) ≡ n * seq_len =
        omega (arith, length-take (n * seq_len) token_ids, split) in
      let (count, chunks, whole) = view_lem n seq_len (take (n * seq_len) token_ids) used in
      let some_tokens : (seq_len == 0) ≡ false = ground arith in
      (
        view n seq_len (take (n * seq_len) token_ids),
        rw some_tokens refl,
        chunks,
        whole ∙ ap (λ k. take (k * seq_len) token_ids) (sym count),
        rw count (omega (arith, split, below)),
      )
