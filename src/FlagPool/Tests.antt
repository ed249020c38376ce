-- ===== src/FlagPool/Tests.antt =====
-- Concrete runs of the flag pool, and the theorems at them.
use understanding_smartnic.Prelude.{
  ℕ, ◌-◌, ◌*◌, ◌≤◌, ◌≡◌, ◌↔◌, refl, true, [], ◌∷◌, leb, if◌then◌else◌, ok, err, value_error,
  overflow_error,
}
use understanding_smartnic.FlagPool.{GpuFlagPool, FlagVar, gen_limit, init, acquire, after}
use understanding_smartnic.FlagPool.Handout.{
  nth_slot, acquire-after, acquire-raises_iff, acquire_unique,
}

abbrev four : GpuFlagPool
four = record {
  size = 4;
  mask = 3;
  use_gpu = true;
  flags = 0 ∷ 0 ∷ 0 ∷ 0 ∷ [];
  base_addr = 4096;
  gens = 0 ∷ 0 ∷ 0 ∷ 0 ∷ [];
  next = 0;
}

made : init FlagVar.unset 4096 4 ≡ ok four
unfolding init
made = refl

three_is_refused : init FlagVar.zero 4096 3 ≡ err value_error
unfolding init
three_is_refused = refl

-- The sixth call comes round to slot 1 with its second generation.
sixth : (acquire (after 5 four)).1 ≡ ok (nth_slot 4096 4 5)
unfolding acquire after
sixth = refl

spent : GpuFlagPool
spent = record four { gens = (gen_limit - 1) ∷ 0 ∷ 0 ∷ 0 ∷ [] }

-- The exception leaves the pool advanced.
raises_and_advances :
    acquire spent
    ≡ (record four { gens = gen_limit ∷ 0 ∷ 0 ∷ 0 ∷ []; next = 1 }, err overflow_error)
unfolding acquire spent
raises_and_advances = refl

acquire-after_example :
    acquire (after 5 four)
    ≡ (after 6 four, if leb gen_limit 2 then err overflow_error else ok (nth_slot 4096 4 5))
acquire-after_example = acquire-after FlagVar.unset 4096 4 made 5

raises_from_bound : ((acquire (after 5 four)).1 ≡ err overflow_error) ↔ (4 * (gen_limit - 1) ≤ 5)
raises_from_bound = acquire-raises_iff FlagVar.unset 4096 4 made 5

same_slot : (m : ℕ) → (acquire (after m four)).1 ≡ ok (nth_slot 4096 4 5) → m ≡ 5
same_slot m e = acquire_unique FlagVar.unset 4096 4 made m 5 e sixth refl refl
