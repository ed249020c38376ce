-- ===== src/FlagPool.antt =====
-- src/smartnic_offload/gpu_flag_pool.py: the completion flags that a SmartNIC writes and a compute
-- stream waits for. The flags themselves are memory of the GPU; the model keeps their number, the
-- base address, the generations and the cursor. The lock makes each method one step.
pub mod Sequence
pub mod Handout
mod Tests
use understanding_smartnic.Prelude.{
  ℕ, ◌+◌, ◌-◌, ◌*◌, ◌^◌, List, Option, none, some, Bool, true, false, ◌||◌, not, bit_and, leb, ◌==◌,
  if◌then◌else◌, get_or, set, replicate, Result, ok, err, value_error, overflow_error,
}

-- `GpuFlagPool`: `flags` are the int32 entries, and `base_addr` their address.
pub record GpuFlagPool : Type 0 where
  pub size : ℕ
  pub mask : ℕ
  pub use_gpu : Bool
  pub flags : List ℕ
  pub base_addr : ℕ
  pub gens : List ℕ
  pub next : ℕ

-- `_use_gpu_memory`: the variable's value, `none` where it is not set; `zero` tells whether it is "0".
pub data FlagVar : Type 0 where
  unset zero other : FlagVar

pub use_gpu_memory : FlagVar → Bool
use_gpu_memory unset = true
use_gpu_memory zero = false
use_gpu_memory other = true

-- `GpuFlagPool.__init__`: the allocator's answer, `data_ptr()`, is an argument.
pub init : FlagVar → ℕ → ℕ → Result GpuFlagPool
unfolding use_gpu_memory
init v data_ptr size =
    if leb size 0 || not (bit_and size (size - 1) == 0)
    then err value_error
    else ok (record {
      size = size;
      mask = size - 1;
      use_gpu = use_gpu_memory v;
      flags = replicate size 0;
      base_addr = data_ptr;
      gens = replicate size 0;
      next = 0;
    })

-- What `acquire` returns: (slot_id, generation, gpu_addr, expected_value).
pub record Slot : Type 0 where
  pub slot_id : ℕ
  pub gen : ℕ
  pub gpu_addr : ℕ
  pub expected : ℕ

-- Past this generation `acquire` raises.
abbrev pub gen_limit : ℕ
gen_limit = 2 ^ 30

-- The locked part of `acquire`: the pool moves on before the generation is tested.
pub advance : GpuFlagPool → GpuFlagPool
advance p = record p {
  next = bit_and (p.next + 1) p.mask;
  gens = set p.gens p.next (get_or p.gens p.next 0 + 1);
}

-- `acquire`: the pool after the call, and the slot or the exception.
pub acquire : GpuFlagPool → GpuFlagPool × Result Slot
unfolding advance
acquire p =
    let slot_id = p.next in
    let gen = get_or p.gens slot_id 0 + 1 in
    (
      advance p,
      if leb gen_limit gen
          then err overflow_error
          else ok (record {
            slot_id = slot_id;
            gen = gen;
            gpu_addr = p.base_addr + slot_id * 4;
            expected = gen;
          }),
    )

-- `reset`
pub reset : GpuFlagPool → GpuFlagPool
reset p = record p { flags = replicate p.size 0; gens = replicate p.size 0; next = 0 }

-- `total_bytes`
pub total_bytes : GpuFlagPool → ℕ
total_bytes p = p.size * 4

-- `n` calls of `acquire`, whatever each returns.
pub after : ℕ → GpuFlagPool → GpuFlagPool
after ℕ.zero p = p
after (ℕ.suc n) p = advance (after n p)
