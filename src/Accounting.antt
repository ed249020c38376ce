-- ===== src/Accounting.antt =====
-- src/smartnic_offload/partition_parameters.py, the accounting of gathers: the totals, the phases, the
-- records and the `wait` of `AllGatherHandle`, which fills them. A time is a number of ticks of one
-- clock, so the factors between seconds and milliseconds are left out. A negative time of the DPU is
-- set to 0 in the source; here the subtraction stops there. The clock does not run backwards.
pub mod Agree
pub mod Union
pub mod Buckets
mod Tests
use understanding_smartnic.Prelude.{
  ℕ, suc, ◌+◌, ◌-◌, ◌*◌, ◌/◌, max, List, [], ◌∷◌, ◌++◌, Option, none, some, Bool, true, false, ◌&&◌,
  not, leb, ltb, if◌then◌else◌, length,
}
use understanding_smartnic.Partition.{ZeroParamStatus, available}

-- `ALL_GATHER_CALLS` and the globals beside it
pub record Totals : Type 0 where
  pub calls : ℕ
  pub dpu : ℕ
  pub block : ℕ
  pub bytes : ℕ
  pub last_complete : ℕ

-- `_accumulate_all_gather_detailed`
unfoldable pub accumulate_all_gather_detailed : ℕ → ℕ → ℕ → ℕ → Totals → Totals
accumulate_all_gather_detailed t_request t_complete block nbytes s =
    let dpu_start = max t_request s.last_complete in
    record {
      calls = suc s.calls;
      dpu = s.dpu + (t_complete - dpu_start);
      block = s.block + block;
      bytes = s.bytes + nbytes;
      last_complete = t_complete;
    }

-- `_AG_PHASE`
pub data AgPhase : Type 0 where
  unknown forward backward : AgPhase

-- `_AG_FWD_BLOCK_MS` and the globals beside it
pub record PhaseStats : Type 0 where
  pub fwd_block : ℕ
  pub fwd_calls : ℕ
  pub bwd_block : ℕ
  pub bwd_calls : ℕ

-- `_accumulate_phase_block`
unfoldable pub accumulate_phase_block : AgPhase → ℕ → PhaseStats → PhaseStats
accumulate_phase_block forward block s = record s {
  fwd_block = s.fwd_block + block;
  fwd_calls = suc s.fwd_calls;
}
accumulate_phase_block backward block s = record s {
  bwd_block = s.bwd_block + block;
  bwd_calls = suc s.bwd_calls;
}
accumulate_phase_block unknown block s = s

-- `reset_ag_phase_stats`
abbrev pub reset_ag_phase_stats : PhaseStats → PhaseStats
reset_ag_phase_stats s = record { fwd_block = 0; fwd_calls = 0; bwd_block = 0; bwd_calls = 0 }

-- An entry of `_AG_RECORDS`
pub record AgRecord : Type 0 where
  pub nbytes : ℕ
  pub dpu : ℕ
  pub block : ℕ
  pub enqueue : ℕ
  pub prefetch_lead : ℕ
  pub wall : ℕ

-- The module's globals, and the status of the parameters.
pub record Books : Type 0 where
  pub totals : Totals
  pub phase : AgPhase
  pub phase_stats : PhaseStats
  pub records : List AgRecord

-- `set_ag_phase`
abbrev pub set_ag_phase : AgPhase → Books → Books
set_ag_phase phase b = record b { phase = phase }

-- `reset_ag_records`
abbrev pub reset_ag_records : Books → Books
reset_ag_records b = record b { records = [] }

-- `AllGatherHandle`: whether it uses the poller and the flag of the GPU, and when it was requested.
pub record AllGatherHandle : Type 0 where
  pub t_request : Option ℕ
  pub has_is_completed : Bool
  pub use_gpu_flag : Bool
  pub nbytes : ℕ

-- `__use_poller`
abbrev pub use_poller : Bool → AllGatherHandle → Bool
use_poller disable_completion_poller h =
    elim h.t_request [ none ↦ false | some t ↦ true ]
    && h.has_is_completed
    && not disable_completion_poller

-- The accounting of a wait that began at `t_wait_start` and ended at `t_end`, with the time that goes
-- into its record.
unfoldable pub account : AllGatherHandle → ℕ → ℕ → ℕ → ℕ → Books → Books
unfolding accumulate_all_gather_detailed accumulate_phase_block
account h t_request t_wait_start t_end dpu b =
    let block = t_end - t_wait_start in
    record b {
      totals = accumulate_all_gather_detailed t_request t_end block h.nbytes b.totals;
      phase_stats = accumulate_phase_block b.phase block b.phase_stats;
      records =
          b.records
          ++ record {
            nbytes = h.nbytes;
            dpu = dpu;
            block = block;
            enqueue = 0;
            prefetch_lead = t_wait_start - t_request;
            wall = t_end - t_request;
          }
            ∷ [];
    }

-- `AllGatherHandle.wait`: `t_wait_start` and `t_after` are what `perf_counter` gives before and after the
-- wait for the flag, and `t_complete` is what the poller saw. The status is the parameter's.
unfoldable pub wait : Bool → AllGatherHandle → ℕ → ℕ → ℕ → Books → Books × ZeroParamStatus
unfolding account
wait disable_completion_poller h t_wait_start t_after t_complete b =
    if h.use_gpu_flag
    then (
      elim h.t_request [ none ↦ b | some t_request ↦ account h t_request t_wait_start t_after 0 b ],
      available,
    )
    else if use_poller disable_completion_poller h
    then (
      elim h.t_request [
        | none ↦ b
        | some t_request ↦
            let dpu = t_complete - max t_request b.totals.last_complete in
            account h t_request t_wait_start t_complete dpu b
      ],
      available,
    )
    else (b, available)

-- The size classes of `print_ag_analysis`; the last one has no upper limit.
abbrev pub buckets : List (ℕ × Option ℕ)
buckets =
    (0, some 1024)
    ∷ (1024, some 16384)
    ∷ (16384, some 1048576)
    ∷ (1048576, some 16777216)
    ∷ (16777216, none)
    ∷ []

-- `lo <= nb < hi`
abbrev pub in_bucket : ℕ × Option ℕ → ℕ → Bool
in_bucket (lo, hi) nb = leb lo nb && elim hi [ none ↦ true | some h ↦ ltb nb h ]

-- `group`
unfoldable pub group : ℕ × Option ℕ → List AgRecord → List AgRecord
group bucket [] = []
group bucket (r ∷ rs) =
    let rest = group bucket rs in if in_bucket bucket r.nbytes then r ∷ rest else rest
