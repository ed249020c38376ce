-- ===== src/Timing/Phases.antt =====
-- src/common/submodule_timing.py, the phases: `start` and `end` of a phase of a submodule, measured by
-- the wall clock or by CUDA events that are read later. A phase is a number; whether its name ends in
-- `_exec` or `_stall` is an argument, and so are the clock's reading, whether CUDA is available, and
-- the events and the times that they read.
use understanding_smartnic.Prelude.{
  ℕ, ◌≡◌, List, [], ◌∷◌, ◌++◌, Option, none, some, Bool, true, ◌&&◌, ◌==◌, if◌then◌else◌, arith,
}
use understanding_smartnic.Timing.{Float, Stat, new, add}

-- `(phase, module_id, call_id)`, and `(phase, module_id)`
pub record Key : Type 0 where
  pub phase : ℕ
  pub module_id : ℕ
  pub call_id : ℕ

abbrev pub is_same_key : Key → Key → Bool
is_same_key a b = (a.phase == b.phase) && (a.module_id == b.module_id) && (a.call_id == b.call_id)

-- An element of `_PENDING_GPU`
pub record Pending (Event : Type 0) : Type 0 where
  pub phase : ℕ
  pub module_id : ℕ
  pub start_ev : Event
  pub end_ev : Event

-- The globals of the module.
pub record Timers (F Event : Type 0) : Type 0 where
  pub stats : ℕ → ℕ → Option (Stat F)
  pub inflight_cpu : Key → Option F
  pub inflight_gpu : Key → Option Event
  pub pending_gpu : List (Pending Event)

-- A dictionary after `d[key] = v`, or after `d.pop(key, None)` with `none`.
abbrev pub put : {V : Type 0} → Key → Option V → (Key → Option V) → Key → Option V
put key v d other = if is_same_key other key then v else d other

-- `_get_or_create_stat_locked(phase, mid).add(x)`
pub add_sample :
    {F : Type 0} → Float F → ℕ → ℕ → F → (ℕ → ℕ → Option (Stat F)) → ℕ → ℕ → Option (Stat F)
add_sample float phase mid x stats p m =
    if (p == phase) && (m == mid)
    then (elim (stats phase mid) [
      | none ↦ some (add float (some x) (new float 10 1024))
      | some st ↦ some (add float (some x) st)
    ])
    else stats p m

module _ {F Event : Type 0} where
  -- `start` at the time `now`; `event` is the event that it records.
  pub start : (ℕ → Bool) → Bool → F → Event → Key → Timers F Event → Timers F Event
  start is_exec_phase cuda_available now event key t =
      if is_exec_phase key.phase
      then (elim (t.inflight_gpu key) [
        | some e ↦ t
        | none ↦
            if cuda_available
            then record t { inflight_gpu = put key (some event) t.inflight_gpu }
            else record t { inflight_cpu = put key (some now) t.inflight_cpu }
      ])
      else (elim (t.inflight_cpu key) [
        | some t0 ↦ t
        | none ↦ record t { inflight_cpu = put key (some now) t.inflight_cpu }
      ])

  -- The wall clock's end: the time that is returned, and the globals.
  pub end_cpu : Float F → (F → F → F) → F → Key → Timers F Event → F × Timers F Event
  unfolding add_sample
  end_cpu float minus now key t = elim (t.inflight_cpu key) [
    | none ↦ (float.zero_s, t)
    | some t0 ↦ (
      minus now t0,
      record t {
        inflight_cpu = put key none t.inflight_cpu;
        stats = add_sample float key.phase key.module_id (minus now t0) t.stats;
      },
    )
  ]

  -- `end` at the time `now`; `event` is the event that it records.
  pub end :
      Float F → (F → F → F) → (ℕ → Bool) → F → Event → Key → Timers F Event → F × Timers F Event
  unfolding end_cpu
  end float minus is_exec_phase now event key t =
      if is_exec_phase key.phase
      then (elim (t.inflight_gpu key) [
        | none ↦ end_cpu float minus now key t
        | some start_ev ↦ (
          float.zero_s,
          record t {
            inflight_gpu = put key none t.inflight_gpu;
            pending_gpu =
                t.pending_gpu
                ++ record {
                  phase = key.phase;
                  module_id = key.module_id;
                  start_ev = start_ev;
                  end_ev = event;
                }
                  ∷ [];
          },
        )
      ])
      else end_cpu float minus now key t

  -- The loop of `_flush_pending_gpu_locked`; `elapsed_s` is the time between two events in seconds.
  pub add_pending :
      Float F
      → (Event → Event → F)
      → List (Pending Event)
      → (ℕ → ℕ → Option (Stat F))
      → ℕ
      → ℕ
      → Option (Stat F)
  unfolding add_sample
  add_pending float elapsed_s [] stats = stats
  add_pending float elapsed_s (p ∷ ps) stats =
      add_pending float elapsed_s ps
        (add_sample float p.phase p.module_id (elapsed_s p.start_ev p.end_ev) stats)

  -- `_flush_pending_gpu_locked`
  pub flush_pending_gpu : Float F → (Event → Event → F) → Bool → Timers F Event → Timers F Event
  unfolding add_pending
  flush_pending_gpu float elapsed_s cuda_available t =
      if cuda_available
      then record t { pending_gpu = []; stats = add_pending float elapsed_s t.pending_gpu t.stats }
      else record t { pending_gpu = [] }

  -- `snapshot`: the statistics, and the globals
  pub snapshot :
      Float F
      → (Event → Event → F)
      → Bool
      → Bool
      → Timers F Event
      → (ℕ → ℕ → Option (Stat F)) × Timers F Event
  unfolding flush_pending_gpu
  snapshot float elapsed_s cuda_available flush_cuda t =
      let u = if flush_cuda then flush_pending_gpu float elapsed_s cuda_available t else t in
      (u.stats, u)

  -- `reset`
  pub reset : Timers F Event
  reset = record {
    stats = λ p m. none;
    inflight_cpu = λ k. none;
    inflight_gpu = λ k. none;
    pending_gpu = [];
  }

  -- The statistics of a phase and a module, or new ones.
  abbrev pub stat_of : Float F → ℕ → ℕ → Timers F Event → Stat F
  stat_of float p m t = elim (t.stats p m) [ none ↦ new float 10 1024 | some st ↦ st ]

  -- The time that a measurement gives.
  abbrev pub measured : (F → F → F) → (Event → Event → F) → Bool → F → F → Event → Event → F
  measured minus elapsed_s is_exec now later event end_event =
      if is_exec then elapsed_s event end_event else minus later now

  -- `start`, `end` and a `snapshot` that flushes, with CUDA.
  abbrev pub measure :
      Float F
      → (F → F → F)
      → (Event → Event → F)
      → (ℕ → Bool)
      → F
      → F
      → Event
      → Event
      → Key
      → Timers F Event
      → (ℕ → ℕ → Option (Stat F)) × Timers F Event
  measure float minus elapsed_s is_exec_phase now later event end_event key t =
      snapshot float elapsed_s true true
        (end float minus is_exec_phase later end_event key
          (start is_exec_phase true now event key t)).1

  -- Let CUDA be available, nothing be pending, and the key not be in flight. Then `start`, `end` and a
  -- `snapshot` that flushes add one sample to the statistics of the key's phase and module, the time
  -- between the two events for a phase of the GPU and between the two readings of the clock for
  -- another, and leave nothing pending and the key not in flight.
  pub snapshot-end :
      (float : Float F) (minus : F → F → F) (elapsed_s : Event → Event → F)
      (is_exec_phase : ℕ → Bool) (now later : F) (event end_event : Event) (key : Key)
      (t : Timers F Event)
      → t.pending_gpu ≡ []
      → t.inflight_cpu key ≡ none
      → t.inflight_gpu key ≡ none
      → let out = measure float minus elapsed_s is_exec_phase now later event end_event key t in
        (out.0 key.phase key.module_id
          ≡ some (
              add float
                (some
                  (measured minus elapsed_s (is_exec_phase key.phase) now later event end_event))
                (stat_of float key.phase key.module_id t)))
        × (out.1.inflight_gpu key ≡ none)
        × (out.1.inflight_cpu key ≡ none)
        × (out.1.pending_gpu ≡ [])
  unfolding start end end_cpu add_sample add_pending flush_pending_gpu snapshot
  snapshot-end float minus elapsed_s is_exec_phase now later event end_event key t p c g =
      (ground arith, ground arith, ground arith, ground arith)
