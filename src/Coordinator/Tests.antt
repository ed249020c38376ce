-- ===== src/Coordinator/Tests.antt =====
-- The coordinator on two submodules that share a parameter.
use understanding_smartnic.Prelude.{
  ℕ, ◌+◌, ◌<◌, ◌≡◌, ◌⊎◌, ◌↔◌, refl, List, [], ◌∷◌, true, false, ◌&&◌, if◌then◌else◌, ok, err, ◌>>=◌,
  runtime_error, is_in, drop, pos, ◌+ℤ◌, arith,
}
use understanding_smartnic.Partition.{available, not_available, inflight}
use understanding_smartnic.Coordinator.{
  Param, Module, single, Coordinator, init, complete_mode, reset_step, is_complete_trace,
}
use understanding_smartnic.Coordinator.Fetch.{
  lookup, all_gather_params, set_status, fetch_sub_module, is_not_available, numels, partitioned,
  choose, prefetch_limit,
}
use understanding_smartnic.Coordinator.Release.{params_to_release, is_after, release_sub_module}
use understanding_smartnic.Coordinator.Trace.{record_pass, trace_from, reset_step-recorded}
use understanding_smartnic.Coordinator.Kept.{Reused, params_to_release_lem}
use understanding_smartnic.Coordinator.Gather.{IsCoherent}
use understanding_smartnic.Coordinator.Started.{all_gather_params_lem}
use understanding_smartnic.Coordinator.Ready.{Ready, IsNext, fetch_sub_module_lem}
use understanding_smartnic.Coordinator.Bounds.{prefetch-bounded}
use understanding_smartnic.Coordinator.Reset.{Released, release_and_reset_all-Released}
use understanding_smartnic.Coordinator.Release.{release_and_reset_all}
use understanding_smartnic.Coordinator.Released.{release_sub_module-Used}

abbrev fresh : Param
fresh = record { status = not_available; numel = 3; active = []; persist = false; external = false }

abbrev first : Module
first = record { id = 0; iter_params = 5 ∷ 4 ∷ [] }

abbrev second : Module
second = record { id = 1; iter_params = 5 ∷ [] }

-- A bucket of 10 elements, a reuse distance of 20 and at most 100 elements.
abbrev start : Coordinator
start = init 10 20 100 (λ p. fresh)

start-IsCoherent : IsCoherent start
unfolding init lookup
start-IsCoherent = ((λ p f. cc), λ p n l. cc)

-- Parameter 5 is being gathered alone.
abbrev gathering : Coordinator
gathering = record start {
  params = λ p. record fresh { status = inflight };
  handles = λ n. single 5;
  next_handle = 1;
  inflight_param_registry = (5, 0) ∷ [];
}

-- The second submodule uses every parameter, on a complete trace.
abbrev busy : Coordinator
busy = record start {
  params = λ p. record fresh { status = available; active = 1 ∷ [] };
  trace_mode = complete_mode;
  submodule_order = first ∷ second ∷ [];
}

reset_step-recorded_example :
    (e : Coordinator) × ((record_pass (first ∷ second ∷ first ∷ []) start >>= reset_step true)
      ≡ ok e)
    × (e.trace_mode ≡ complete_mode)
    × (e.submodule_order ≡ first ∷ second ∷ first ∷ [])
    × (e.param_order ≡ trace_from 0 (first ∷ second ∷ first ∷ []))
    × (e.param_queue ≡ trace_from 0 (first ∷ second ∷ first ∷ []))
    × (e.step_id ≡ 0)
unfolding init
reset_step-recorded_example =
    reset_step-recorded (first ∷ second ∷ first ∷ []) start (refl, refl, (λ i. refl), refl, refl)

params_to_release_lem_example :
    (set : List ℕ) × (params_to_release first 1 busy ≡ ok set)
    × ((is_in 4 set ≡ true) ↔ (
        (is_in 4 first.iter_params ≡ true)
        × ((busy.params 4).persist ≡ false)
        × (is_after (busy.most_recent_step_id_param_fetched_for 4) 1 ≡ false)
        × ¬ Reused busy.params busy.max_reuse_dist_in_numel 0 (drop 1 busy.submodule_order) 4))
params_to_release_lem_example = params_to_release_lem first 1 busy 4 refl

all_gather_params_lem_example :
    (d : Coordinator) × (all_gather_params (5 ∷ 4 ∷ []) start ≡ ok d)
    × IsCoherent d
    × ((q : ℕ)
        → d.params q ≡ (
            if is_in q (5 ∷ 4 ∷ []) && is_not_available (start.params q).status
            then record (start.params q) { status = inflight }
            else start.params q))
    × (d.n_available_params
        ≡ start.n_available_params
          +ℤ pos (numels start.params (partitioned start.params (5 ∷ 4 ∷ []))))
    × (d.trace_mode ≡ start.trace_mode)
    × (d.step_id ≡ start.step_id)
all_gather_params_lem_example =
    all_gather_params_lem (5 ∷ 4 ∷ []) start start-IsCoherent (refl, (refl, tt))

-- A recorded trace, whose queue starts with the parameters of the first submodule.
abbrev replayed : Coordinator
replayed = record start {
  trace_mode = complete_mode;
  param_queue = trace_from 0 (first ∷ second ∷ []);
}

fetch_sub_module_lem_example :
    ((d : Coordinator) × (fetch_sub_module (λ t e. true) first replayed ≡ ok d)
      × ((is_complete_trace replayed ≡ false) ⊎ IsNext first replayed)
      × Ready start first d)
    ⊎ ((is_complete_trace replayed ≡ true)
        × (¬ IsNext first replayed)
        × (fetch_sub_module (λ t e. true) first replayed ≡ err runtime_error))
fetch_sub_module_lem_example = fetch_sub_module_lem (λ t e. true) first replayed start-IsCoherent

-- Two parameters wait to be prefetched.
abbrev queued : Coordinator
queued = record start { param_queue = trace_from 0 (first ∷ second ∷ []) }

prefetch-bounded_example :
    numels queued.params
      (choose queued.params
        (prefetch_limit queued)
        queued.param_queue
        queued.most_recent_step_id_param_fetched_for
        []
        0).chosen
    < queued.prefetch_bucket_sz + 3
unfolding init
prefetch-bounded_example = prefetch-bounded queued 3 (λ p. omega arith) (omega arith)

-- Parameter 5 has arrived.
abbrev arrived : Coordinator
arrived = record gathering {
  params = set_status 5 available gathering.params;
  inflight_param_registry = [];
  ongoing_fetch_events = 0 ∷ [];
  clock = 1;
}

release_sub_module-Used_example :
    (d : Coordinator) × (release_sub_module first busy ≡ ok d)
    × ((d.params 5).status ≡ (busy.params 5).status)
    × (is_in 1 (d.params 5).active ≡ true)
release_sub_module-Used_example = release_sub_module-Used first busy 5 1 (λ e. cc) refl

release_and_reset_all-Released_example :
    (d : Coordinator) × (release_and_reset_all (5 ∷ 4 ∷ []) busy ≡ ok d)
    × ((q : ℕ) → is_in q (5 ∷ 4 ∷ []) ≡ true → Released q d)
unfolding init lookup
release_and_reset_all-Released_example =
    release_and_reset_all-Released (5 ∷ 4 ∷ []) busy (λ q i e. cc) (λ q i. refl)
