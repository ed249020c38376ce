-- ===== src/Coordinator/Release.antt =====
-- src/smartnic_offload/partitioned_param_coordinator.py, the release of parameters.
use understanding_smartnic.Prelude.{
  ℕ, ◌+◌, List, [], ◌∷◌, Option, none, some, Bool, true, false, not, ◌&&◌, if◌then◌else◌, ltb, leb,
  drop, Result, ok, ◌>>=◌, ◌>>◌, guard, runtime_error, set_of, is_in, add, discard, pos, ◌-ℤ◌,
}
use understanding_smartnic.Partition.{not_available, is_available}
use understanding_smartnic.Coordinator.{Param, Module, Coordinator, put, is_complete_trace}
use understanding_smartnic.Coordinator.Fetch.{is_not_available, set_status, lookup}

abbrev pub is_idle : List ℕ → Bool
is_idle [] = true
is_idle (m ∷ ms) = false

-- `__release_param`. Since no submodule is active, `partition` does not raise.
unfoldable pub release_param : ℕ → Coordinator → Coordinator
release_param p c =
    if is_available (c.params p).status && is_idle (c.params p).active
    then record c {
      params = set_status p not_available c.params;
      n_available_params = c.n_available_params -ℤ pos (c.params p).numel;
    }
    else c

-- The candidates: `set(p.ds_id for p in iter_params(m) if not p.ds_persist)`.
unfoldable pub candidates : (ℕ → Param) → List ℕ → List ℕ
candidates h [] = []
candidates h (p ∷ ps) = let rest = candidates h ps in if (h p).persist then rest else add p rest

-- `self.__most_recent_step_id_param_fetched_for[param] > step_id`
abbrev pub is_after : Option ℕ → ℕ → Bool
is_after none step = false
is_after (some s) step = ltb step s

unfoldable pub discard_skipped : (ℕ → Option ℕ) → ℕ → List ℕ → List ℕ → List ℕ
discard_skipped recent step [] set = set
discard_skipped recent step (p ∷ ps) set =
    let rest = if is_after (recent p) step then discard p set else set in
    discard_skipped recent step ps rest

unfoldable pub discard_all : List ℕ → List ℕ → List ℕ
discard_all [] set = set
discard_all (p ∷ ps) set = discard_all ps (discard p set)

unfoldable pub traverse : (ℕ → Param) → List ℕ → ℕ → ℕ
traverse h [] params_traversed = params_traversed
traverse h (p ∷ ps) params_traversed = traverse h ps (params_traversed + (h p).numel)

-- The loop over the submodules that follow.
unfoldable pub discard_reused : (ℕ → Param) → ℕ → List Module → ℕ → List ℕ → List ℕ
unfolding discard_all traverse
discard_reused h max_reuse [] params_traversed set = set
discard_reused h max_reuse (m ∷ ms) params_traversed set =
    let rest =
      discard_reused h max_reuse ms (traverse h m.iter_params params_traversed)
        (discard_all m.iter_params set) in
    if leb max_reuse params_traversed then set else rest

-- `__params_to_release`
unfoldable pub params_to_release : Module → ℕ → Coordinator → Result (List ℕ)
unfolding candidates discard_skipped discard_reused
params_to_release m step c = do
  guard (is_complete_trace c) runtime_error
  let set =
      discard_skipped c.most_recent_step_id_param_fetched_for step m.iter_params
        (candidates c.params m.iter_params)
  ok (discard_reused c.params c.max_reuse_dist_in_numel (drop step c.submodule_order) 0 set)

-- `param.ds_active_sub_modules.discard(submodule.id)`
abbrev pub deactivate : ℕ → ℕ → (ℕ → Param) → ℕ → Param
deactivate m p h = put p (record (h p) { active = discard m (h p).active }) h

unfoldable pub release_all : ℕ → List ℕ → List ℕ → Coordinator → Coordinator
unfolding release_param
release_all m set [] c = c
release_all m set (p ∷ ps) c =
    let d = record c { params = deactivate m p c.params } in
    let e = if is_in p set && not (d.params p).external then release_param p d else d in
    release_all m set ps e

-- `release_sub_module`
unfoldable pub release_sub_module : Module → Coordinator → Result Coordinator
unfolding params_to_release release_all
release_sub_module m c = do
  set ← if is_complete_trace c then params_to_release m c.step_id c else ok (set_of m.iter_params)
  ok (release_all m.id set m.iter_params c)

-- The two loops of `release_and_reset_all`, over the parameters of the whole module; the CPU copies
-- are not modelled.
unfoldable pub reset_all : List ℕ → Coordinator → Result Coordinator
unfolding release_param
reset_all [] c = ok c
reset_all (p ∷ ps) c = do
  guard (elim (lookup p c.inflight_param_registry) [ none ↦ true | some h ↦ false ]) runtime_error
  reset_all ps
      (release_param p (record c { params = put p (record (c.params p) { active = [] }) c.params }))

unfoldable pub check_released : List ℕ → Coordinator → Result (Unit {0})
check_released [] c = ok tt
check_released (p ∷ ps) c = do
  guard (is_not_available (c.params p).status) runtime_error
  check_released ps c

-- `release_and_reset_all`
unfoldable pub release_and_reset_all : List ℕ → Coordinator → Result Coordinator
unfolding reset_all check_released
release_and_reset_all ps c = do d ← reset_all ps c; check_released ps d; ok d
