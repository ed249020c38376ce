-- ===== src/Coordinator/Fetch.antt =====
-- src/smartnic_offload/partitioned_param_coordinator.py, `fetch_sub_module` and what it calls, and
-- the parts of `all_gather_coalesced` and of the handles' `wait` in
-- src/smartnic_offload/partition_parameters.py that change a parameter's status. The transfer of
-- CPU copies (`ENABLE_FULL_PARAM_TRANSFER`) is off, as it is by default.
use understanding_smartnic.Prelude.{
  ℕ, suc, ◌+◌, List, [], ◌∷◌, ◌++◌, Option, none, some, Bool, true, false, not, ◌&&◌, ◌==◌,
  if◌then◌else◌, ltb, max, Result, ok, ◌>>=◌, ◌>>◌, guard, runtime_error, assertion_error, set_of,
  sort, is_in, add, is_same_set, length, ℤ, pos, ◌+ℤ◌, ◌-ℤ◌, ltb_ℤ,
}
use understanding_smartnic.Partition.{
  ZeroParamStatus, available, not_available, inflight, is_available,
}
use understanding_smartnic.Coordinator.{
  Param, Module, ParamInTrace, Handle, single, coalesced, Coordinator, put, is_complete_trace,
}

abbrev pub is_not_available : ZeroParamStatus → Bool
is_not_available not_available = true
is_not_available _ = false

abbrev pub is_inflight : ZeroParamStatus → Bool
is_inflight inflight = true
is_inflight _ = false

abbrev pub set_status : ℕ → ZeroParamStatus → (ℕ → Param) → ℕ → Param
set_status p s h = put p (record (h p) { status = s }) h

-- `self.__inflight_param_registry`, a dictionary
unfoldable pub lookup : ℕ → List (ℕ × ℕ) → Option ℕ
lookup p [] = none
lookup p ((q, h) ∷ rs) = if p == q then some h else lookup p rs

unfoldable pub remove : ℕ → List (ℕ × ℕ) → List (ℕ × ℕ)
remove p [] = []
remove p ((q, h) ∷ rs) = let rest = remove p rs in if p == q then rest else (q, h) ∷ rest

-- The status loop of `all_gather_coalesced`.
unfoldable pub mark_inflight : List ℕ → (ℕ → Param) → Result (ℕ → Param)
mark_inflight [] h = ok h
mark_inflight (p ∷ ps) h = do
  guard (is_not_available (h p).status) runtime_error
  mark_inflight ps (set_status p inflight h)

-- The handle that `all_gather_coalesced` returns.
unfoldable pub make_handle : List ℕ → Handle
make_handle [] = coalesced [] false
make_handle (p ∷ []) = single p
make_handle (p ∷ q ∷ ps) = coalesced (p ∷ q ∷ ps) false

-- `all_gather_coalesced`: the new handle's number, and the state with it.
unfoldable pub all_gather_coalesced : List ℕ → Coordinator → Result (ℕ × Coordinator)
unfolding mark_inflight make_handle
all_gather_coalesced ps c = do
  h ← mark_inflight ps c.params
  let n = c.next_handle
  ok (
    n,
    record c { params = h; handles = put n (make_handle (sort ps)) c.handles; next_handle = suc n },
  )

-- `__InflightParamRegistry.__setitem__`
unfoldable pub set_item : ℕ → ℕ → Coordinator → Result Coordinator
unfolding lookup
set_item p handle c = do
  guard (elim (lookup p c.inflight_param_registry) [ none ↦ true | some h ↦ false ]) runtime_error
  guard (is_inflight (c.params p).status) runtime_error
  ok (record c { inflight_param_registry = (p, handle) ∷ c.inflight_param_registry })

unfoldable pub register : List ℕ → ℕ → Coordinator → Result Coordinator
unfolding set_item
register [] handle c = ok c
register (p ∷ ps) handle c = do
  guard (is_inflight (c.params p).status) assertion_error
  d ← set_item p handle c
  register ps handle d

-- `partitioned_params` of `__all_gather_params`, and their elements.
unfoldable pub partitioned : (ℕ → Param) → List ℕ → List ℕ
partitioned h [] = []
partitioned h (p ∷ ps) =
    let rest = partitioned h ps in if is_not_available (h p).status then p ∷ rest else rest

unfoldable pub numels : (ℕ → Param) → List ℕ → ℕ
numels h [] = 0
numels h (p ∷ ps) = (h p).numel + numels h ps

-- `if partitioned_params`
unfoldable pub kick_off : List ℕ → Coordinator → Result Coordinator
unfolding all_gather_coalesced register
kick_off [] c = ok c
kick_off (p ∷ ps) c = do r ← all_gather_coalesced (p ∷ ps) c; register (p ∷ ps) (r.0) (r.1)

-- `__all_gather_params`, over a set
unfoldable pub all_gather_params : List ℕ → Coordinator → Result Coordinator
unfolding partitioned numels kick_off
all_gather_params ps c =
    let ns = partitioned c.params ps in
    kick_off ns (record c { n_available_params = c.n_available_params +ℤ pos (numels c.params ns) })

-- The loop over the parameters of `AllGatherCoalescedHandle.wait`.
unfoldable pub complete : List ℕ → (ℕ → Param) → Result (ℕ → Param)
complete [] h = ok h
complete (p ∷ ps) h = do
  guard (is_inflight (h p).status) assertion_error
  complete ps (set_status p available h)

-- `wait` of a handle
unfoldable pub wait : ℕ → Coordinator → Result Coordinator
unfolding complete
wait n c = elim (c.handles n) [
  | single p ↦ ok (record c { params = set_status p available c.params })
  | coalesced ps true ↦ ok c
  | coalesced ps false ↦ do
    h ← complete ps c.params
    ok (record c { params = h; handles = put n (coalesced ps true) c.handles })
]

-- The queue of events before a wait: finished events leave its front, and then the oldest one is
-- waited for if there are more than 1024. `query clock e` is whether event `e` is finished.
unfoldable pub sweep : (ℕ → Bool) → List ℕ → List ℕ
sweep query [] = []
sweep query (e ∷ es) = let rest = sweep query es in if query e then rest else e ∷ es

abbrev pub max_ongoing_fetch_events : ℕ
max_ongoing_fetch_events = 1024

unfoldable pub pop_if_full : List ℕ → List ℕ
pop_if_full es =
    if ltb max_ongoing_fetch_events (length es) then elim es [ [] ↦ [] | f ∷ fs ↦ fs ] else es

-- The body of `if param in self.__inflight_param_registry`.
unfoldable pub await : (ℕ → ℕ → Bool) → ℕ → Coordinator → Result Coordinator
unfolding lookup remove wait sweep pop_if_full
await query p c = elim (lookup p c.inflight_param_registry) [
  | none ↦ ok c
  | some n ↦ do
    let es = pop_if_full (sweep (query c.clock) c.ongoing_fetch_events)
    d ← wait n (record c { inflight_param_registry = remove p c.inflight_param_registry })
    ok (record d { ongoing_fetch_events = es ++ d.clock ∷ []; clock = suc d.clock })
]

-- `param.ds_active_sub_modules.add(current_submodule.id)`
abbrev pub activate : ℕ → ℕ → (ℕ → Param) → ℕ → Param
activate m p h = put p (record (h p) { active = add m (h p).active }) h

-- The loop of `fetch_sub_module` over the parameters of the submodule.
unfoldable pub acquire : (ℕ → ℕ → Bool) → ℕ → List ℕ → Coordinator → Result Coordinator
unfolding await
acquire query m [] c = ok c
acquire query m (p ∷ ps) c = do
  d ← await query p (record c { params = activate m p c.params })
  guard (is_available (d.params p).status) assertion_error
  acquire query m ps d

-- `self.__most_recent_step_id_param_fetched_for[p] < self.__step_id`
abbrev pub is_before : Option ℕ → ℕ → Bool
is_before none step = true
is_before (some s) step = ltb s step

unfoldable pub not_fetched : (ℕ → Option ℕ) → ℕ → List ℕ → List ℕ
not_fetched recent step [] = []
not_fetched recent step (p ∷ ps) =
    let rest = not_fetched recent step ps in if is_before (recent p) step then p ∷ rest else rest

-- What the two loops over the queue keep: the rest of the queue, the latest steps, a set.
pub record Scan : Type 0 where
  pub queue : List ParamInTrace
  pub recent : ℕ → Option ℕ
  pub chosen : List ℕ
  pub taken : ℕ

-- The loop that discards the entries of this submodule, up to `n` parameters.
unfoldable pub discard_queue : ℕ → List ParamInTrace → (ℕ → Option ℕ) → List ℕ → Scan
discard_queue n [] recent set = record { queue = []; recent = recent; chosen = set; taken = 0 }
discard_queue n (t ∷ ts) recent set =
    let next =
      discard_queue n ts (put t.param (some t.step_id_last_used_at) recent) (add t.param set) in
    if ltb (length set) n
    then next
    else record { queue = t ∷ ts; recent = recent; chosen = set; taken = 0 }

abbrev pub later : Option ℕ → ℕ → ℕ
later none step = step
later (some s) step = max s step

-- The loop that chooses what to prefetch: `limit` is `max_params_to_prefetch`, `numel` counts the
-- elements chosen so far.
unfoldable pub choose : (ℕ → Param) → ℤ → List ParamInTrace → (ℕ → Option ℕ) → List ℕ → ℕ → Scan
choose h limit [] recent set numel = record {
  queue = [];
  recent = recent;
  chosen = set;
  taken = numel;
}
choose h limit (t ∷ ts) recent set numel =
    let recent' = put t.param (some (later (recent t.param) t.step_id_last_used_at)) recent in
    let do_prefetch = is_not_available (h t.param).status && not (is_in t.param set) in
    let set' = if do_prefetch then t.param ∷ set else set in
    let numel' = if do_prefetch then numel + (h t.param).numel else numel in
    let next = choose h limit ts recent' set' numel' in
    if ltb_ℤ (pos numel) limit
    then next
    else record { queue = t ∷ ts; recent = recent; chosen = set; taken = numel }

-- `max_params_to_prefetch`
unfoldable pub prefetch_limit : Coordinator → ℤ
prefetch_limit c =
    let room = pos c.max_n_available_params -ℤ c.n_available_params in
    if ltb_ℤ (pos c.prefetch_bucket_sz) room then pos c.prefetch_bucket_sz else room

-- `if self.__prefetch_bucket_sz > 0`
unfoldable pub prefetch : Coordinator → Result Coordinator
unfolding choose prefetch_limit all_gather_params
prefetch c =
    if ltb 0 c.prefetch_bucket_sz
    then (let s =
          choose c.params (prefetch_limit c) c.param_queue c.most_recent_step_id_param_fetched_for
            [] 0 in
        all_gather_params s.chosen
          (record c { param_queue = s.queue; most_recent_step_id_param_fetched_for = s.recent }))
    else ok c

-- `if self.is_complete_trace()`
unfoldable pub advance_queue : List ℕ → Coordinator → Result Coordinator
unfolding not_fetched discard_queue prefetch
advance_queue ps c = do
  let new = not_fetched c.most_recent_step_id_param_fetched_for c.step_id ps
  let s = discard_queue (length new) c.param_queue c.most_recent_step_id_param_fetched_for []
  guard (is_same_set s.chosen new) runtime_error
  prefetch (record c { param_queue = s.queue; most_recent_step_id_param_fetched_for = s.recent })

-- `fetch_sub_module`
unfoldable pub fetch_sub_module : (ℕ → ℕ → Bool) → Module → Coordinator → Result Coordinator
unfolding all_gather_params acquire advance_queue
fetch_sub_module query m c = do
  let ps = set_of m.iter_params
  d ← all_gather_params ps c
  e ← acquire query m.id ps d
  f ← if is_complete_trace e then advance_queue ps e else ok e
  ok (record f { step_id = suc f.step_id })
