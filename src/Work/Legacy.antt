-- ===== src/Work/Legacy.antt =====
-- src/smartnic_offload/comch_mpi/host/client.py and zero_optimizer.py have the class without flags.
-- It behaves as a request of `Work` whose flag address is 0.
use understanding_smartnic.Prelude.{
  ℕ, ◌≡◌, refl, ap, List, [], ◌∷◌, Bool, true, false, if◌then◌else◌, ok, arith, ◌∙◌,
}
use understanding_smartnic.Work.Calls.{Io, M, req_wait, req_release, req_test, call, ◌>>◌}
use understanding_smartnic.Work.{Work, Answers, Op, waits, tests, drops, step, run}

-- `_ComchHandleWork` of client.py
pub record ClientWork : Type 0 where
  pub handle : ℕ
  pub released : Bool
  pub completed : Bool

pub client_init : ℕ → ClientWork
client_init handle = record { handle = handle; released = false; completed = false }

client_block : Answers → M ClientWork Unit
client_block a s =
    if s.work.completed
    then (s, ok tt)
    else (do
      call (req_wait s.work.handle) a.wait_ok
      λ t. (record t { work = record t.work { completed = true } }, ok tt))
        s

client_release : Answers → M ClientWork Unit
client_release a s =
    if s.work.released
    then (s, ok tt)
    else (do
      call (req_release s.work.handle) a.release_ok
      λ t. (record t { work = record t.work { released = true } }, ok tt))
        s

pub client_wait : Answers → M ClientWork Unit
unfolding client_block client_release
client_wait a s = (do client_block a; client_release a) s

pub client_is_completed : Bool → M ClientWork Bool
client_is_completed done s =
    if s.work.completed
    then (s, ok true)
    else (do
      call (req_test s.work.handle) true
      λ t. (if done then record t { work = record t.work { completed = true } } else t, ok done))
        s

pub client_del : Answers → M ClientWork Unit
client_del a s =
    if s.work.released
    then (s, ok tt)
    else let t = (call {W = ClientWork} (req_release s.work.handle) a.release_ok s).0 in
      (record t { work = record t.work { released = true } }, ok tt)

pub client_step : Op → Io ClientWork → Io ClientWork
unfolding client_wait client_is_completed client_del
client_step (waits a) s = (client_wait a s).0
client_step (tests done) s = (client_is_completed done s).0
client_step (drops a) s = (client_del a s).0

pub client_run : List Op → Io ClientWork → Io ClientWork
client_run [] s = s
client_run (o ∷ ops) s = client_run ops (client_step o s)

-- What the class of client.py keeps of a request.
abbrev pub view : Io Work → Io ClientWork
view s = record {
  work = record {
    handle = s.work.handle;
    released = s.work.released;
    completed = s.work.completed;
  };
  calls = s.calls;
}

view-step :
    (o : Op) (s : Io Work)
    → s.work.gpu_flag_addr ≡ 0
    → (view (step o s) ≡ client_step o (view s)) × ((step o s).work.gpu_flag_addr ≡ 0)
unfolding step client_step
view-step (waits a) s h = ground arith
view-step (tests done) s h = ground arith
view-step (drops a) s h = ground arith

-- The two classes make the same calls in the same order and end in the same state, for every use
-- of a request without a flag.
pub view-run :
    (ops : List Op) (s : Io Work)
    → s.work.gpu_flag_addr ≡ 0
    → view (run ops s) ≡ client_run ops (view s)
unfolding run client_run
view-run [] s h = refl
view-run (o ∷ ops) s h =
    view-run ops (step o s) (view-step o s h).1 ∙ ap (client_run ops) (view-step o s h).0
