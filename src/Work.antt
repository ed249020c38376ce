-- ===== src/Work.antt =====
-- src/smartnic_offload/partition_parameters.py, `_ComchHandleWork`: a collective request in flight,
-- with the GPU-flag path and the path that blocks; and cuda_stream_wait.py, which schedules the
-- wait. The driver (doca_comch_client_pybind, libcuda) is not part of the repository: each call of
-- it is logged, and what it answers is an argument.
pub mod Calls
pub mod Legacy
pub mod Release
pub mod Flag
mod Tests
use understanding_smartnic.Prelude.{
  ℕ, ◌+◌, List, [], ◌∷◌, ◌++◌, Bool, true, false, not, ◌&&◌, ◌==◌, if◌then◌else◌, Result, ok, err,
  runtime_error,
}
use Calls.{
  Request, req_wait, req_release, req_test, wait_value, Io, M, pure, raise, call, ◌>>=◌, ◌>>◌,
}

-- `_ComchHandleWork`: an address of 0 stands for a request without a flag.
pub record Work : Type 0 where
  pub handle : ℕ
  pub released : Bool
  pub completed : Bool
  pub gpu_flag_addr : ℕ
  pub gpu_flag_value : ℕ
  pub gpu_flag_scheduled : Bool

-- `_ComchHandleWork.__init__`
pub init : ℕ → ℕ → ℕ → Work
init handle addr value = record {
  handle = handle;
  released = false;
  completed = false;
  gpu_flag_addr = addr;
  gpu_flag_value = value;
  gpu_flag_scheduled = false;
}

-- `use_gpu_flag`
pub use_gpu_flag : Work → Bool
use_gpu_flag w = not (w.gpu_flag_addr == 0)

-- What the driver answers to the calls of one method: whether libcuda could be bound, and whether
-- the calls succeed. `res` is the code of cuStreamWaitValue32, 0 for success.
pub record Answers : Type 0 where
  pub available : Bool
  pub res : ℕ
  pub wait_ok : Bool
  pub release_ok : Bool

-- `stream_wait_value_eq`
pub stream_wait_value_eq : Answers → ℕ → ℕ → M Work Unit
stream_wait_value_eq a addr value =
    if a.available then call (wait_value addr value) (a.res == 0) else raise runtime_error

-- `if not self._gpu_flag_scheduled`
pub schedule : Answers → M Work Unit
unfolding stream_wait_value_eq
schedule a s =
    if s.work.gpu_flag_scheduled
    then (s, ok tt)
    else (do
      stream_wait_value_eq a s.work.gpu_flag_addr s.work.gpu_flag_value
      λ t. (record t { work = record t.work { gpu_flag_scheduled = true } }, ok tt))
        s

-- `if not self._completed` of the blocking path
pub block : Answers → M Work Unit
block a s =
    if s.work.completed
    then (s, ok tt)
    else (do
      call (req_wait s.work.handle) a.wait_ok
      λ t. (record t { work = record t.work { completed = true } }, ok tt))
        s

-- `if not self._released`
pub release : Answers → M Work Unit
release a s =
    if s.work.released
    then (s, ok tt)
    else (do
      call (req_release s.work.handle) a.release_ok
      λ t. (record t { work = record t.work { released = true } }, ok tt))
        s

mark_completed : M Work Unit
mark_completed s = (record s { work = record s.work { completed = true } }, ok tt)

-- `_ComchHandleWork.wait`
pub wait : Answers → M Work Unit
unfolding use_gpu_flag schedule block release mark_completed
wait a s =
    if use_gpu_flag s.work
    then (do schedule a; mark_completed; release a) s
    else (do block a; release a) s

-- `_ComchHandleWork.is_completed`: `done` is the answer of comch_req_test_py.
pub is_completed : Bool → M Work Bool
is_completed done s =
    if s.work.completed
    then (s, ok true)
    else (do
      call (req_test s.work.handle) true
      λ t. (if done then record t { work = record t.work { completed = true } } else t, ok done))
        s

-- `_ComchHandleWork.__del__`: an exception of the release is swallowed. The handle is an int, so it
-- is not None.
pub del : Answers → M Work Unit
del a s =
    if s.work.released
    then (s, ok tt)
    else let t = (call {W = Work} (req_release s.work.handle) a.release_ok s).0 in
      (record t { work = record t.work { released = true } }, ok tt)

-- What a holder of the request does with it; exceptions are caught by the holder.
pub data Op : Type 0 where
  waits : Answers → Op
  tests : Bool → Op
  drops : Answers → Op

pub step : Op → Io Work → Io Work
unfolding wait is_completed del
step (waits a) s = (wait a s).0
step (tests done) s = (is_completed done s).0
step (drops a) s = (del a s).0

pub run : List Op → Io Work → Io Work
run [] s = s
run (o ∷ ops) s = run ops (step o s)
