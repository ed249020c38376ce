-- ===== src/Offload/FullCopy.antt =====
-- The CPU copies of whole parameters, which ENABLE_FULL_PARAM_TRANSFER switches on:
-- `_ensure_pinned_cpu_full_param` and its uses in src/smartnic_offload/parameter_offload.py, and
-- `CPUAllGatherCoalescedHandle` in src/smartnic_offload/partition_parameters.py. A parameter's CPU
-- tensors belong to it alone, so each parameter has a store of its own and an address, which stands
-- for `data_ptr()`, is an index into it. A copy to
-- the CPU does not block: it is enqueued with the elements that it will write, and made later, at any
-- time. The copies back are waited for by the poller at the end of `wait`.
use understanding_smartnic.Prelude.{
  ℕ, zero, suc, ◌*◌, List, [], ◌∷◌, ◌++◌, Option, none, some, Bool, true, false, ◌&&◌, ◌==◌, not,
  if◌then◌else◌, length, get_elem?, take, drop, Result, ok, err, ◌>>=◌, ◌>>◌, guard, runtime_error,
}
use understanding_smartnic.Tensor.{empty}
use understanding_smartnic.Partition.{ZeroParamStatus, available, not_available, inflight}

-- What the code reads of a tensor; `tensor` below is `param.data`.
pub record Array {ℓ} (A : Type ℓ) : Type ℓ where
  pub contents : List A
  pub shape : List ℕ
  pub dtype : ℕ

-- A tensor that may be pinned: `device.type == "cpu"` and `is_pinned()`.
pub record Buffer {ℓ} (A : Type ℓ) : Type ℓ where
  pub array : Array A
  pub on_cpu : Bool
  pub is_pinned : Bool

pub record FullParam {ℓ} (A : Type ℓ) : Type ℓ where
  pub ds_status : ZeroParamStatus
  pub ds_numel : ℕ
  pub ds_shape : List ℕ
  pub tensor : Array A
  pub cpu_full_param : Option ℕ
  pub cpu_full_param_pool : Option ℕ
  pub buffers : List (Buffer A)
  pub copies : List (ℕ × List A)

-- `Tensor.numel` of a shape
abbrev pub numel : List ℕ → ℕ
numel [] = 1
numel (n ∷ ns) = n * numel ns

abbrev pub same_shape : List ℕ → List ℕ → Bool
same_shape [] [] = true
same_shape [] (n ∷ ns) = false
same_shape (m ∷ ms) [] = false
same_shape (m ∷ ms) (n ∷ ns) = (m == n) && same_shape ms ns

abbrev pub has_inflight_status : ZeroParamStatus → Bool
has_inflight_status inflight = true
has_inflight_status _ = false

abbrev pub or_pool : Option ℕ → Option ℕ → Option ℕ
or_pool none pool_buf = pool_buf
or_pool (some a) pool_buf = some a

abbrev pub differs : Option ℕ → ℕ → Bool
differs none a = true
differs (some b) a = not (b == a)

abbrev pub pooled : Option ℕ → Option ℕ → Option ℕ
pooled none pool_buf = pool_buf
pooled (some a) pool_buf = if differs pool_buf a then some a else pool_buf

abbrev pub succeeded : Result (Unit {0}) → Bool
succeeded (err e) = false
succeeded (ok x) = true

abbrev pub is_not_available : ZeroParamStatus → Bool
is_not_available not_available = true
is_not_available _ = false

abbrev pub is_some : Option ℕ → Bool
is_some none = false
is_some (some a) = true

-- A call that changes `params` and may raise: what it gives, and the parameters afterwards.
pub record Waited {ℓ} (A : Type ℓ) : Type ℓ where
  pub returned : Result (Unit {0})
  pub params : List (FullParam A)

pub record CopyHandle {ℓ} (A : Type ℓ) : Type ℓ where
  pub params : List (FullParam A)
  pub is_complete : Bool

module _ {ℓ} {A : Type ℓ} where
  abbrev pub at : FullParam A → Option ℕ → Option (Buffer A)
  at p none = none
  at p (some a) = get_elem? p.buffers a

  -- The negation of `needs_new`.
  abbrev pub fits : Array A → Option (Buffer A) → Bool
  fits like none = false
  fits like (some b) =
      b.on_cpu
      && (b.is_pinned && (same_shape b.array.shape like.shape && (b.array.dtype == like.dtype)))

  -- `torch.empty_like(param.data, device="cpu", pin_memory=True)`
  abbrev pub empty_like : (ℕ → A) → Array A → Buffer A
  empty_like memory like = record {
    array = record like { contents = empty memory (length like.contents) };
    on_cpu = true;
    is_pinned = true;
  }

  -- `_ensure_pinned_cpu_full_param`; the tensor that it returns is the parameter's `cpu_full_param`.
  unfoldable pub ensure_pinned_cpu_full_param : (ℕ → A) → FullParam A → FullParam A
  ensure_pinned_cpu_full_param memory p =
      let cpu_full = or_pool p.cpu_full_param p.cpu_full_param_pool in
      let fresh = some (length p.buffers) in
      if fits p.tensor (at p cpu_full) then record p { cpu_full_param = cpu_full } else record p {
        buffers = p.buffers ++ empty_like memory p.tensor ∷ [];
        cpu_full_param_pool = fresh;
        cpu_full_param = fresh;
      }

  abbrev pub overwrite : List (Buffer A) → ℕ → List A → List (Buffer A)
  overwrite [] a xs = []
  overwrite (b ∷ bs) zero xs = record b { array = record b.array { contents = xs } } ∷ bs
  overwrite (b ∷ bs) (suc a) xs = b ∷ overwrite bs a xs

  -- `cpu_full.copy_(param.data, non_blocking=True)`: the copies that are enqueued afterwards
  abbrev pub enqueue : Option ℕ → List A → List (ℕ × List A) → List (ℕ × List A)
  enqueue none xs cs = cs
  enqueue (some a) xs cs = cs ++ (a, xs) ∷ []

  -- The store when these copies are made, in their order.
  abbrev pub copied : List (ℕ × List A) → List (Buffer A) → List (Buffer A)
  copied [] bs = bs
  copied ((a, xs) ∷ cs) bs = copied cs (overwrite bs a xs)

  -- The first `n` enqueued copies are made.
  unfoldable pub make_copies : ℕ → FullParam A → FullParam A
  make_copies n p = record p {
    buffers = copied (take n p.copies) p.buffers;
    copies = drop n p.copies;
  }

  -- All enqueued copies are made, as by a synchronization with the device.
  unfoldable pub synchronize : FullParam A → FullParam A
  synchronize p = record p { buffers = copied p.copies p.buffers; copies = [] }

  -- What `post_sub_module_forward_function` does with a parameter before it is released.
  unfoldable pub save : (ℕ → A) → FullParam A → FullParam A
  unfolding ensure_pinned_cpu_full_param
  save memory p =
      let q = ensure_pinned_cpu_full_param memory p in
      record q { copies = enqueue q.cpu_full_param q.tensor.contents q.copies }

  -- What `post_sub_module_backward_function` and `release_and_reset_all` do with a CPU copy.
  unfoldable pub stash : FullParam A → FullParam A
  stash p = record p {
    cpu_full_param_pool = pooled p.cpu_full_param p.cpu_full_param_pool;
    cpu_full_param = none;
  }

  -- `free_param`, for a parameter that no module uses
  unfoldable pub free : FullParam A → FullParam A
  free p = record p {
    tensor = record p.tensor { contents = []; shape = 0 ∷ [] };
    ds_status = not_available;
  }

  abbrev pub restore_from : FullParam A → Option (Buffer A) → Result (FullParam A)
  restore_from p none = err runtime_error
  restore_from p (some b) = do
    guard (length b.array.contents == p.ds_numel) runtime_error
    guard (numel p.ds_shape == length b.array.contents) runtime_error
    ok (record p { tensor = record b.array { shape = p.ds_shape }; ds_status = available })

  -- The body of the loop of `CPUAllGatherCoalescedHandle.wait`; `view` refuses another size.
  unfoldable pub restore : FullParam A → Result (FullParam A)
  restore p = restore_from p (at p p.cpu_full_param)

  abbrev pub and_then :
      FullParam A → List (FullParam A) → Result (FullParam A) → Waited A → Waited A
  and_then p ps (err e) rest = record { returned = err e; params = p ∷ ps }
  and_then p ps (ok q) rest = record rest { params = q ∷ rest.params }

  -- The loop: an exception leaves the parameters before it restored.
  unfoldable pub restore_all : List (FullParam A) → Waited A
  unfolding restore
  restore_all [] = record { returned = ok tt; params = [] }
  restore_all (p ∷ ps) = and_then p ps (restore p) (restore_all ps)

  -- `CPUAllGatherCoalescedHandle.wait`: what it gives, and the handle afterwards
  unfoldable pub wait_copies : CopyHandle A → Result (Unit {0}) × CopyHandle A
  unfolding restore_all
  wait_copies h =
      let waited = restore_all h.params in
      if h.is_complete then (ok tt, h) else (
        waited.returned,
        record { params = waited.params; is_complete = succeeded waited.returned },
      )

  -- The checks of `CPUAllGatherCoalescedHandle.__init__`.
  abbrev pub all_inflight : List (FullParam A) → Result (Unit {0})
  all_inflight [] = ok tt
  all_inflight (p ∷ ps) = guard (has_inflight_status p.ds_status) runtime_error >> all_inflight ps

  unfoldable pub copy_handle : List (FullParam A) → Result (CopyHandle A)
  copy_handle ps = all_inflight ps >> ok (record { params = ps; is_complete = false })

  -- The first loop of `all_gather_coalesced`.
  abbrev pub launch : List (FullParam A) → Result (List (FullParam A))
  launch [] = ok []
  launch (p ∷ ps) = do
    guard (is_not_available p.ds_status) runtime_error
    rest ← launch ps
    ok (record p { ds_status = inflight } ∷ rest)

  abbrev pub all_copied : List (FullParam A) → Bool
  all_copied [] = true
  all_copied (p ∷ ps) = is_some p.cpu_full_param && all_copied ps

  -- The start of `all_gather_coalesced` for parameters in the order of their ids: the handle that
  -- copies from the CPU, or none where the code goes on to gather shards.
  unfoldable pub gather_copies : Bool → List (FullParam A) → Result (Option (CopyHandle A))
  unfolding copy_handle
  gather_copies enabled ps = do
    qs ← launch ps
    if enabled && all_copied qs then (do h ← copy_handle qs; ok (some h)) else ok none
