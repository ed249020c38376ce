-- ===== src/Accounting/Agree.antt =====
-- The totals, the phases and the records tell the same of the waits between two resets.
use understanding_smartnic.Prelude.{
  ℕ, ◌+◌, ◌-◌, max, ◌≤◌, ◌≡◌, refl, List, [], ◌∷◌, ◌++◌, Bool, Bool-cases, Option-cases, inl, inr,
  length, length-append, arith,
}
use understanding_smartnic.Accounting.{
  Books, AgRecord, PhaseStats, AgPhase, unknown, forward, backward, AllGatherHandle, account, wait,
  set_ag_phase, use_poller, accumulate_all_gather_detailed, accumulate_phase_block,
}

-- The sum of a field of the records.
abbrev pub total_of : (AgRecord → ℕ) → List AgRecord → ℕ
total_of field [] = 0
total_of field (r ∷ rs) = field r + total_of field rs

total_of-append :
    (field : AgRecord → ℕ) (rs qs : List AgRecord)
    → total_of field (rs ++ qs) ≡ total_of field rs + total_of field qs
total_of-append field [] qs = omega arith
total_of-append field (r ∷ rs) qs = omega (arith, total_of-append field rs qs)

-- The blocked time and the calls of both phases.
abbrev pub phase_block : Books → ℕ
phase_block b = b.phase_stats.fwd_block + b.phase_stats.bwd_block

abbrev pub phase_calls : Books → ℕ
phase_calls b = b.phase_stats.fwd_calls + b.phase_stats.bwd_calls

-- From one state of the books to another the records have grown by as many entries as there were
-- calls, and by as many bytes and as much blocked time as the totals; the times of the DPU in the
-- records and the phases have grown by no more.
abbrev pub Agree : Books → Books → Type 0
Agree b b' =
    (b'.totals.calls + length b.records ≡ b.totals.calls + length b'.records)
    × (b'.totals.bytes + total_of (λ r. r.nbytes) b.records
        ≡ b.totals.bytes + total_of (λ r. r.nbytes) b'.records)
    × (b'.totals.block + total_of (λ r. r.block) b.records
        ≡ b.totals.block + total_of (λ r. r.block) b'.records)
    × (b.totals.dpu + total_of (λ r. r.dpu) b'.records
        ≤ b'.totals.dpu + total_of (λ r. r.dpu) b.records)
    × (phase_block b' + b.totals.block ≤ phase_block b + b'.totals.block)
    × (phase_calls b' + b.totals.calls ≤ phase_calls b + b'.totals.calls)

-- What happens in an epoch: the phase is set, or a handle is waited for.
pub data Event : Type 0 where
  set_phase : AgPhase → Event
  waited : Bool → AllGatherHandle → ℕ → ℕ → ℕ → Event

abbrev pub happen : Event → Books → Books
happen (set_phase phase) b = set_ag_phase phase b
happen (waited disabled h t_wait_start t_after t_complete) b =
    (wait disabled h t_wait_start t_after t_complete b).0

abbrev pub happen_all : List Event → Books → Books
happen_all [] b = b
happen_all (e ∷ es) b = happen_all es (happen e b)

Agree-refl : (b : Books) → Agree b b
Agree-refl b = (refl, refl, refl, omega arith, omega arith, omega arith)

Agree-trans : (a b c : Books) → Agree a b → Agree b c → Agree a c
Agree-trans a b c (p, q, r, s, t, u) (p', q', r', s', t', u') =
    (omega arith, omega arith, omega arith, omega arith, omega arith, omega arith)

phase_block-le :
    (phase : AgPhase) (block : ℕ) (s : PhaseStats)
    → ((accumulate_phase_block phase block s).fwd_block
          + (accumulate_phase_block phase block s).bwd_block
        ≤ s.fwd_block + s.bwd_block + block)
      × ((accumulate_phase_block phase block s).fwd_calls
            + (accumulate_phase_block phase block s).bwd_calls
          ≤ s.fwd_calls + s.bwd_calls + 1)
unfolding accumulate_phase_block
phase_block-le unknown block s = (omega arith, omega arith)
phase_block-le forward block s = (omega arith, omega arith)
phase_block-le backward block s = (omega arith, omega arith)

account-Agree :
    (h : AllGatherHandle) (t_request t_wait_start t_end dpu : ℕ) (b : Books)
    → dpu ≤ t_end - max t_request b.totals.last_complete
    → Agree b (account h t_request t_wait_start t_end dpu b)
unfolding account accumulate_all_gather_detailed
account-Agree h t_request t_wait_start t_end dpu b small =
    let block : ℕ = t_end - t_wait_start in
    let r : AgRecord = record {
      nbytes = h.nbytes;
      dpu = dpu;
      block = block;
      enqueue = 0;
      prefetch_lead = t_wait_start - t_request;
      wall = t_end - t_request;
    } in
    let (blocked, called) = phase_block-le b.phase block b.phase_stats in
    (
      omega (arith, length-append b.records (r ∷ [])),
      omega (arith, total_of-append (λ q. q.nbytes) b.records (r ∷ [])),
      omega (arith, total_of-append (λ q. q.block) b.records (r ∷ [])),
      omega (arith, total_of-append (λ q. q.dpu) b.records (r ∷ [])),
      omega (arith, blocked),
      omega (arith, called),
    )

wait-Agree :
    (disabled : Bool) (h : AllGatherHandle) (t_wait_start t_after t_complete : ℕ) (b : Books)
    → Agree b (wait disabled h t_wait_start t_after t_complete b).0
unfolding wait
wait-Agree disabled h t_wait_start t_after t_complete b = elim (Option-cases h.t_request) [
  | inl never ↦ elim (Bool-cases h.use_gpu_flag) [
    | inl flag ↦ rw (flag, never) (Agree-refl b)
    | inr flag ↦ rw (flag, never) (Agree-refl b)
  ]
  | inr (t, asked) ↦ elim (Bool-cases h.use_gpu_flag) [
    | inl flag ↦ rw (flag, asked) (account-Agree h t t_wait_start t_after 0 b (omega arith))
    | inr flag ↦ elim (Bool-cases (use_poller disabled h)) [
      | inl poll ↦
          rw (flag, poll, asked)
            (account-Agree h t t_wait_start t_complete (t_complete - max t b.totals.last_complete) b
              (omega arith))
      | inr poll ↦ rw (flag, poll) (Agree-refl b)
    ]
  ]
]

happen-Agree : (e : Event) (b : Books) → Agree b (happen e b)
happen-Agree (set_phase phase) b = Agree-refl b
happen-Agree (waited disabled h t_wait_start t_after t_complete) b =
    wait-Agree disabled h t_wait_start t_after t_complete b

-- Whatever handles are waited for and whatever phases are set, from any state of the books: the
-- totals of the calls, of the bytes and of the blocked time grow by exactly what the records show, the
-- total time of the DPU grows by at least what they show, and the calls and the blocked time of the
-- forward and the backward phase together grow by no more than the totals.
pub happen_all-Agree : (es : List Event) (b : Books) → Agree b (happen_all es b)
happen_all-Agree [] b = Agree-refl b
happen_all-Agree (e ∷ es) b =
    Agree-trans b (happen e b) (happen_all es (happen e b)) (happen-Agree e b)
      (happen_all-Agree es (happen e b))
