-- ===== src/Work/Calls.antt =====
-- Calls of the driver, logged with their success, and the monad of methods that may raise.
use understanding_smartnic.Prelude.{
  ℕ, ◌+◌, List, [], ◌∷◌, Bool, true, false, if◌then◌else◌, Result, ok, err, Error, runtime_error,
}

pub data Request : Type 0 where
  req_wait : ℕ → Request
  req_release : ℕ → Request
  req_test : ℕ → Request
  wait_value : ℕ → ℕ → Request

-- A request to the driver and whether it succeeded.
abbrev pub Call : Type 0
Call = Request × Bool

-- An object and the calls made so far, the latest first.
pub record Io (W : Type 0) : Type 0 where
  pub work : W
  pub calls : List Call

abbrev pub M : Type 0 → Type 0 → Type 0
M W A = Io W → Io W × Result A

abbrev pub pure : {W A : Type 0} → A → M W A
pure a s = (s, ok a)

abbrev pub raise : {W A : Type 0} → Error → M W A
raise e s = (s, err e)

infixl 5 ◌>>=◌ ◌>>◌
abbrev pub ◌>>=◌ : {W A B : Type 0} → M W A → (A → M W B) → M W B
◌>>=◌ m f s = elim (m s).1 [ ok a ↦ f a (m s).0 | err e ↦ ((m s).0, err e) ]

abbrev pub ◌>>◌ : {W B : Type 0} → M W (Unit {0}) → M W B → M W B
◌>>◌ m k = m >>= λ _. k

-- One call of the driver; a failure raises.
abbrev pub call : {W : Type 0} → Request → Bool → M W (Unit {0})
call r good s =
    (record s { calls = (r, good) ∷ s.calls }, if good then ok tt else err runtime_error)

-- How many requests of a kind succeeded.
abbrev pub is_release : Request → Bool
is_release (req_release h) = true
is_release _ = false

abbrev pub is_schedule : Request → Bool
is_schedule (wait_value a v) = true
is_schedule _ = false

abbrev pub is_wait : Request → Bool
is_wait (req_wait h) = true
is_wait _ = false

unfoldable pub successes : (Request → Bool) → List Call → ℕ
successes kind [] = 0
successes kind ((r, good) ∷ cs) =
    (if kind r then (if good then 1 else 0) else 0) + successes kind cs

-- Calls of a kind, failed ones included.
unfoldable pub attempts : (Request → Bool) → List Call → ℕ
attempts kind [] = 0
attempts kind ((r, good) ∷ cs) = (if kind r then 1 else 0) + attempts kind cs
