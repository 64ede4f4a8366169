-- ===== src/Reliability/Classify.antt =====
-- services/gateway/reliability/classify.go. What `status.FromError` and `errors.Is` say of an
-- error is not this program's code: `Errors` is the interface that stands for them.
use forge_labs.Base.{ℕ, Bool, true, false, Option, none, some}

-- The codes of gRPC that the program names, and all others.
pub data Code : Type 0 where
  unavailable resource_exhausted internal unknown canceled deadline_exceeded : Code
  invalid_argument not_found permission_denied : Code
  other_code : ℕ → Code

pub record Errors (E : Type 0) : Type 0 where
  -- `status.FromError`: the code of a status error, and `none` for any other error.
  pub from_error : E → Option Code
  -- `errors.Is(err, ErrOpen)`
  pub is_err_open : E → Bool

abbrev retryable_code : Code → Bool
retryable_code unavailable = true
retryable_code resource_exhausted = true
retryable_code internal = true
retryable_code unknown = true
retryable_code _ = false

abbrev excluded_code : Code → Bool
excluded_code canceled = true
excluded_code deadline_exceeded = true
excluded_code _ = false

module _ {E : Type 0} ⦃errors : Errors E⦄ where
  -- The argument is a Go error that may be nil.
  unfoldable pub retryable : Option E → Bool
  retryable none = false
  retryable (some e) = elim (errors.from_error e) [ none ↦ true | some c ↦ retryable_code c ]

  unfoldable pub is_excluded : E → Bool
  is_excluded e = elim (errors.from_error e) [ none ↦ false | some c ↦ excluded_code c ]

  unfoldable pub is_breaker_open : E → Bool
  is_breaker_open e = errors.is_err_open e
