-- ===== src/Gateway/Dispatch/Tests.antt =====
-- Two workers, the first of which fails or is refused, and the theorems on them.
use forge_labs.Base.{ℕ, zero, suc, ◌≡◌, refl, true, Option, none, some, [], ◌∷◌, ℤ, Str, bytes}
use forge_labs.Fixed.{fixed}
use forge_labs.Reliability.Samples.{spent_a, code_errors, spent_budget}
use forge_labs.Reliability.Classify.{Code, unavailable, retryable}
use forge_labs.Gateway.Admission.{SelectedWorker}
use forge_labs.Gateway.Stream.Tests.{hello}
use forge_labs.Gateway.Dispatch.{
  Opened, not_opened, opened, Env, Guards, streams, stream_first_token,
}
use forge_labs.Gateway.Dispatch.Reaches.{unguarded, stream_first_token-reaches}

abbrev worker : Str → SelectedWorker
worker id = record { id = id; endpoint = []; models = [] }

abbrev answers : ℕ → Opened (Option Code)
answers zero = not_opened (some unavailable)
answers (suc _) = opened (hello ∷ []) none

abbrev env : Env (Option Code)
env = record { open_at = λ i _. answers i; allow_now = λ i. i; failure_now = λ i. i }

abbrev spent : Guards ℤ
spent = record { budget = some spent_budget; breaker = some spent_a }

a-IsRetryable : retryable (some (some unavailable)) ≡ true
unfolding retryable
a-IsRetryable = refl

stream_first_token-reaches_example :
    stream_first_token {F = ℤ} env (worker (bytes "a") ∷ worker (bytes "b") ∷ []) unguarded
    ≡ (streams (worker (bytes "b")) (some hello) [] none, unguarded)
stream_first_token-reaches_example =
    stream_first_token-reaches env (worker (bytes "a") ∷ []) (worker (bytes "b")) [] hello [] none
      (a-IsRetryable, tt) refl
