-- ===== src/Gateway/Collect/Tests.antt =====
-- The first of two workers fails, and the theorem on it.
use forge_labs.Base.{ℕ, zero, suc, false, Option, none, some, List, [], ◌∷◌, ℤ, pos, bytes}
use forge_labs.Fixed.{fixed}
use forge_labs.Reliability.Samples.{code_errors, full_budget, no_breakers}
use forge_labs.Reliability.Classify.{Code, unavailable}
use forge_labs.Reliability.Failover.{Failover}
use forge_labs.Gateway.Admission.{SelectedWorker}
use forge_labs.Gateway.Stream.Tests.{hello}
use forge_labs.Gateway.Dispatch.{Opened, not_opened, opened}
use forge_labs.Gateway.Collect.{Times, by_id, collect_with_failover}
use forge_labs.Gateway.Collect.Answered.{opened_from, Sent, collect_with_failover-Sent}

abbrev failover : Failover ℤ
failover = record {
  budget = some full_budget;
  breaker = some no_breakers;
  metrics = false;
  max = pos 3;
}

abbrev workers : List SelectedWorker
workers =
    record { id = bytes "a"; endpoint = []; models = [] }
    ∷ record { id = bytes "b"; endpoint = []; models = [] }
    ∷ []

abbrev answers : ℕ → SelectedWorker → Opened (Option Code)
answers zero w = not_opened (some unavailable)
answers (suc _) w = opened (hello ∷ []) none

abbrev times : Times
times = record { order_now = λ i. i; allow_now = λ i. i; failure_now = λ i. i }

collect_with_failover-Sent_example :
    Sent answers
      (by_id workers [])
      (opened_from (some failover) times answers workers)
      (collect_with_failover (some failover) times answers workers)
collect_with_failover-Sent_example =
    collect_with_failover-Sent (some failover) times answers workers
