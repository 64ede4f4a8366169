-- ===== src/Reliability/Failover/Tests.antt =====
-- Runs of `Do`, and its theorems at concrete inputs.
use forge_labs.Fixed.{fixed}
use forge_labs.Base.{
  ◌≡◌, refl, true, none, some, [], ◌∷◌, arith, length, ℤ, pos, ◌≤ℤ◌, bytes, ◌-ℤ◌, lookup, str_eq,
  time_sub,
}
use forge_labs.Reliability.Breaker.{entry, new_breaker}
use forge_labs.Reliability.Budget.{may_retry, on_failure, on_success}
use forge_labs.Reliability.Classify.{retryable, is_excluded, is_breaker_open}
use forge_labs.Reliability.Samples.{
  a, b, no_breakers, spent_a, both_open, worker_a, worker_b, workers, code_errors, env,
  spent_budget, full_budget, failover_with,
}
use forge_labs.Reliability.Failover.{
  zero_worker, do_, order, attempt, turn, no_healthy_worker, budget_refuses, start, Failover,
}
use forge_labs.Reliability.Failover.Calls.{calls-le-max}
use forge_labs.Reliability.Failover.Outcomes.{Honest, do_-Honest}
use forge_labs.Reliability.Failover.Panic.{panic_calls_no_one}
use forge_labs.Reliability.Failover.Silent.{nil_without_call}

abbrev plain : Failover ℤ
plain = record { budget = some full_budget; breaker = none; metrics = true; max = pos 3 }

-- The first worker fails, the second one answers, and the metric names both.
fails_over :
    let (used, e, r) = do_ plain env workers in
    (used ≡ worker_b) × (e ≡ none) × (r.failovers ≡ (a, b, bytes "unavailable") ∷ [])
unfolding do_ order attempt turn may_retry on_failure on_success retryable is_excluded
    is_breaker_open ◌-ℤ◌
fails_over = (refl, refl, refl)

calls-le-max_example :
    pos (length (do_ (failover_with no_breakers full_budget) env workers).2.calls) ≤ℤ pos 3
calls-le-max_example =
    calls-le-max (failover_with no_breakers full_budget) env workers (omega arith)

do_-Honest_example : Honest env (do_ (failover_with no_breakers full_budget) env workers)
do_-Honest_example = do_-Honest (failover_with no_breakers full_budget) env workers

panic_calls_no_one_example :
    let (used, e, r) = do_ (failover_with both_open full_budget) env workers in
    (used ≡ zero_worker) × (e ≡ some no_healthy_worker) × (r.calls ≡ [])
unfolding entry lookup str_eq time_sub budget_refuses may_retry start
panic_calls_no_one_example =
    panic_calls_no_one (failover_with both_open full_budget) env worker_a worker_b [] both_open
      (omega arith) refl refl
      (
        record { opened = refl; early_order = λ i. refl; early_allow = λ i. refl },
        (record { opened = refl; early_order = λ i. refl; early_allow = λ i. refl }, tt),
      )

nil_without_call_example :
    let (used, e, r) = do_ (failover_with spent_a spent_budget) env workers in
    (used ≡ zero_worker) × (e ≡ none) × (r.calls ≡ [])
unfolding entry lookup str_eq budget_refuses may_retry start new_breaker
nil_without_call_example =
    nil_without_call (failover_with spent_a spent_budget) env worker_a worker_b [] spent_a
      (omega arith) refl refl refl refl refl
