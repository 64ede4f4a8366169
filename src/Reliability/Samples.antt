-- ===== src/Reliability/Samples.antt =====
-- Concrete breakers, workers and errors for the tests of this part.
use forge_labs.Base.{
  ℕ, zero, suc, ◌*◌, true, false, Option, none, some, List, [], ◌∷◌, ℤ, pos, second, Str, bytes,
}
use forge_labs.Reliability.Breaker.{
  State, half_open, open_, BreakerConfig, WorkerBreaker, BreakerMap,
}
use forge_labs.Reliability.Budget.{RetryBudget}
use forge_labs.Reliability.Classify.{Code, unavailable, Errors}
use forge_labs.Reliability.Failover.{Worker, Failover, Env}

abbrev pub config : BreakerConfig ℤ
config = record {
  min_requests = 2;
  failure_ratio = pos 500;
  timeout = pos (5 * second);
  max_half_open = 2;
}

abbrev pub breaker_in : State → ℕ → WorkerBreaker
breaker_in s left = record {
  state = s;
  requests = 4;
  failures = 3;
  successes = 1;
  half_open_left = left;
  opened_at = 100;
}

abbrev pub a : Str
a = bytes "a"

abbrev pub b : Str
b = bytes "b"

-- Worker `a` has a breaker in the given state; no other worker has one.
abbrev pub map_with : WorkerBreaker → BreakerMap ℤ
map_with wb = record { breakers = (a, wb) ∷ []; cfg = config; on_state = true; notified = [] }

abbrev pub open_a : BreakerMap ℤ
open_a = map_with (breaker_in open_ 0)

abbrev pub probing_a : BreakerMap ℤ
probing_a = map_with (breaker_in half_open 1)

abbrev pub spent_a : BreakerMap ℤ
spent_a = map_with (breaker_in half_open 0)

abbrev pub no_breakers : BreakerMap ℤ
no_breakers = record { breakers = []; cfg = config; on_state = true; notified = [] }

abbrev pub both_open : BreakerMap ℤ
both_open = record {
  breakers = (a, breaker_in open_ 0) ∷ (b, breaker_in open_ 0) ∷ [];
  cfg = config;
  on_state = true;
  notified = [];
}

-- An error is a code, or `none` for an error that is no status error.
instance abbrev pub code_errors : Errors (Option Code)
code_errors = record { from_error = λ e. e; is_err_open = λ e. false }

abbrev pub worker_a : Worker
worker_a = record { id = a; endpoint = bytes "http://a" }

abbrev pub worker_b : Worker
worker_b = record { id = b; endpoint = bytes "http://b" }

abbrev pub workers : List Worker
workers = worker_a ∷ worker_b ∷ []

-- The first worker is unavailable, the others answer nil; the clock stands at one second.
abbrev pub first_fails : ℕ → Worker → Option (Option Code)
first_fails i w = elim i [ zero ↦ some (some unavailable) | suc _ ↦ none ]

abbrev pub env : Env (Option Code)
env = record {
  call = first_fails;
  order_now = λ _. second;
  allow_now = λ _. second;
  failure_now = λ _. second;
}

abbrev pub spent_budget : RetryBudget ℤ
spent_budget = record { tokens = pos 0; max_tokens = pos 10_000; token_ratio = pos 100 }

abbrev pub full_budget : RetryBudget ℤ
full_budget = record { tokens = pos 10_000; max_tokens = pos 10_000; token_ratio = pos 100 }

abbrev pub failover_with : BreakerMap ℤ → RetryBudget ℤ → Failover ℤ
failover_with breakers budget = record {
  budget = some budget;
  breaker = some breakers;
  metrics = true;
  max = pos 3;
}
