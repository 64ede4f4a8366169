-- ===== src/Gateway/Dispatch.antt =====
-- services/gateway/dispatch.go, with the breakers and the budget of `forge_labs.Reliability`. A
-- failover that is nil is one without both. What opening a stream answers is a parameter, and so are
-- the times that the breakers read, each at the position of the worker. Metrics are left out.
mod First
mod Reaches
mod Tests
use forge_labs.Base.{
  ℕ, zero, suc, Bool, true, false, not, ◌&&◌, Option, none, some, List, [], ◌∷◌, map, length, ltb,
  if◌then◌else◌, is_some, Str, Dict, str_key, lookup, insert, Float,
}
use mathlib.Core.Option
use forge_labs.Reliability.Breaker.{BreakerMap, allow, success, failure}
use forge_labs.Reliability.Budget.{RetryBudget, may_retry, on_failure, on_success}
use forge_labs.Reliability.Classify.{Errors, retryable, is_excluded}
use forge_labs.Reliability.Failover.{Worker, DoError, no_workers, call_error, Failover, Run, do_}
use forge_labs.Reliability.Failover
use forge_labs.Gateway.Admission.{SelectedWorker}
use forge_labs.Gateway.Stream.{
  TokenChunk, Writer, Event, chat_role, write, and_then, stream_chat, stream_text,
}

-- What `openGenerate` answers: an error, or a stream, as in `forge_labs.Gateway.Stream`.
pub data Opened (E : Type 0) : Type 0 where
  not_opened : E → Opened E
  opened : List TokenChunk → Option E → Opened E

pub record Env (E : Type 0) : Type 0 where
  pub open_at : ℕ → SelectedWorker → Opened E
  pub allow_now : ℕ → ℕ
  pub failure_now : ℕ → ℕ

-- The parts of the failover that `streamFirstToken` uses.
pub record Guards (F : Type 0) : Type 0 where
  pub budget : Option (RetryBudget F)
  pub breaker : Option (BreakerMap F)

-- What `streamFirstToken` returns: a stream with its worker and perhaps a first chunk, an error, the
-- error "no healthy worker", or nil everywhere.
pub data FirstToken (E : Type 0) : Type 0 where
  streams : SelectedWorker → Option TokenChunk → List TokenChunk → Option E → FirstToken E
  fails : E → FirstToken E
  no_healthy_worker : FirstToken E
  all_nil : FirstToken E

-- The end of one round of the loop.
pub data Round (F E : Type 0) : Type 0 where
  ends : FirstToken E → Guards F → Round F E
  goes_on : Option E → Guards F → Round F E

module _ {F : Type 0} ⦃f : Float F⦄ where
  abbrev pub no_budget : Guards F → Bool
  no_budget g = elim g.budget [ none ↦ false | some b ↦ not (may_retry b) ]

  abbrev pub succeeded : SelectedWorker → Guards F → Guards F
  succeeded w g = record g {
    budget = Option.map on_success g.budget;
    breaker = Option.map (λ b. success b w.id) g.breaker;
  }

module _ {F E : Type 0} ⦃f : Float F⦄ ⦃errors : Errors E⦄ where
  -- `Breaker.Allow`, if there is a breaker: whether it allows, and the breakers after it.
  abbrev pub ask : Env E → ℕ → SelectedWorker → Guards F → Bool × Guards F
  ask env i w g = elim g.breaker [
    | none ↦ (true, g)
    | some b ↦
        let (b', e) = allow b w.id (env.allow_now i) in
        (not (is_some e), record g { breaker = some b' })
  ]

  -- `recordFail`, of an error that is `io.EOF` if it is `none`.
  abbrev pub record_fail : Env E → ℕ → SelectedWorker → Option E → Guards F → Guards F
  record_fail env i w e g =
      if (elim e [ none ↦ false | some e' ↦ is_excluded e' ])
      then g
      else record g { breaker = Option.map (λ b. failure b w.id (env.failure_now i)) g.breaker }

  -- Both branches of the code for an error.
  unfoldable pub after_error : Env E → ℕ → SelectedWorker → E → Guards F → Round F E
  after_error env i w e g =
      let g' = record_fail env i w (some e) g in
      if not (retryable (some e))
      then ends (fails e) g'
      else goes_on (some e) (record g' { budget = Option.map on_failure g'.budget })

  -- What follows `openGenerate`.
  unfoldable pub after_open : Env E → ℕ → SelectedWorker → Guards F → Opened E → Round F E
  unfolding after_error
  after_open env i w g (not_opened e) = after_error env i w e g
  after_open env i w g (opened [] (some e)) = after_error env i w e g
  after_open env i w g (opened [] none) =
      ends (streams w none [] none) (succeeded w (record_fail env i w none g))
  after_open env i w g (opened (c ∷ cs) ending) =
      ends (streams w (some c) cs ending) (succeeded w g)

  -- One round of the loop. `many` says whether there is more than one worker.
  unfoldable pub first_round : Env E → Bool → ℕ → Option E → SelectedWorker → Guards F → Round F E
  unfolding after_open
  first_round env many i last w g =
      if ltb 0 i && no_budget g
      then ends (elim last [ none ↦ all_nil | some e ↦ fails e ]) g
      else let (granted, g') = ask env i w g in
        if not granted && many then goes_on last g' else after_open env i w g' (env.open_at i w)

  unfoldable pub first_from :
      Env E → Bool → ℕ → Option E → List SelectedWorker → Guards F → FirstToken E × Guards F
  unfolding first_round
  first_from env many i last [] g = (elim last [ none ↦ no_healthy_worker | some e ↦ fails e ], g)
  first_from env many i last (w ∷ ws) g = elim (first_round env many i last w g) [
    | ends r g' ↦ (r, g')
    | goes_on last' g' ↦ first_from env many (suc i) last' ws g'
  ]

  -- `streamFirstToken`
  unfoldable pub stream_first_token :
      Env E → List SelectedWorker → Guards F → FirstToken E × Guards F
  unfolding first_from
  stream_first_token env ws g = first_from env (ltb 1 (length ws)) 0 none ws g
