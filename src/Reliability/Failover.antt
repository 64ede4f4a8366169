-- ===== src/Reliability/Failover.antt =====
-- services/gateway/reliability/failover.go. A run of `Do` threads the budget and the breakers
-- through its loop. The callback and the clock are an environment, read at the position of the
-- worker in its list; the calls and the failover metric are traces.
mod Rounds
pub mod Calls
pub mod Outcomes
pub mod Panic
pub mod Silent
mod Tests
use forge_labs.Base.{
  ℕ, zero, suc, ◌+◌, Bool, true, false, not, ◌&&◌, Option, none, some, List, [], ◌∷◌, ltb, leb,
  if◌then◌else◌, ℤ, pos, leb_ℤ, length, is_some, Str, bytes, Float,
}
use mathlib.Core.Option
use forge_labs.Reliability.Breaker.{
  BreakerMap, State, open_, state_eq, allow, success, failure, state_of,
}
use forge_labs.Reliability.Budget.{RetryBudget, may_retry, on_failure, on_success}
use forge_labs.Reliability.Classify.{Errors, retryable, is_excluded, is_breaker_open}

pub record Worker : Type 0 where
  pub id : Str
  pub endpoint : Str

-- `Worker{}`
abbrev pub zero_worker : Worker
zero_worker = record { id = []; endpoint = [] }

-- The error that `Do` returns beside nil.
pub data DoError (E : Type 0) : Type 0 where
  no_workers no_healthy_worker : DoError E
  call_error : E → DoError E

-- `metrics` says whether metrics are set.
pub record Failover (F : Type 0) : Type 0 where
  pub budget : Option (RetryBudget F)
  pub breaker : Option (BreakerMap F)
  pub metrics : Bool
  pub max : ℤ

-- What `Do` meets outside: the callback's answer (`none` is nil) and the times that `Allow`, in
-- the first and in the second loop, and `Failure` read, for the worker at each position.
pub record Env (E : Type 0) : Type 0 where
  pub call : ℕ → Worker → Option E
  pub order_now : ℕ → ℕ
  pub allow_now : ℕ → ℕ
  pub failure_now : ℕ → ℕ

-- `calls` has the position and the worker of each call, the latest first, and `failovers` the
-- labels of the metric.
pub record Run (F : Type 0) : Type 0 where
  pub budget : Option (RetryBudget F)
  pub breaker : Option (BreakerMap F)
  pub calls : List (ℕ × Worker)
  pub failovers : List (Str × Str × Str)

-- The end of one round of the second loop.
pub data Turn (F E : Type 0) : Type 0 where
  returns : Worker → Option (DoError E) → Run F → Turn F E
  breaks : Run F → Turn F E
  continues : ℕ → Option E → Run F → Turn F E

pub new_failover :
    {F : Type 0} → Option (RetryBudget F) → Option (BreakerMap F) → Bool → ℤ → Failover F
new_failover budget breaker metrics max_attempts = record {
  budget = budget;
  breaker = breaker;
  metrics = metrics;
  max = if leb_ℤ max_attempts (pos 0) then pos 3 else max_attempts;
}

pub budget_refuses : {F : Type 0} ⦃f : Float F⦄ → Run F → Bool
budget_refuses r = elim r.budget [ none ↦ false | some b ↦ not (may_retry b) ]

on_ok : {F : Type 0} ⦃f : Float F⦄ → Worker → Run F → Run F
on_ok w r = record r {
  budget = Option.map on_success r.budget;
  breaker = Option.map (λ b. success b w.id) r.breaker;
}

-- `statusReason`, of an error that is not nil.
status_reason : {E : Type 0} ⦃errors : Errors E⦄ → E → Str
status_reason e = if is_breaker_open e then bytes "breaker_open" else bytes "unavailable"

pub start : {F : Type 0} → Failover F → Option (BreakerMap F) → Run F
start fo b = record { budget = fo.budget; breaker = b; calls = []; failovers = [] }

module _ {F E : Type 0} where
  -- The test of the first loop for one worker: whether its breaker is open and refuses.
  is_shut : Env E → ℕ → Worker → BreakerMap F → Bool × BreakerMap F
  is_shut env i w b =
      let (s, b') = state_of b w.id in
      if state_eq s open_
      then (let (b'', e) = allow b' w.id (env.order_now i) in (is_some e, b''))
      else (false, b')

  -- The first loop: the workers to try, those whose breaker refuses, and the breakers.
  pub order :
      Env E
      → ℕ
      → List Worker
      → Option (BreakerMap F)
      → List Worker × List Worker × Option (BreakerMap F)
  unfolding is_shut
  order env i ws none = (ws, [], none)
  order env i [] (some b) = ([], [], some b)
  order env i (w ∷ ws) (some b) =
      let (shut, b') = is_shut env i w b in
      let (ordered, open', b'') = order env (suc i) ws (some b') in
      if shut then (ordered, w ∷ open', b'') else (w ∷ ordered, open', b'')

  -- `f.Breaker.Allow(w.ID)`, if there is a breaker.
  ask : Env E → ℕ → Worker → Run F → Bool × Run F
  ask env i w r = elim r.breaker [
    | none ↦ (true, r)
    | some b ↦
        let (b', e) = allow b w.id (env.allow_now i) in
        (not (is_some e), record r { breaker = some b' })
  ]

  breaker_failure : ⦃f : Float F⦄ → Env E → ℕ → Worker → Run F → Run F
  breaker_failure env i w r = record r {
    breaker = Option.map (λ b. failure b w.id (env.failure_now i)) r.breaker;
  }

  -- Both branches of the code take one token; then the metric names the next worker, if any.
  on_retry : ⦃f : Float F⦄ ⦃errors : Errors E⦄ → Bool → Worker → List Worker → E → Run F → Run F
  unfolding status_reason
  on_retry metrics w next e r = record r {
    budget = Option.map on_failure r.budget;
    failovers = elim next [
      | [] ↦ r.failovers
      | v ∷ _ ↦ if metrics then (w.id, v.id, status_reason e) ∷ r.failovers else r.failovers
    ];
  }

  -- What follows the answer of the callback.
  answered :
      ⦃f : Float F⦄ ⦃errors : Errors E⦄
      → Failover F
      → Env E
      → ℕ
      → ℕ
      → Worker
      → List Worker
      → Run F
      → Option E
      → Turn F E
  unfolding on_ok breaker_failure on_retry
  answered fo env i attempts w next r none = returns w none (on_ok w r)
  answered fo env i attempts w next r (some e) =
      if is_excluded e
      then returns w (some (call_error e)) r
      else let r' = breaker_failure env i w r in
        if not (retryable (some e))
        then returns w (some (call_error e)) r'
        else continues attempts (some e) (on_retry fo.metrics w next e r')

  -- One round of the second loop. `many` says whether there is more than one worker to try.
  pub turn :
      ⦃f : Float F⦄ ⦃errors : Errors E⦄
      → Failover F
      → Env E
      → Bool
      → ℕ
      → ℕ
      → Option E
      → Worker
      → List Worker
      → Run F
      → Turn F E
  unfolding budget_refuses ask answered
  turn fo env many i attempts last w next r =
      if leb_ℤ fo.max (pos attempts)
      then breaks r
      else if ltb 0 i && budget_refuses r
      then returns zero_worker (Option.map call_error last) r
      else let (granted, r') = ask env i w r in
        if not granted && many
        then continues attempts last r'
        else answered fo env i (suc attempts) w next (record r' { calls = (i, w) ∷ r'.calls })
            (env.call i w)

  -- `used` is never assigned, so what is returned after the loop is the zero worker.
  pub finish : Option E → Run F → Worker × Option (DoError E) × Run F
  finish last r =
      (zero_worker, some (elim last [ none ↦ no_healthy_worker | some e ↦ call_error e ]), r)

  pub attempt :
      ⦃f : Float F⦄ ⦃errors : Errors E⦄
      → Failover F
      → Env E
      → Bool
      → ℕ
      → ℕ
      → Option E
      → List Worker
      → Run F
      → Worker × Option (DoError E) × Run F
  unfolding finish
  attempt fo env many i attempts last [] r = finish last r
  attempt fo env many i attempts last (w ∷ ws) r = elim (turn fo env many i attempts last w ws r) [
    | returns used e r' ↦ (used, e, r')
    | breaks r' ↦ finish last r'
    | continues attempts' last' r' ↦ attempt fo env many (suc i) attempts' last' ws r'
  ]

  -- The second loop, over the workers whose breaker does not refuse or, if there are none, over
  -- the others.
  try_all :
      ⦃f : Float F⦄ ⦃errors : Errors E⦄
      → Failover F
      → Env E
      → List Worker × List Worker × Option (BreakerMap F)
      → Worker × Option (DoError E) × Run F
  unfolding start
  try_all fo env ([], open', b) = attempt fo env (ltb 1 (length open')) 0 0 none open' (start fo b)
  try_all fo env (w ∷ ws, open', b) =
      attempt fo env (ltb 1 (length (w ∷ ws))) 0 0 none (w ∷ ws) (start fo b)

  -- `Do`, with the run's end state.
  pub do_ :
      ⦃f : Float F⦄ ⦃errors : Errors E⦄
      → Failover F
      → Env E
      → List Worker
      → Worker × Option (DoError E) × Run F
  unfolding try_all
  do_ fo env [] = (zero_worker, some no_workers, start fo fo.breaker)
  do_ fo env (w ∷ ws) = try_all fo env (order env 0 (w ∷ ws) fo.breaker)
