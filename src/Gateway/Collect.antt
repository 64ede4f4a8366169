-- ===== src/Gateway/Collect.antt =====
-- services/gateway/dispatch.go, `withFailover` and `collectWithFailover`, on `Do` of
-- `forge_labs.Reliability.Failover`. What opening a stream answers is a parameter.
mod Answered
mod Tests
use forge_labs.Base.{
  ℕ, zero, Bool, Option, none, some, List, [], ◌∷◌, map, Str, Dict, str_key, lookup, insert, Float,
}
use mathlib.Core.Option
use forge_labs.Reliability.Classify.{Errors}
use forge_labs.Reliability.Failover.{
  Worker, DoError, no_workers, call_error, Failover, Run, Env as DoEnv, do_,
}
use forge_labs.Gateway.Admission.{SelectedWorker}
use forge_labs.Gateway.Stream.{Usage, Collected, collect_error, collected, collect}
use forge_labs.Gateway.Dispatch.{Opened, not_opened, opened}

-- The times that the breakers read in `Do`, at each position.
pub record Times : Type 0 where
  pub order_now : ℕ → ℕ
  pub allow_now : ℕ → ℕ
  pub failure_now : ℕ → ℕ

-- What `collectWithFailover` returns, with the failover as the run leaves it.
pub record Collection (F E : Type 0) : Type 0 where
  pub text : Str
  pub usage : Option Usage
  pub finish : Str
  pub used : Option SelectedWorker
  pub error : Option (DoError E)
  pub failover : Option (Failover F)

-- `byID`
pub by_id : List SelectedWorker → Dict Str SelectedWorker → Dict Str SelectedWorker
by_id [] d = d
by_id (w ∷ ws) d = by_id ws (insert w.id w d)

-- `byID[id]`, which is the zero value for an ID that is not there.
pub worker_of : Dict Str SelectedWorker → Str → SelectedWorker
worker_of d id = elim (lookup id d) [
  | none ↦ record { id = []; endpoint = []; models = [] }
  | some w ↦ w
]

abbrev pub candidate_of : SelectedWorker → Worker
candidate_of w = record { id = w.id; endpoint = w.endpoint }

module _ {E : Type 0} where
  -- `collect`, of a worker.
  unfoldable pub collect_worker : Opened E → Collected E
  collect_worker (not_opened e) = collect_error e
  collect_worker (opened cs ending) = collect cs ending

  abbrev pub error_of : Collected E → Option E
  error_of (collect_error e) = some e
  error_of (collected _ _ _) = none

  -- The environment of `Do`, whose callback collects from the worker of that ID.
  abbrev pub calls_of : Times → (ℕ → SelectedWorker → Opened E) → Dict Str SelectedWorker → DoEnv E
  calls_of times open_at d = record {
    call = λ i w. error_of (collect_worker (open_at i (worker_of d w.id)));
    order_now = times.order_now;
    allow_now = times.allow_now;
    failure_now = times.failure_now;
  }

module _ {F E : Type 0} where
  -- Nothing was collected.
  abbrev empty_collection :
      Option SelectedWorker → Option (DoError E) → Option (Failover F) → Collection F E
  empty_collection used error failover = record {
    text = [];
    usage = none;
    finish = [];
    used = used;
    error = error;
    failover = failover;
  }

  -- The variables that the callback has set, if its call was the last one and succeeded.
  abbrev pub collection_of :
      Option SelectedWorker
      → Option (DoError E)
      → Option (Failover F)
      → Collected E
      → Collection F E
  collection_of used error failover (collect_error _) = empty_collection used error failover
  collection_of used error failover (collected text usage finish) = record {
    text = text;
    usage = usage;
    finish = finish;
    used = used;
    error = error;
    failover = failover;
  }

  -- What `Do` returned, as what `withFailover` returns.
  unfoldable pub after_do :
      (ℕ → SelectedWorker → Opened E)
      → Dict Str SelectedWorker
      → Failover F
      → Worker × Option (DoError E) × Run F
      → Collection F E
  after_do open_at d fo (used, some e, r) =
      empty_collection none (some e) (some (record fo { budget = r.budget; breaker = r.breaker }))
  after_do open_at d fo (used, none, r) =
      let fo' = some (record fo { budget = r.budget; breaker = r.breaker }) in
      let w = some (worker_of d used.id) in
      elim r.calls [
        | [] ↦ empty_collection w none fo'
        | (i, v) ∷ _ ↦ collection_of w none fo' (collect_worker (open_at i (worker_of d v.id)))
      ]

  -- `collectWithFailover`
  unfoldable pub collect_with_failover :
      ⦃f : Float F⦄ ⦃errors : Errors E⦄
      → Option (Failover F)
      → Times
      → (ℕ → SelectedWorker → Opened E)
      → List SelectedWorker
      → Collection F E
  unfolding after_do
  collect_with_failover fo times open_at [] = empty_collection none (some no_workers) fo
  collect_with_failover none times open_at (w ∷ ws) =
      let answer = collect_worker (open_at 0 w) in
      collection_of (some w) (Option.map call_error (error_of answer)) none answer
  collect_with_failover (some fo) times open_at (w ∷ ws) =
      let d = by_id (w ∷ ws) [] in
      after_do open_at d fo (do_ fo (calls_of times open_at d) (map candidate_of (w ∷ ws)))
