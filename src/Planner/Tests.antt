-- ===== src/Planner/Tests.antt =====
-- The two workers of loop_test.go, and the theorems on them.
use forge_labs.Base.{
  ◌≡◌, refl, arith, true, false, none, some, [], ◌∷◌, ℤ, pos, Str, bytes, insert, str_eq, ◌+ℤ◌,
  ◌*ℤ◌, ◌-ℤ◌,
}
use forge_labs.Fixed.{fixed, fixed-IsOrdered, fixed-IsMonotone, fixed-IsGraded}
use forge_labs.Routing.Snapshot.{WorkerView, RoutingSnapshot}
use forge_labs.Scheduler.Snapshot.Tests.{view}
use forge_labs.Routing.Holder.{store_if_newer}
use forge_labs.Planner.{
  to_routing_policy, Objective, score_workers, shares_of, raw_from, max_cost_from, worker_score,
  plan,
}
use forge_labs.Planner.Bounds.{IsWeighted, plan-IsWeighted}
use forge_labs.Planner.Service.{
  PolicyStore, Service, query_failed, TickEnv, new_service, start, start_from, load_live, offer,
  planned, tick,
}
use forge_labs.Planner.Versions.{started, Taken, tick-Taken}

abbrev objective : Objective ℤ
objective = record {
  id = 1;
  target_ttft_ms = pos 800_000;
  target_tpot_ms = pos 50_000;
  max_cost_per_hour = pos 0;
  weight_load = pos 200;
  weight_latency = pos 0;
  weight_cost = pos 800;
  weight_affinity = pos 100;
  eval_interval_sec = pos 45;
  updated_at = 0;
}

abbrev mac : WorkerView ℤ
mac = record (view (bytes "mac") (bytes "m") true) { queue_depth = pos 2 }

abbrev pod : WorkerView ℤ
pod = record (view (bytes "pod") (bytes "m") true) { cost_per_hour = pos 2000 }

abbrev snapshot : RoutingSnapshot ℤ
snapshot = record { built_at = 0; epoch = 1; workers = mac ∷ pod ∷ [] }

-- A worker with two views of one base model gets half of the weight, although it is alone.
two_views :
    score_workers objective (mac ∷ record mac { adapter = bytes "x" } ∷ [])
    ≡ (bytes "mac", pos 500) ∷ []
unfolding score_workers shares_of raw_from max_cost_from worker_score insert str_eq ◌+ℤ◌ ◌*ℤ◌ ◌-ℤ◌
two_views = refl

plan-IsWeighted_example : IsWeighted (plan objective (some snapshot))
plan-IsWeighted_example =
    plan-IsWeighted fixed-IsOrdered fixed-IsMonotone fixed-IsGraded objective (some snapshot)

abbrev policies : PolicyStore ℤ
policies = record {
  has_db = false;
  has_rdb = true;
  decisions = [];
  live = some (record (plan objective none) { version = 6 });
  messages = [];
}

abbrev service : Service ℤ
service = start true (new_service (record { has_db = false; cur = objective }) policies (some none))

abbrev env : TickEnv ℤ
env = record {
  last = query_failed;
  snap = some snapshot;
  now = 3;
  answers = record { marshals = true; creates = true; sets = true; publishes = true };
}

abbrev no_hash : Objective ℤ → Str
no_hash _ = []

tick-Taken_example :
    Taken none service (tick no_hash 0 env service).0 (planned no_hash 0 env service).1
unfolding start start_from load_live offer store_if_newer to_routing_policy tick
tick-Taken_example =
    tick-Taken no_hash 0 env service none
      (some (to_routing_policy (record (plan objective none) { version = 6 })))
      (started (record { has_db = false; cur = objective }) policies true) (omega arith) refl
      (omega arith) refl refl
