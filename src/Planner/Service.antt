-- ===== src/Planner/Service.antt =====
-- services/planner: the stores of objective.go and policy.go, and the `Service` of loop.go. What the
-- database, Redis and JSON answer is an argument; a policy that is read back is the one that was written.
use forge_labs.Base.{
  ℕ, ◌+◌, ◌*◌, ◌%◌, ◌^◌, ◌==◌, Bool, true, false, not, ◌&&◌, Option, none, some, List, ◌∷◌,
  if◌then◌else◌, ltb_ℤ, ℤ, pos, second, seconds, Str, Float,
}
use forge_labs.Routing.Snapshot.{RoutingSnapshot}
use forge_labs.Routing.Policy.{RoutingPolicy as LivePolicy}
use forge_labs.Routing.Subscriber.{PolicyWire}
use forge_labs.Routing.Holder.{store_if_newer}
use forge_labs.Planner.{Objective, RoutingPolicy, plan, to_routing_policy, wire_of}

pub record ObjectiveStore (F : Type 0) : Type 0 where
  pub has_db : Bool
  pub cur : Objective F

-- What the database answers when it is asked for the last objective: one, that there is none, with
-- whether it then takes the default, or an error.
pub data LastObjective (F : Type 0) : Type 0 where
  found : Objective F → LastObjective F
  not_found : Bool → LastObjective F
  query_failed : LastObjective F

-- `has_db` and `has_rdb` say whether a database and Redis are set. The rows and messages are those that
-- were written, the latest first, and `live` is the value of `PolicyKey`.
pub record PolicyStore (F : Type 0) : Type 0 where
  pub has_db : Bool
  pub has_rdb : Bool
  pub decisions : List (RoutingPolicy F)
  pub live : Option (RoutingPolicy F)
  pub messages : List ℕ

-- What `Publish` is answered by JSON, the database and Redis.
pub record Answers : Type 0 where
  pub marshals : Bool
  pub creates : Bool
  pub sets : Bool
  pub publishes : Bool

-- `policy_out` is the holder, if there is one, with the policy that it holds.
pub record Service (F : Type 0) : Type 0 where
  pub objectives : ObjectiveStore F
  pub policies : PolicyStore F
  pub policy_out : Option (Option (LivePolicy F))
  pub version : ℕ  -- uint64
  pub interval : ℤ

-- What a tick meets.
pub record TickEnv (F : Type 0) : Type 0 where
  pub last : LastObjective F
  pub snap : Option (RoutingSnapshot F)
  pub now : ℕ
  pub answers : Answers

module _ {F : Type 0} ⦃f : Float F⦄ where
  -- `DefaultObjective`
  unfoldable pub default_objective : ℕ → Objective F
  default_objective now = record {
    id = 0;
    target_ttft_ms = f.num 800;
    target_tpot_ms = f.num 50;
    max_cost_per_hour = f.num 0;
    weight_load = f.div (f.num 1) (f.num 2);
    weight_latency = f.div (f.num 1) (f.num 5);
    weight_cost = f.div (f.num 1) (f.num 5);
    weight_affinity = f.div (f.num 1) (f.num 10);
    eval_interval_sec = pos 45;
    updated_at = now;
  }

  -- `Reload`, with whether it returns nil. The row that is created has the ID that the database gives.
  unfoldable pub reload : ℕ → ℕ → LastObjective F → ObjectiveStore F → ObjectiveStore F × Bool
  unfolding default_objective
  reload now id last s = if not s.has_db then (s, true) else (elim last [
    | found o ↦ (record s { cur = o }, true)
    | not_found false ↦ (s, false)
    | not_found true ↦ (record s { cur = record (default_objective now) { id = id } }, true)
    | query_failed ↦ (s, false)
  ])

  -- `Upsert`, with whether it returns nil. `existing` is the ID of the last objective, if the query for it
  -- succeeds, `saved` whether the database takes the row, and `id` the ID that a new row gets.
  pub upsert_objective :
      ℕ → ℕ → Option ℕ → Bool → Objective F → ObjectiveStore F → ObjectiveStore F × Bool
  upsert_objective now id existing saved o s =
      let known =
        if o.id == 0 then (elim existing as (λ _. ℕ) [ none ↦ 0 | some e ↦ e ]) else o.id in
      let row = if known == 0 then id else known in
      if not s.has_db
      then (record s { cur = o }, true)
      else if not saved
      then (s, false)
      else (record s { cur = record o { id = row; updated_at = now } }, true)

module _ {F : Type 0} where
  -- What `Publish` does once the row is created.
  unfoldable pub publish_live : RoutingPolicy F → Answers → PolicyStore F → PolicyStore F × Bool
  publish_live p a s =
      let set = record s { live = some p } in
      if not s.has_rdb
      then (s, true)
      else if not a.sets
      then (s, false)
      else if not a.publishes
      then (set, false)
      else (record set { messages = p.version ∷ s.messages }, true)

  -- `Publish`, with whether it returns nil.
  unfoldable pub publish : RoutingPolicy F → Answers → PolicyStore F → PolicyStore F × Bool
  unfolding publish_live
  publish p a s =
      let kept = publish_live p a s in
      let created = publish_live p a (record s { decisions = p ∷ s.decisions }) in
      if not a.marshals
      then (s, false)
      else if not s.has_db
      then kept
      else if not a.creates
      then (s, false)
      else created

  -- `LoadLive`; `reads` says whether Redis answers with what it holds, which can then be read as JSON.
  unfoldable pub load_live : Bool → PolicyStore F → Option (RoutingPolicy F)
  load_live reads s = if s.has_rdb && reads then s.live else none

  -- What the subscriber of the routing package reads from Redis.
  unfoldable pub read_live : PolicyStore F → Option (Option (PolicyWire F))
  unfolding wire_of
  read_live s = elim s.live [ none ↦ none | some p ↦ some (some (wire_of p)) ]

  -- `policyOut.StoreIfNewer`, if there is a holder.
  unfoldable pub offer :
      Option (Option (LivePolicy F)) → LivePolicy F → Option (Option (LivePolicy F))
  offer none p = none
  offer (some cur) p = some (store_if_newer (λ q. q.version) cur (some p)).0

module _ {F : Type 0} ⦃f : Float F⦄ where
  -- `NewService`
  abbrev pub new_service :
      ObjectiveStore F → PolicyStore F → Option (Option (LivePolicy F)) → Service F
  new_service objectives policies policy_out = record {
    objectives = objectives;
    policies = policies;
    policy_out = policy_out;
    version = 0;
    interval = pos (45 * second);
  }

  -- The service once `Start` has asked for the policy in Redis.
  unfoldable pub start_from : Option (RoutingPolicy F) → Service F → Service F
  unfolding offer
  start_from none s = s
  start_from (some live) s = record s {
    version = live.version;
    policy_out = offer s.policy_out (to_routing_policy live);
  }

  -- `Start`, to the loop that it starts.
  unfoldable pub start : Bool → Service F → Service F
  unfolding start_from load_live
  start reads s = start_from (load_live reads s.policies) s

  -- The policy of a tick, with its version. `hash` is `HashObjective`.
  unfoldable pub next_policy :
      (Objective F → Str) → Service F → Objective F → TickEnv F → RoutingPolicy F
  next_policy hash s obj env = record (plan obj env.snap) {
    version = (s.version + 1) % 2 ^ 64;
    generated_at = env.now;
    objective_hash = hash obj;
  }

  -- The end of a tick: what `Publish` left, and whether it returned nil.
  unfoldable pub end_tick : Service F → RoutingPolicy F → PolicyStore F × Bool → Service F × Bool
  unfolding offer
  end_tick s p (policies, false) = (record s { policies = policies }, false)
  end_tick s p (policies, true) = (
    record s { policies = policies; policy_out = offer s.policy_out (to_routing_policy p) },
    true,
  )

  -- The service of a tick before `Publish`, and the policy that it publishes.
  unfoldable pub planned :
      (Objective F → Str) → ℕ → TickEnv F → Service F → Service F × RoutingPolicy F
  unfolding reload next_policy
  planned hash id env s =
      let objectives = (reload env.now id env.last s.objectives).0 in
      let obj = objectives.cur in
      let p = next_policy hash s obj env in
      (
        record s {
          objectives = objectives;
          interval =
              if ltb_ℤ (pos 0) obj.eval_interval_sec
              then seconds obj.eval_interval_sec
              else s.interval;
          version = p.version;
        },
        p,
      )

  -- `tick`, with whether it returns nil. `id` is the ID of an objective that is created.
  unfoldable pub tick : (Objective F → Str) → ℕ → TickEnv F → Service F → Service F × Bool
  unfolding planned publish end_tick
  tick hash id env s =
      let (s', p) = planned hash id env s in end_tick s' p (publish p env.answers s.policies)
