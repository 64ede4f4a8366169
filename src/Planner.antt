-- ===== src/Planner.antt =====
-- services/planner/loop.go with models.go: how the planner weighs the workers of the snapshot. The text of
-- the reason and the score that is recorded beside the policy are left out.
pub mod Service
mod Bounds
mod Published
mod Versions
mod Tests
use forge_labs.Base.{
  ℕ, Bool, true, false, not, ◌&&◌, ◌||◌, Option, none, some, List, [], ◌∷◌, ◌++◌, if◌then◌else◌,
  length, is_nil, is_empty, ℤ, pos, ◌+ℤ◌, Str, bytes, Dict, lookup, insert, map_values, str_key,
  Float, of_ℤ,
}
use forge_labs.Routing.Snapshot.{WorkerView, RoutingSnapshot}
use forge_labs.Routing.Subscriber.{PolicyWire}
use forge_labs.Routing.Policy.{RoutingPolicy as LivePolicy}

pub record Objective (F : Type 0) : Type 0 where
  pub id : ℕ
  pub target_ttft_ms : F
  pub target_tpot_ms : F
  pub max_cost_per_hour : F
  pub weight_load : F
  pub weight_latency : F
  pub weight_cost : F
  pub weight_affinity : F
  pub eval_interval_sec : ℤ
  pub updated_at : ℕ

pub record ModelPolicy (F : Type 0) : Type 0 where
  pub weights : Dict Str F
  pub affinity : Str
  pub concurrency_target : ℤ
  pub max_queue_depth : ℤ

pub record RoutingPolicy (F : Type 0) : Type 0 where
  pub version : ℕ  -- uint64
  pub generated_at : ℕ
  pub objective_hash : Str
  pub weight_load : F
  pub weight_latency : F
  pub weight_cost : F
  pub weight_affinity : F
  pub models : Dict Str (ModelPolicy F)

module _ {F : Type 0} ⦃f : Float F⦄ where
  -- `clamp01`
  unfoldable pub clamp01 : F → F
  clamp01 v =
      let low = if f.lt v (f.num 1) then v else f.num 1 in
      if f.lt (f.num 0) low then low else f.num 0

  -- `maxCost`, over the workers that are left.
  unfoldable pub max_cost_from : F → List (WorkerView F) → F
  max_cost_from most [] = most
  max_cost_from most (w ∷ ws) =
      max_cost_from (if f.lt most w.cost_per_hour then w.cost_per_hour else most) ws

  -- `sc`
  unfoldable pub worker_score : Objective F → F → WorkerView F → F
  worker_score obj max_cost w =
      let load = of_ℤ (w.queue_depth +ℤ w.in_flight) in
      let load_score = f.div (f.num 1) (f.add (f.num 1) load) in
      let cost_score =
        if f.lt (f.num 0) max_cost
        then f.sub (f.num 1) (f.div w.cost_per_hour max_cost)
        else f.num 1 in
      let sc =
        f.add (f.add (f.mul obj.weight_load load_score) (f.mul obj.weight_cost cost_score))
          (f.mul obj.weight_latency (f.num 1)) in
      let least = f.div (f.num 1) (f.num 100) in if f.lt sc least then least else sc

  -- The loop that fills `raw` and adds up `sum`.
  unfoldable pub raw_from : Objective F → F → Dict Str F → F → List (WorkerView F) → Dict Str F × F
  unfolding worker_score
  raw_from obj max_cost raw sum [] = (raw, sum)
  raw_from obj max_cost raw sum (w ∷ ws) =
      let sc = worker_score obj max_cost w in
      raw_from obj max_cost (insert w.id sc raw) (f.add sum sc) ws

  -- The loop that gives every worker the same weight.
  unfoldable pub equal_from : F → Dict Str F → List (WorkerView F) → Dict Str F
  equal_from eq out [] = out
  equal_from eq out (w ∷ ws) = equal_from eq (insert w.id eq out) ws

  -- The weights, from the scores and their sum.
  unfoldable pub shares_of : List (WorkerView F) → Dict Str F × F → Dict Str F
  unfolding equal_from
  shares_of ws (raw, sum) =
      if f.lt (f.num 0) sum
      then map_values (λ sc. f.div sc sum) raw
      else equal_from (f.div (f.num 1) (f.num (length ws))) [] ws

  -- `scoreWorkers`
  unfoldable pub score_workers : Objective F → List (WorkerView F) → Dict Str F
  unfolding shares_of raw_from max_cost_from
  score_workers obj ws = shares_of ws (raw_from obj (max_cost_from (f.num 0) ws) [] (f.num 0) ws)

  -- Whether the planner weighs a view.
  unfoldable pub is_weighed : Objective F → WorkerView F → Bool
  is_weighed obj w =
      if not w.healthy || not w.ready || is_empty w.base_model
      then false
      else if f.lt (f.num 0) obj.max_cost_per_hour && f.lt obj.max_cost_per_hour w.cost_per_hour
      then false
      else true

  -- `byModel[model]`
  abbrev views_in : Dict Str (List (WorkerView F)) → Str → List (WorkerView F)
  views_in d model = elim (lookup model d) [ none ↦ [] | some vs ↦ vs ]

  -- `byModel`
  unfoldable pub by_model_from :
      Objective F
      → Dict Str (List (WorkerView F))
      → List (WorkerView F)
      → Dict Str (List (WorkerView F))
  unfolding is_weighed
  by_model_from obj d [] = d
  by_model_from obj d (w ∷ ws) =
      by_model_from obj
        (if is_weighed obj w then insert w.base_model (views_in d w.base_model ++ w ∷ []) d else d)
        ws

  unfoldable pub model_policy : Objective F → List (WorkerView F) → ModelPolicy F
  unfolding score_workers
  model_policy obj ws = record {
    weights = score_workers obj ws;
    affinity = bytes "prefix_hash";
    concurrency_target = pos 4;
    max_queue_depth = pos 16;
  }

  -- The weights of the objective, or those that stand for weights that add up to 0.
  unfoldable pub weights_only : Objective F → RoutingPolicy F
  unfolding clamp01
  weights_only obj =
      let l = clamp01 obj.weight_load in
      let t = clamp01 obj.weight_latency in
      let c = clamp01 obj.weight_cost in
      let a = clamp01 obj.weight_affinity in
      let sum = f.add (f.add (f.add l t) c) a in
      let is_zero = not (f.lt sum (f.num 0)) && not (f.lt (f.num 0) sum) in
      record {
        version = 0;
        generated_at = 0;
        objective_hash = [];
        weight_load = if is_zero then f.div (f.num 1) (f.num 2) else l;
        weight_latency = if is_zero then f.div (f.num 1) (f.num 5) else t;
        weight_cost = if is_zero then f.div (f.num 1) (f.num 5) else c;
        weight_affinity = if is_zero then f.div (f.num 1) (f.num 10) else a;
        models = [];
      }

  unfoldable pub plan_models : Objective F → List (WorkerView F) → Dict Str (ModelPolicy F)
  unfolding by_model_from model_policy
  plan_models obj ws = map_values (model_policy obj) (by_model_from obj [] ws)

  -- `plan`, for a snapshot that may be nil.
  unfoldable pub plan : Objective F → Option (RoutingSnapshot F) → RoutingPolicy F
  unfolding weights_only plan_models
  plan obj none = weights_only obj
  plan obj (some snap) =
      if is_nil snap.workers
      then weights_only obj
      else record (weights_only obj) { models = plan_models obj snap.workers }

  -- `toRoutingPolicy`, of a policy that is not nil.
  unfoldable pub to_routing_policy : RoutingPolicy F → LivePolicy F
  to_routing_policy p = record {
    version = p.version;
    weight_load = p.weight_load;
    weight_latency = p.weight_latency;
    weight_cost = p.weight_cost;
    weight_affinity = p.weight_affinity;
    worker_weights = map_values (λ mp. mp.weights) p.models;
  }

-- The JSON of a policy, as the routing package reads it.
unfoldable pub wire_of : {F : Type 0} → RoutingPolicy F → PolicyWire F
wire_of p = record {
  version = p.version;
  weight_load = p.weight_load;
  weight_latency = p.weight_latency;
  weight_cost = p.weight_cost;
  weight_affinity = p.weight_affinity;
  models = map_values (λ mp. mp.weights) p.models;
}
