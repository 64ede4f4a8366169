-- ===== src/Routing/Policy.antt =====
-- services/routing/policy.go: the `RoutingPolicy`. Its holder is `forge_labs.Routing.Holder`, and its
-- subscriber is `forge_labs.Routing.Subscriber`.
use forge_labs.Base.{ℕ, Str, Dict}

pub record RoutingPolicy (F : Type 0) : Type 0 where
  pub version : ℕ  -- uint64
  pub weight_load : F
  pub weight_latency : F
  pub weight_cost : F
  pub weight_affinity : F
  pub worker_weights : Dict Str (Dict Str F)
