-- ===== src/Routing/Subscriber.antt =====
-- services/routing/subscriber.go, and the subscriber of policy.go: what one message does to the holder. What
-- Redis and JSON give is an argument; the loops run once per message.
use forge_labs.Base.{ℕ, Option, none, some, Str, Dict}
use forge_labs.Routing.Snapshot.{RoutingSnapshot}
use forge_labs.Routing.Policy.{RoutingPolicy}
use forge_labs.Routing.Holder.{store_if_newer}

module _ {F : Type 0} where
  -- One message of `RunSubscriber`, whose payload may be no snapshot.
  unfoldable pub snapshot_message :
      Option (RoutingSnapshot F) → Option (RoutingSnapshot F) → Option (RoutingSnapshot F)
  snapshot_message none held = held
  snapshot_message (some snap) held = (store_if_newer (λ s. s.epoch) held (some snap)).0

-- `wire` of `parsePolicyJSON`.
pub record PolicyWire (F : Type 0) : Type 0 where
  pub version : ℕ  -- uint64
  pub weight_load : F
  pub weight_latency : F
  pub weight_cost : F
  pub weight_affinity : F
  pub models : Dict Str (Dict Str F)

module _ {F : Type 0} where
  -- `parsePolicyJSON`, of bytes that may be no such JSON.
  unfoldable pub parse_policy_json : Option (PolicyWire F) → Option (RoutingPolicy F)
  parse_policy_json none = none
  parse_policy_json (some wire) = some (record {
    version = wire.version;
    weight_load = wire.weight_load;
    weight_latency = wire.weight_latency;
    weight_cost = wire.weight_cost;
    weight_affinity = wire.weight_affinity;
    worker_weights = wire.models;
  })

  -- What `RunPolicySubscriber` does at its start and at a message, with what `Get` answers: `none` for an
  -- error, or the bytes.
  unfoldable pub policy_message :
      Option (Option (PolicyWire F)) → Option (RoutingPolicy F) → Option (RoutingPolicy F)
  unfolding parse_policy_json
  policy_message none held = held
  policy_message (some raw) held = (store_if_newer (λ p. p.version) held (parse_policy_json raw)).0
