-- ===== src/Routing/Publisher/Tests.antt =====
-- Two workers, of which one has a heartbeat, and the theorems on them.
use forge_labs.Base.{
  ◌≡◌, refl, arith, Bool, true, false, ◌&&◌, ◌||◌, Option, none, some, List, [], ◌∷◌, ℤ, pos, Str,
  bytes, str_eq, Dict, lookup, str_key,
}
use forge_labs.Fixed.{fixed}
use forge_labs.Health.{Heartbeat}
use forge_labs.Routing.Snapshot.{RoutingSnapshot}
use forge_labs.Routing.Capabilities.{
  Packages, capabilities_of, parse_uint32, digits_from, cost_class_of,
}
use forge_labs.Routing.Publisher.{
  Worker, Round, new_publisher, is_live, is_ready, tick, ticks, publish_built, build_snapshot,
}
use forge_labs.Routing.Publisher.Composed.{is_listed, tick-candidates}
use forge_labs.Routing.Publisher.Newest.{last_published, subscribed, ticks-holder}
use forge_labs.Scheduler.Snapshot.{collect}
use forge_labs.Scheduler.Snapshot.Health.{any, has}

abbrev go : Packages ℤ
go = record {
  unmarshal = λ _. none;
  parse_float = λ _. some (pos 1190);
  to_lower = λ s. s;
  to_upper = λ s. s;
}

abbrev row : Str → Worker
row id = record {
  id = id;
  endpoint = bytes "http://w";
  runtime_kind = bytes "VLLM";
  capabilities = [];
  models = record { base_model = bytes "m"; adapter = []; max_context = 0 } ∷ [];
}

abbrev workers : List Worker
workers = row (bytes "a") ∷ row (bytes "b") ∷ []

abbrev held : Dict Str (Heartbeat ℤ)
held =
    (
      bytes "b",
      record {
        id = bytes "b";
        base_model = bytes "m";
        adapter = none;
        runtime = bytes "vllm";
        addr = [];
        ready = true;
        inflight = pos 1;
        queue_depth = pos 2;
        kv_cache_usage = pos 0;
        gpu_cache_usage = pos 0;
        ts = pos 0;
      },
    )
    ∷ []

abbrev round : Bool → Round ℤ
round published = record {
  listed = some workers;
  held = some held;
  virtual_views = [];
  now = 7;
  marshals = true;
  published = published;
}

-- The pairs of the first test of capabilities_test.go.
abbrev pairs : Dict Str Str
pairs =
    (bytes "runtime", bytes "vllm")
    ∷ (bytes "cost_per_hour", bytes "1.19")
    ∷ (bytes "max_model_len", bytes "131072")
    ∷ []

reads_pairs :
    ((capabilities_of go [] pairs).max_context ≡ 131072)
    × (((capabilities_of go [] pairs).cost).class ≡ bytes "paid")
unfolding capabilities_of parse_uint32 digits_from cost_class_of str_eq lookup
reads_pairs = (refl, refl)

abbrev sent_snapshot : Option (RoutingSnapshot ℤ) → RoutingSnapshot ℤ
sent_snapshot none = record { built_at = 0; epoch = 0; workers = [] }
sent_snapshot (some s) = s

was_sent :
    (tick go new_publisher (round true)).1
    ≡ some (sent_snapshot (tick go new_publisher (round true)).1)
unfolding tick publish_built build_snapshot
was_sent = refl

tick-candidates_example :
    (has
        (λ _. true)
        (lookup
          (bytes "b")
          (collect none none [] (sent_snapshot (tick go new_publisher (round true)).1).workers))
      ≡ ((is_listed (bytes "b") workers && true)
          || any (λ v. str_eq v.id (bytes "b") && true) (round true).virtual_views))
    × (has
          (λ c. c.healthy)
          (lookup
            (bytes "b")
            (collect none none [] (sent_snapshot (tick go new_publisher (round true)).1).workers))
        ≡ ((is_listed (bytes "b") workers && is_live (lookup (bytes "b") held))
            || any (λ v. str_eq v.id (bytes "b") && v.healthy) (round true).virtual_views))
    × (has
          (λ c. c.ready)
          (lookup
            (bytes "b")
            (collect none none [] (sent_snapshot (tick go new_publisher (round true)).1).workers))
        ≡ ((is_listed (bytes "b") workers && is_ready (lookup (bytes "b") held))
            || any (λ v. str_eq v.id (bytes "b") && v.ready) (round true).virtual_views))
unfolding lookup
tick-candidates_example =
    tick-candidates go none none new_publisher (round true)
      (sent_snapshot (tick go new_publisher (round true)).1) workers held (bytes "b") refl refl
      (refl, tt) (refl, tt) was_sent

ticks-holder_example :
    ((ticks go new_publisher (round true ∷ round false ∷ [])).holder
      ≡ last_published go 0 none (round true ∷ round false ∷ []))
    × (subscribed go new_publisher (round true ∷ round false ∷ []) none
        ≡ last_published go 0 none (round true ∷ round false ∷ []))
ticks-holder_example = ticks-holder go (round true ∷ round false ∷ []) (omega arith)
