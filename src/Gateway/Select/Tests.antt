-- ===== src/Gateway/Select/Tests.antt =====
-- A model of the catalog whose worker is one of two that are idle, and the theorem on them.
use forge_labs.Base.{true, none, some, List, [], ◌∷◌, ℤ, pos, bytes, str_key}
use forge_labs.Fixed.{fixed}
use forge_labs.Routing.Snapshot.{RoutingSnapshot}
use forge_labs.Scheduler.Types.{Candidate}
use forge_labs.Scheduler.Snapshot.Tests.{view}
use forge_labs.Scheduler.Filters.Tests.{candidate}
use forge_labs.Scheduler.Filters.{configured_filters}
use forge_labs.Scheduler.Chain.Tests.{by_load}
use forge_labs.Catalog.{CatalogSnapshot, built}
use forge_labs.Gateway.Select.{SnapshotSelector, Resolved}

abbrev snapshot : RoutingSnapshot ℤ
snapshot = record {
  epoch = 1;
  built_at = 0;
  workers = view (bytes "a") (bytes "m") true ∷ view (bytes "b") (bytes "m") true ∷ [];
}

abbrev catalog : CatalogSnapshot
catalog =
    built
      (record { id = bytes "1"; name = bytes "alias"; base_model = bytes "m"; adapter = [] } ∷ [])
      (record { id = bytes "x"; model_id = bytes "1"; worker_id = bytes "b" } ∷ []) 7

abbrev selector : SnapshotSelector ℤ
selector = record {
  snapshot = some snapshot;
  catalog = some catalog;
  inflight = none;
  latency = none;
  filters = configured_filters (pos 4);
  scorers = by_load ∷ [];
}

abbrev found : Resolved
found = record { base = bytes "m"; adapter = []; allowed = some (bytes "b" ∷ []) }

abbrev idle : List (Candidate ℤ)
idle = candidate (bytes "b") 0 true ∷ []
