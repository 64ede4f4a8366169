-- ===== src/Gateway/Select.antt =====
-- services/gateway/snapshot_select.go and the statuses of errors.go. The holders are what they hold;
-- a load is the counter of a worker, and a latency what the store answers. Metrics are left out.
mod Chosen
mod Tests
use forge_labs.Base.{
  ℕ, Bool, true, false, Option, none, some, List, [], ◌∷◌, map, keep_if, take, if◌then◌else◌,
  is_empty, is_nil, is_member, ℤ, pos, pos_part, leb_ℤ, Str, bytes, Float, Dict,
}
use forge_labs.Routing.Snapshot.{WorkerView, RoutingSnapshot, full_name}
use forge_labs.Routing.Inflight.{get}
use forge_labs.Catalog.{CatalogSnapshot, Model, resolve, is_empty_catalog, identities}
use forge_labs.Scheduler.Types.{Candidate, Request, Filter, WeightedScorer}
use forge_labs.Scheduler.Snapshot.{candidates_from_snapshot}
use forge_labs.Scheduler.Chain.{
  Result, ok, err, RankError, no_capacity, admission_rejected, PickResult, rank,
}
use forge_labs.Gateway.Translate.{parse_model_id}
use forge_labs.Gateway.Admission.{SelectedWorker}

pub data SelectError : Type 0 where
  no_snapshot model_not_found no_live_assignee : SelectError
  rank_error : RankError → SelectError

pub data Selected {ℓ} (A : Type ℓ) : Type ℓ where
  chosen : A → Selected A
  failed : SelectError → Selected A

pub record SnapshotSelector (F : Type 0) : Type 0 where
  pub snapshot : Option (RoutingSnapshot F)
  pub catalog : Option CatalogSnapshot
  pub inflight : Option (Dict Str ℤ)
  pub latency : Option (Str → F)
  pub filters : List (Filter F)
  pub scorers : List (WeightedScorer F)

-- What `resolveModel` finds: the base, the adapter, and the workers that are allowed, `none` if all
-- are.
pub record Resolved : Type 0 where
  pub base : Str
  pub adapter : Str
  pub allowed : Option (List Str)

-- `load.Get`
abbrev pub load_source : Option (Dict Str ℤ) → Option (Str → ℤ)
load_source none = none
load_source (some m) = some (get m)

-- `resolveModel`, of the catalog's snapshot.
unfoldable pub resolve_model : Option CatalogSnapshot → Str → Selected Resolved
resolve_model none model =
    let (base, adapter) = parse_model_id model in
    chosen (record { base = base; adapter = adapter; allowed = none })
resolve_model (some cat) model =
    let (base, adapter) = parse_model_id model in
    if is_nil cat.by_name
    then chosen (record { base = base; adapter = adapter; allowed = none })
    else elim (resolve cat model) [
      | none ↦ failed model_not_found
      | some (m, workers) ↦
          chosen (record { base = m.base_model; adapter = m.adapter; allowed = some workers })
    ]

abbrev pub request_for : Resolved → Str → Request
request_for r prompt = record {
  base_model = r.base;
  adapter = r.adapter;
  prompt = prompt;
  affinity_key = [];
  preferred_worker = [];
  min_context = 0;
}

-- The number of workers that are asked for.
abbrev pub limit_or_default : ℤ → ℕ
limit_or_default limit = if leb_ℤ limit (pos 0) then 3 else pos_part limit

module _ {F : Type 0} where
  -- `filterByWorkerIDs`
  abbrev pub filter_by_worker_ids : List (Candidate F) → List Str → List (Candidate F)
  filter_by_worker_ids cs allowed = keep_if (λ c. is_member allowed c.worker_id) cs

  abbrev pub selected : Str → PickResult F → SelectedWorker
  selected model p = record { id = p.worker_id; endpoint = p.endpoint; models = model ∷ [] }

module _ {F : Type 0} ⦃f : Float F⦄ where
  -- From the call of `Rank` on.
  unfoldable pub select_ranked :
      SnapshotSelector F → Str → ℕ → Request → List (Candidate F) → Selected (List SelectedWorker)
  select_ranked s model limit req cs = elim (rank s.filters s.scorers (some req) cs) [
    | err e ↦ failed (rank_error e)
    | ok ranked ↦ chosen (map (selected model) (take limit ranked))
  ]

  -- The candidates that are allowed, or the early return.
  unfoldable pub select_allowed :
      SnapshotSelector F
      → Str
      → ℕ
      → Request
      → List (Candidate F)
      → Option (List Str)
      → Selected (List SelectedWorker)
  unfolding select_ranked
  select_allowed s model limit req cs none = select_ranked s model limit req cs
  select_allowed s model limit req cs (some allowed) =
      let left = filter_by_worker_ids cs allowed in
      if is_nil left then failed no_live_assignee else select_ranked s model limit req left

  -- What follows `resolveModel`.
  unfoldable pub select_resolved :
      SnapshotSelector F
      → RoutingSnapshot F
      → Str
      → Str
      → ℤ
      → Selected Resolved
      → Selected (List SelectedWorker)
  unfolding select_allowed
  select_resolved s snap model prompt limit (failed e) = failed e
  select_resolved s snap model prompt limit (chosen r) =
      select_allowed s model (limit_or_default limit) (request_for r prompt)
        (candidates_from_snapshot (some snap) (load_source s.inflight) s.latency) r.allowed

  -- `SelectWorkers`
  unfoldable pub select_workers :
      SnapshotSelector F → Str → Str → ℤ → Selected (List SelectedWorker)
  unfolding select_resolved
  select_workers s model prompt limit = elim s.snapshot [
    | none ↦ failed no_snapshot
    | some snap ↦ select_resolved s snap model prompt limit (resolve_model s.catalog model)
  ]

-- The loop of `ListModels` over the views, with the names that are listed.
names_of_views : {F : Type 0} → List Str → List (WorkerView F) → List Str
names_of_views seen [] = []
names_of_views seen (w ∷ ws) =
    let id = full_name w.base_model w.adapter in
    let known = is_empty w.base_model in
    let skip = names_of_views seen ws in
    let take_it = names_of_views (id ∷ seen) ws in
    if known then skip else if is_member seen id then skip else id ∷ take_it

-- `ListModels`, as the names in the list.
pub list_models : {F : Type 0} → SnapshotSelector F → List Str
list_models s =
    if is_empty_catalog s.catalog
    then (elim s.snapshot [ none ↦ [] | some snap ↦ names_of_views [] snap.workers ])
    else (elim s.catalog [ none ↦ [] | some cat ↦ map (λ m. m.name) (identities cat.by_name) ])

-- `selectErrorStatus`: the status of HTTP, the type and the code of the error.
unfoldable pub select_error_status : SelectError → ℕ × Str × Str
select_error_status no_snapshot = (503, bytes "server_error", bytes "no_snapshot")
select_error_status model_not_found = (404, bytes "invalid_request_error", bytes "model_not_found")
select_error_status no_live_assignee = (503, bytes "server_error", bytes "no_capacity")
select_error_status (rank_error admission_rejected) =
    (429, bytes "capacity_exceeded", bytes "fleet_saturated")
select_error_status (rank_error no_capacity) = (503, bytes "server_error", bytes "no_capacity")
