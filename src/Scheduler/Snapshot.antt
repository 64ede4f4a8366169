-- ===== src/Scheduler/Snapshot.antt =====
-- services/scheduler/from_snapshot.go. `byID` with `order` is an association list: its keys stand
-- in the order in which they were added. `load.Get` and `latency.Get` are functions, `none` if the
-- source is nil.
pub mod Health
pub mod Tests
use forge_labs.Base.{
  Bool, true, false, ◌||◌, Option, none, some, List, [], ◌∷◌, ◌++◌, map, if◌then◌else◌, ltb,
  is_empty, ℤ, ◌+ℤ◌, ltb_ℤ, pos, Str, str_eq, Dict, lookup, insert, str_key, Float,
}
use forge_labs.Routing.Snapshot.{WorkerView, RoutingSnapshot, full_name}
use forge_labs.Scheduler.Types.{Candidate}

contains : List Str → Str → Bool
contains [] v = false
contains (s ∷ ss) v = if str_eq s v then true else contains ss v

abbrev or_old : Str → Str → Str
or_old new old = if is_empty new then old else new

-- `load.Get(w.ID)`, or 0.
unfoldable pub extra_load : Option (Str → ℤ) → Str → ℤ
extra_load none id = pos 0
extra_load (some get) id = get id

module _ {F : Type 0} ⦃f : Float F⦄ where
  ewma_of : Option (Str → F) → Str → F
  ewma_of none id = f.num 0
  ewma_of (some get) id = get id

  -- The candidate of the first view of a worker.
  unfoldable pub first_view : Option (Str → ℤ) → Option (Str → F) → WorkerView F → Candidate F
  unfolding ewma_of
  first_view load latency w = record {
    worker_id = w.id;
    endpoint = w.endpoint;
    queue_depth = (w.queue_depth +ℤ w.in_flight) +ℤ extra_load load w.id;
    healthy = w.healthy;
    ready = w.ready;
    ewma_latency_ms = ewma_of latency w.id;
    models = [];
    max_context = w.max_context;
    cost_per_hour = w.cost_per_hour;
    cost_class = w.cost_class;
    runtime = w.runtime;
    vram_gb = w.vram_gb;
    gpu = w.gpu;
    capabilities = w.capabilities;
  }

  -- The candidate after a further view of its worker.
  unfoldable pub merge_view : Option (Str → ℤ) → Candidate F → WorkerView F → Candidate F
  merge_view load c w =
      let depth = (w.queue_depth +ℤ w.in_flight) +ℤ extra_load load w.id in
      record {
        worker_id = c.worker_id;
        endpoint = or_old w.endpoint c.endpoint;
        queue_depth = if ltb_ℤ c.queue_depth depth then depth else c.queue_depth;
        healthy = c.healthy || w.healthy;
        ready = c.ready || w.ready;
        ewma_latency_ms = c.ewma_latency_ms;
        models = c.models;
        max_context = if ltb c.max_context w.max_context then w.max_context else c.max_context;
        cost_per_hour = if f.lt (f.num 0) w.cost_per_hour then w.cost_per_hour else c.cost_per_hour;
        cost_class = or_old w.cost_class c.cost_class;
        runtime = or_old w.runtime c.runtime;
        vram_gb = if f.lt c.vram_gb w.vram_gb then w.vram_gb else c.vram_gb;
        gpu = or_old w.gpu c.gpu;
        capabilities = elim w.capabilities [ [] ↦ c.capabilities | kv ∷ rest ↦ kv ∷ rest ];
      }

  -- The end of the loop's body: the model of the view is added.
  unfoldable pub add_model : Candidate F → WorkerView F → Candidate F
  unfolding contains
  add_model c w =
      let id = full_name w.base_model w.adapter in
      record c {
        models =
            if is_empty w.base_model
            then c.models
            else if contains c.models id
            then c.models
            else c.models ++ id ∷ [];
      }

  unfoldable pub seen_candidate :
      Option (Str → ℤ) → Option (Str → F) → Option (Candidate F) → WorkerView F → Candidate F
  seen_candidate load latency none w = first_view load latency w
  seen_candidate load latency (some c) w = merge_view load c w

  -- The loop over the views.
  unfoldable pub collect :
      Option (Str → ℤ)
      → Option (Str → F)
      → Dict Str (Candidate F)
      → List (WorkerView F)
      → Dict Str (Candidate F)
  collect load latency by_id [] = by_id
  collect load latency by_id (w ∷ ws) =
      collect load latency
        (insert w.id (add_model (seen_candidate load latency (lookup w.id by_id) w) w) by_id) ws

  unfoldable pub candidates_from_snapshot :
      Option (RoutingSnapshot F) → Option (Str → ℤ) → Option (Str → F) → List (Candidate F)
  candidates_from_snapshot none load latency = []
  candidates_from_snapshot (some snap) load latency =
      map (λ e. e.1) (collect load latency [] snap.workers)
