-- ===== src/Routing/Publisher.antt =====
-- services/routing/publisher.go: the snapshot that is built from the workers of the registry and their
-- heartbeats, and one tick. What the registry, JSON and Redis answer is an argument.
mod Beats
mod Composed
mod Newest
mod Tests
use forge_labs.Base.{
  ℕ, ◌+◌, ◌%◌, ◌^◌, Bool, true, false, not, Option, none, some, List, [], ◌∷◌, ◌++◌, if◌then◌else◌,
  ◌==◌, is_empty, ℤ, pos, Str, Dict, lookup, insert, str_key, Float,
}
use forge_labs.Health.{Heartbeat, all_beats}
use forge_labs.Routing.Snapshot.{WorkerView, RoutingSnapshot}
use forge_labs.Routing.Capabilities.{Packages, CapabilityView, parse_capabilities}
use forge_labs.Routing.Holder.{store_if_newer}

-- services/registry/models/worker.go
pub record ServableModel : Type 0 where
  pub base_model : Str
  pub adapter : Str
  pub max_context : ℕ  -- uint32

pub record Worker : Type 0 where
  pub id : Str
  pub endpoint : Str
  pub runtime_kind : Str
  pub capabilities : Str
  pub models : List ServableModel

-- What one tick meets: the workers that the registry lists, `none` for an error; the heartbeats, `none`
-- without a health service; the views of the virtual source; the time; whether the snapshot can be
-- written as JSON, and whether Redis takes it.
pub record Round (F : Type 0) : Type 0 where
  pub listed : Option (List Worker)
  pub held : Option (Dict Str (Heartbeat F))
  pub virtual_views : List (WorkerView F)
  pub now : ℕ
  pub marshals : Bool
  pub published : Bool

pub record Publisher (F : Type 0) : Type 0 where
  pub epoch : ℕ  -- uint64
  pub holder : Option (RoutingSnapshot F)

abbrev pub new_publisher : {F : Type 0} → Publisher F
new_publisher = record { epoch = 0; holder = none }

module _ {F : Type 0} where
  -- `hbByID`
  unfoldable pub add_beats : Dict Str (Heartbeat F) → List (Heartbeat F) → Dict Str (Heartbeat F)
  add_beats d [] = d
  add_beats d (hb ∷ hbs) = add_beats (insert hb.id hb d) hbs

  unfoldable pub beats_by_id : Option (Dict Str (Heartbeat F)) → Dict Str (Heartbeat F)
  unfolding add_beats
  beats_by_id none = []
  beats_by_id (some held) = add_beats [] (all_beats held)

  -- Whether the worker has a heartbeat, and what it says.
  abbrev pub is_live : Option (Heartbeat F) → Bool
  is_live none = false
  is_live (some _) = true

  abbrev pub is_ready : Option (Heartbeat F) → Bool
  is_ready none = false
  is_ready (some hb) = hb.ready

  abbrev queue_of : Option (Heartbeat F) → ℤ
  queue_of none = pos 0
  queue_of (some hb) = hb.queue_depth

  abbrev inflight_of : Option (Heartbeat F) → ℤ
  inflight_of none = pos 0
  inflight_of (some hb) = hb.inflight

  abbrev endpoint_of : Worker → Option (Heartbeat F) → Str
  endpoint_of w none = w.endpoint
  endpoint_of w (some hb) = if is_empty hb.addr then w.endpoint else hb.addr

  -- One view of a worker: of a model, or of none.
  unfoldable pub view_of :
      Worker → Option (Heartbeat F) → CapabilityView F → Str → Str → ℕ → WorkerView F
  view_of w hb caps base adapter max_context = record {
    id = w.id;
    endpoint = endpoint_of w hb;
    base_model = base;
    adapter = adapter;
    healthy = is_live hb;
    ready = is_ready hb;
    queue_depth = queue_of hb;
    in_flight = inflight_of hb;
    max_context = max_context;
    cost_per_hour = (caps.cost).per_hour_usd;
    cost_class = (caps.cost).class;
    runtime = caps.runtime;
    vram_gb = caps.vram_gb;
    gpu = caps.gpu;
    capabilities = caps.raw;
  }

  -- The loop over the models of a worker.
  unfoldable pub views_of_models :
      Worker → Option (Heartbeat F) → CapabilityView F → List ServableModel → List (WorkerView F)
  unfolding view_of
  views_of_models w hb caps [] = []
  views_of_models w hb caps (m ∷ ms) =
      view_of w hb caps m.base_model m.adapter
        (if m.max_context == 0 then caps.max_context else m.max_context)
      ∷ views_of_models w hb caps ms

  unfoldable pub views_of_worker :
      Worker → Option (Heartbeat F) → CapabilityView F → List ServableModel → List (WorkerView F)
  unfolding view_of views_of_models
  views_of_worker w hb caps [] = view_of w hb caps [] [] caps.max_context ∷ []
  views_of_worker w hb caps (m ∷ ms) = views_of_models w hb caps (m ∷ ms)

  -- The rest of `tick` after `buildSnapshot`.
  unfoldable pub publish_built :
      Publisher F
      → Round F
      → ℕ × Option (RoutingSnapshot F)
      → Publisher F × Option (RoutingSnapshot F)
  publish_built p r (next, none) = (record p { epoch = next }, none)
  publish_built p r (next, some snap) =
      if not r.marshals
      then (record p { epoch = next }, none)
      else if not r.published
      then (record p { epoch = next }, none)
      else (
        record { epoch = next; holder = (store_if_newer (λ s. s.epoch) p.holder (some snap)).0 },
        some snap,
      )

module _ {F : Type 0} ⦃f : Float F⦄ (go : Packages F) where
  -- The loop over the workers.
  unfoldable pub views_of_workers : Dict Str (Heartbeat F) → List Worker → List (WorkerView F)
  unfolding views_of_worker
  views_of_workers by_id [] = []
  views_of_workers by_id (w ∷ ws) =
      views_of_worker w (lookup w.id by_id) (parse_capabilities go w.capabilities w.runtime_kind)
        w.models
      ++ views_of_workers by_id ws

  -- The views of `buildSnapshot`.
  unfoldable pub views_of :
      Option (Dict Str (Heartbeat F)) → List Worker → List (WorkerView F) → List (WorkerView F)
  unfolding views_of_workers beats_by_id
  views_of held ws virtual_views = views_of_workers (beats_by_id held) ws ++ virtual_views

  -- `buildSnapshot`: the epoch that it leaves, and the snapshot.
  unfoldable pub build_snapshot : ℕ → Round F → ℕ × Option (RoutingSnapshot F)
  unfolding views_of
  build_snapshot epoch r = elim r.listed [
    | none ↦ (epoch, none)
    | some ws ↦
        let next = (epoch + 1) % 2 ^ 64 in
        (
          next,
          some (record {
            built_at = r.now;
            epoch = next;
            workers = views_of r.held ws r.virtual_views;
          }),
        )
  ]

  -- `tick`: the publisher after it, and the snapshot that was published.
  unfoldable pub tick : Publisher F → Round F → Publisher F × Option (RoutingSnapshot F)
  unfolding publish_built build_snapshot
  tick p r = publish_built p r (build_snapshot p.epoch r)

  -- Ticks one after another.
  unfoldable pub ticks : Publisher F → List (Round F) → Publisher F
  unfolding tick
  ticks p [] = p
  ticks p (r ∷ rs) = ticks (tick p r).0 rs
