-- ===== src/Provider.antt =====
-- services/provider, registry.go and models.go: the workers that stand for the models of providers. What the
-- database answers, the lookup of a provider's key and the print of a cost are parameters.
mod Found
mod Tests
use forge_labs.Base.{
  ℕ, ◌-◌, ◌%◌, ◌^◌, Bool, true, false, not, Option, none, some, List, [], ◌∷◌, ◌++◌, if◌then◌else◌,
  drop, keep_if, is_empty, has_prefix, ℤ, pos, negsuc, Str, bytes, str_eq, Dict, lookup, insert,
  str_key, Float,
}
use forge_labs.Routing.Snapshot.{WorkerView}

pub record Provider (F : Type 0) : Type 0 where
  pub id : Str
  pub base_url : Str
  pub api_key_ref : Str
  pub cost_in_per_m_tok : F
  pub cost_out_per_m_tok : F
  pub cost_per_hour : F

pub record ModelMap : Type 0 where
  pub provider_id : Str
  pub base_model : Str
  pub adapter : Str
  pub provider_model : Str
  pub max_context : ℤ

-- `OpenAIConfig`, which a backend is made of.
pub record OpenAiConfig : Type 0 where
  pub id : Str
  pub base_url : Str
  pub api_key : Str
  pub models : Dict Str Str

pub record VirtualWorker (F : Type 0) : Type 0 where
  pub id : Str
  pub provider_id : Str
  pub endpoint : Str
  pub base_model : Str
  pub adapter : Str
  pub max_context : ℕ  -- uint32
  pub cost_per_hour : F
  pub cost_in_per_m : F
  pub cost_out_per_m : F
  pub provider_model : Str
  pub backend : OpenAiConfig

pub record Registry (F : Type 0) : Type 0 where
  pub has_db : Bool
  pub workers : List (VirtualWorker F)
  pub by_id : Dict Str OpenAiConfig

-- The conversion of an `int` to a `uint32`.
abbrev to_uint32 : ℤ → ℕ
to_uint32 (pos n) = n % 2 ^ 32
to_uint32 (negsuc n) = 2 ^ 32 - 1 - n % 2 ^ 32

-- `byProv[id]`
abbrev pub maps_of : Str → List ModelMap → List ModelMap
maps_of id maps = keep_if (λ m. str_eq m.provider_id id) maps

-- `modelMap`
unfoldable pub model_map : Dict Str Str → List ModelMap → Dict Str Str
model_map d [] = d
model_map d (m ∷ ms) = model_map (insert m.base_model m.provider_model d) ms

-- The ID of a worker, and its endpoint.
pub virtual_id : Str → ModelMap → Str
virtual_id id m =
    let wid = bytes "provider:" ++ (id ++ (bytes ":" ++ m.base_model)) in
    if is_empty m.adapter then wid else wid ++ (bytes "#" ++ m.adapter)

abbrev pub endpoint_scheme : Str
endpoint_scheme = bytes "provider://"

module _ {F : Type 0} ⦃f : Float F⦄ where
  -- `costHr`
  pub hourly_cost : Provider F → F
  hourly_cost p =
      let tokens = f.mul (f.add p.cost_in_per_m_tok p.cost_out_per_m_tok) (f.num 10) in
      if f.lt (f.num 0) p.cost_per_hour
      then p.cost_per_hour
      else if f.lt (f.num 0) tokens
      then tokens
      else f.num 1

  module _ (resolve_key : Str → Str) (maps : List ModelMap) where
    unfoldable pub backend_of : Provider F → OpenAiConfig
    unfolding model_map
    backend_of p = record {
      id = p.id;
      base_url = p.base_url;
      api_key = resolve_key p.api_key_ref;
      models = model_map [] (maps_of p.id maps);
    }

    -- One worker of a provider.
    unfoldable pub virtual_worker : Provider F → ModelMap → VirtualWorker F
    unfolding backend_of hourly_cost virtual_id
    virtual_worker p m = record {
      id = virtual_id p.id m;
      provider_id = p.id;
      endpoint = endpoint_scheme ++ p.id;
      base_model = m.base_model;
      adapter = m.adapter;
      max_context = to_uint32 m.max_context;
      cost_per_hour = hourly_cost p;
      cost_in_per_m = p.cost_in_per_m_tok;
      cost_out_per_m = p.cost_out_per_m_tok;
      provider_model = m.provider_model;
      backend = backend_of p;
    }

    -- The loop over the models of a provider.
    unfoldable pub workers_from : Provider F → List ModelMap → List (VirtualWorker F)
    unfolding virtual_worker
    workers_from p [] = []
    workers_from p (m ∷ ms) = virtual_worker p m ∷ workers_from p ms

    -- The loop over the providers: its workers, and its backends.
    unfoldable pub virtual_workers : List (Provider F) → List (VirtualWorker F)
    unfolding workers_from
    virtual_workers [] = []
    virtual_workers (p ∷ ps) = workers_from p (maps_of p.id maps) ++ virtual_workers ps

    unfoldable pub backends_from : Dict Str OpenAiConfig → List (Provider F) → Dict Str OpenAiConfig
    unfolding backend_of
    backends_from d [] = d
    backends_from d (p ∷ ps) = backends_from (insert p.id (backend_of p) d) ps

  -- `Reload`, with whether it returns nil. The providers are those that are enabled; `none` is an error.
  unfoldable pub reload_providers :
      (Str → Str)
      → Option (List (Provider F))
      → Option (List ModelMap)
      → Registry F
      → Registry F × Bool
  unfolding virtual_workers backends_from
  reload_providers resolve_key providers maps r =
      if not r.has_db then (r, true) else (elim providers [
        | none ↦ (r, false)
        | some ps ↦ elim maps [
          | none ↦ (r, false)
          | some ms ↦ (
            record r {
              workers = virtual_workers resolve_key ms ps;
              by_id = backends_from resolve_key ms [] ps;
            },
            true,
          )
        ]
      ])

module _ {F : Type 0} where
  backend_among : Str → List (VirtualWorker F) → Option OpenAiConfig
  backend_among wid [] = none
  backend_among wid (w ∷ ws) =
      let rest = backend_among wid ws in if str_eq w.id wid then some w.backend else rest

  -- `Backend`
  unfoldable pub backend : Registry F → Str → Option OpenAiConfig
  unfolding backend_among
  backend r wid = backend_among wid r.workers

  -- `BackendByEndpoint`. The scheme has 11 bytes.
  unfoldable pub backend_by_endpoint : Registry F → Str → Option OpenAiConfig
  backend_by_endpoint r endpoint =
      if has_prefix endpoint_scheme endpoint then lookup (drop 11 endpoint) r.by_id else none

module _ {F : Type 0} ⦃f : Float F⦄ (print_cost : F → Str) where
  unfoldable pub virtual_view : VirtualWorker F → WorkerView F
  virtual_view w = record {
    id = w.id;
    endpoint = w.endpoint;
    base_model = w.base_model;
    adapter = w.adapter;
    healthy = true;
    ready = true;
    queue_depth = pos 0;
    in_flight = pos 0;
    max_context = w.max_context;
    cost_per_hour = w.cost_per_hour;
    cost_class = bytes "paid";
    runtime = bytes "provider";
    vram_gb = f.num 0;
    gpu = [];
    capabilities =
        (bytes "provider", bytes "true")
        ∷ (bytes "no_local_kv", bytes "true")
        ∷ (bytes "provider_id", w.provider_id)
        ∷ (bytes "cost_class", bytes "paid")
        ∷ (bytes "cost_per_hour", print_cost w.cost_per_hour)
        ∷ [];
  }

  -- `SnapshotViews`
  unfoldable pub snapshot_views : List (VirtualWorker F) → List (WorkerView F)
  unfolding virtual_view
  snapshot_views [] = []
  snapshot_views (w ∷ ws) = virtual_view w ∷ snapshot_views ws
