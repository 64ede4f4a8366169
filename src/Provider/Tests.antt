-- ===== src/Provider/Tests.antt =====
-- Two providers, one of which has a model under two adapters, and the theorem on them.
use forge_labs.Base.{◌≡◌, refl, true, some, List, [], ◌∷◌, All, ℤ, pos, Str, bytes, insert, str_eq}
use forge_labs.Fixed.{fixed}
use forge_labs.Provider.{
  Provider, ModelMap, Registry, model_map, maps_of, reload_providers, backend_by_endpoint,
  virtual_view,
}
use forge_labs.Provider.Found.{reload_providers-found}

abbrev provider : Str → Provider ℤ
provider id = record {
  id = id;
  base_url = bytes "http://p";
  api_key_ref = [];
  cost_in_per_m_tok = pos 0;
  cost_out_per_m_tok = pos 0;
  cost_per_hour = pos 0;
}

abbrev model : Str → Str → ModelMap
model adapter name = record {
  provider_id = bytes "p";
  base_model = bytes "m";
  adapter = adapter;
  provider_model = name;
  max_context = pos 8192;
}

abbrev models : List ModelMap
models = model [] (bytes "base") ∷ model (bytes "x") (bytes "tuned") ∷ []

-- The name of the last row of a base model stands for all its adapters.
adapters_share : model_map [] (maps_of (bytes "p") models) ≡ (bytes "m", bytes "tuned") ∷ []
unfolding model_map insert str_eq
adapters_share = refl

abbrev empty_registry : Registry ℤ
empty_registry = record { has_db = true; workers = []; by_id = [] }

abbrev providers : List (Provider ℤ)
providers = provider (bytes "p") ∷ provider (bytes "q") ∷ []

abbrev reloaded : Registry ℤ
reloaded = (reload_providers (λ k. k) (some providers) (some models) empty_registry).0

reload_providers-found_example :
    All
      (λ w. backend_by_endpoint reloaded (virtual_view (λ _. []) w).endpoint ≡ some w.backend)
      reloaded.workers
unfolding str_eq
reload_providers-found_example =
    reload_providers-found (λ k. k) models (λ _. []) providers empty_registry refl
      ((refl, tt), (tt, tt))
