-- ===== src/Scheduler/Filters.antt =====
-- services/scheduler/filter_health.go, filter_model.go, filter_capability.go and admission.go. The
-- counters of filtered candidates are left out.
pub mod Eligible
pub mod Tests
use forge_labs.Base.{
  ℕ, Bool, true, false, not, ◌&&◌, ◌||◌, Option, none, some, List, [], ◌∷◌, ◌++◌, keep_if, ltb,
  if◌then◌else◌, is_empty, is_nil, ℤ, pos, leb_ℤ, ltb_ℤ, bytes,
}
use forge_labs.Routing.Snapshot.{full_name}
use forge_labs.Scheduler.Types.{Candidate, Request, Filter}
use forge_labs.Scheduler.Models.{serves_model}

module _ {F : Type 0} where
  unfoldable pub is_healthy : Candidate F → Bool
  is_healthy c = if not c.healthy then false else if not c.ready then false else true

  unfoldable pub health_filter : Filter F
  unfolding is_healthy
  health_filter = record { name = bytes "health"; filter = λ req cs. keep_if is_healthy cs }

  -- Whether the candidate serves the model of the request.
  unfoldable pub serves : Request → Candidate F → Bool
  serves req c =
      serves_model c.models (full_name req.base_model req.adapter) req.base_model req.adapter

  keep_serving : Option Request → List (Candidate F) → List (Candidate F)
  keep_serving none cs = []
  keep_serving (some req) cs = if is_empty req.base_model then [] else keep_if (serves req) cs

  unfoldable pub model_filter : Filter F
  unfolding keep_serving
  model_filter = record { name = bytes "model"; filter = keep_serving }

  unfoldable pub satisfies_capability : Request → Candidate F → Bool
  satisfies_capability req c =
      if ltb 0 req.min_context && ltb 0 c.max_context && ltb c.max_context req.min_context
      then false
      else if is_empty req.base_model
      then true
      else if is_nil c.models
      then false
      else serves req c

  keep_capable : Option Request → List (Candidate F) → List (Candidate F)
  keep_capable none cs = cs
  keep_capable (some req) cs = keep_if (satisfies_capability req) cs

  unfoldable pub capability_filter : Filter F
  unfolding keep_capable
  capability_filter = record { name = bytes "capability"; filter = keep_capable }

  unfoldable pub has_room : ℤ → Candidate F → Bool
  has_room limit c = ltb_ℤ c.queue_depth limit

  unfoldable pub admission_filter : ℤ → Filter F
  unfolding has_room
  admission_filter limit = record {
    name = bytes "admission";
    filter = λ req cs. if leb_ℤ limit (pos 0) then cs else keep_if (has_room limit) cs;
  }

  -- The filters of `NewConfiguredChain`.
  unfoldable pub configured_filters : ℤ → List (Filter F)
  unfolding health_filter model_filter capability_filter admission_filter
  configured_filters limit =
      health_filter
      ∷ model_filter
      ∷ capability_filter
      ∷ (if leb_ℤ limit (pos 0) then [] else admission_filter limit ∷ [])
