-- ===== src/Scheduler/Filters/Tests.antt =====
-- The configured filters on two workers, and the theorem on them.
use forge_labs.Base.{
  ℕ, ◌≡◌, refl, Bool, true, false, some, List, [], ◌∷◌, keep_if, ℤ, pos, Str, bytes, str_eq,
}
use forge_labs.Scheduler.Types.{Candidate, Request}
use forge_labs.Scheduler.Chain.{err, admission_rejected, survivors}
use forge_labs.Scheduler.Filters.{has_room, configured_filters, serves, satisfies_capability}
use forge_labs.Scheduler.Models.{serves_model, serves_one}
use forge_labs.Scheduler.Filters.Eligible.{admitted, can_serve, configured_filters_lem}

abbrev pub candidate : Str → ℕ → Bool → Candidate ℤ
candidate id depth ready = record {
  worker_id = id;
  endpoint = [];
  queue_depth = pos depth;
  healthy = true;
  ready = ready;
  ewma_latency_ms = pos 0;
  models = bytes "m" ∷ [];
  max_context = 0;
  cost_per_hour = pos 0;
  cost_class = [];
  runtime = [];
  vram_gb = pos 0;
  gpu = [];
  capabilities = [];
}

abbrev pub request : Request
request = record {
  base_model = bytes "m";
  adapter = [];
  prompt = [];
  affinity_key = [];
  preferred_worker = [];
  min_context = 0;
}

-- The one worker that can serve is full.
abbrev fleet : List (Candidate ℤ)
fleet = candidate (bytes "a") 4 true ∷ candidate (bytes "b") 0 false ∷ []

saturated : survivors (configured_filters (pos 4)) (some request) fleet ≡ err admission_rejected
unfolding survivors configured_filters serves satisfies_capability serves_model serves_one str_eq
saturated = refl

configured_filters_lem_example :
    survivors (configured_filters (pos 4)) (some request) fleet
    ≡ admitted (has_room (pos 4)) (keep_if (can_serve request) fleet)
configured_filters_lem_example = configured_filters_lem (pos 4) request fleet refl refl
