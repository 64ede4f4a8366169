-- ===== src/Scheduler/Snapshot/Tests.antt =====
-- Two workers, one of which serves two models.
use forge_labs.Base.{
  ◌≡◌, refl, Bool, true, false, none, List, [], ◌∷◌, ℤ, pos, Str, bytes, str_eq, lookup, insert,
  str_key,
}
use forge_labs.Fixed.{fixed}
use forge_labs.Routing.Snapshot.{WorkerView}
use forge_labs.Scheduler.Snapshot.{collect, seen_candidate, first_view, merge_view, add_model}
use forge_labs.Scheduler.Snapshot.Health.{has}

abbrev pub view : Str → Str → Bool → WorkerView ℤ
view id model ready = record {
  id = id;
  endpoint = [];
  base_model = model;
  adapter = [];
  healthy = true;
  ready = ready;
  queue_depth = pos 0;
  in_flight = pos 0;
  max_context = 0;
  cost_per_hour = pos 0;
  cost_class = [];
  runtime = [];
  vram_gb = pos 0;
  gpu = [];
  capabilities = [];
}

abbrev views : List (WorkerView ℤ)
views =
    view (bytes "a") (bytes "m") false
    ∷ view (bytes "b") (bytes "m") true
    ∷ view (bytes "a") (bytes "n") true
    ∷ []

-- The worker `a` is ready by its second view.
merges_views : has (λ c. c.ready) (lookup (bytes "a") (collect none none [] views)) ≡ true
unfolding collect seen_candidate first_view merge_view add_model lookup insert str_eq
merges_views = refl
