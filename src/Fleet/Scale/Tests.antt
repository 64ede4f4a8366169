-- ===== src/Fleet/Scale/Tests.antt =====
-- Two ready workers of a model, of which the second has less to do.
use forge_labs.Base.{
  ◌≡◌, refl, none, some, [], ◌∷◌, true, false, ℤ, pos, Str, bytes, Dict, str_key, str_eq,
}
use forge_labs.Fleet.Hysteresis.{new_hysteresis}
use forge_labs.Fleet.Policy.{ModelIdentity}
use forge_labs.Fleet.Manager.{ready, TrackedWorker, Manager}
use forge_labs.Fleet.Scale.{pick_idle}

abbrev pub model : ModelIdentity
model = record { base_model = bytes "m"; adapter = [] }

abbrev worker : Str → ℤ → TrackedWorker
worker id n = record { id = id; model = model; state = ready; in_flight = n }

abbrev tracked : Dict Str TrackedWorker
tracked = (bytes "a", worker (bytes "a") (pos 2)) ∷ (bytes "b", worker (bytes "b") (pos 1)) ∷ []

abbrev pub manager : Dict Str TrackedWorker → Manager ℤ
manager ws = record {
  policies = record { has_db = false; by = [] };
  snapshot = none;
  has_lifecycle = true;
  has_rdb = false;
  hyst = new_hysteresis;
  workers = ws;
  desired = [];
  calls = [];
}

picks_b : pick_idle model none tracked ≡ some (bytes "b", worker (bytes "b") (pos 1))
unfolding pick_idle str_eq
picks_b = refl
