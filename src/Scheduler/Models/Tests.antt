-- ===== src/Scheduler/Models/Tests.antt =====
-- Model names, and the theorem on them at concrete ones.
use forge_labs.Base.{◌≡◌, refl, true, [], ◌∷◌, bytes, str_eq, has_prefix, cut}
use forge_labs.Routing.Snapshot.{full_name}
use forge_labs.Scheduler.Models.{serves_model, serves_one}
use forge_labs.Scheduler.Models.Identity.{any_matches, serves_model-any_matches}

-- A worker with the base alone serves a request with an adapter.
base_serves : serves_model (bytes "llama" ∷ []) (bytes "llama#x") (bytes "llama") (bytes "x") ≡ true
unfolding serves_model serves_one str_eq has_prefix cut
base_serves = refl

serves_model-any_matches_example :
    serves_model
      (bytes "m#y" ∷ bytes "m#x" ∷ [])
      (full_name (bytes "m") (bytes "x"))
      (bytes "m")
      (bytes "x")
    ≡ any_matches (bytes "m") (bytes "x") (bytes "m#y" ∷ bytes "m#x" ∷ [])
unfolding cut
serves_model-any_matches_example =
    serves_model-any_matches (bytes "m#y" ∷ bytes "m#x" ∷ []) (bytes "m") (bytes "x") refl
