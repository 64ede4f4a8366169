-- ===== src/Gateway/Translate/Tests.antt =====
-- White space is trimmed, and a name is split at its first `#`.
use forge_labs.Base.{◌≡◌, refl, bytes, cut}
use forge_labs.Gateway.Translate.{trim_space, parse_model_id}

trimmed : trim_space (bytes " a b ") ≡ bytes "a b"
unfolding trim_space
trimmed = refl

two_parts : parse_model_id (bytes "m#a#b") ≡ (bytes "m", bytes "a#b")
unfolding trim_space cut parse_model_id
two_parts = refl
