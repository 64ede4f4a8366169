-- ===== src/Health/Tests.antt =====
-- The key that the function panics on.
use forge_labs.Base.{◌≡◌, refl, has_prefix, bytes}
use forge_labs.Health.{key_panics, worker_id_from_key}

-- The prefix and the suffix share their colon.
shared_colon : worker_id_from_key (bytes "worker:heartbeat") ≡ key_panics
unfolding worker_id_from_key has_prefix
shared_colon = refl
