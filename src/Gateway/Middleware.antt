-- ===== src/Gateway/Middleware.antt =====
-- services/gateway/middleware.go: the limit of each client's requests, and the guards before a handler. The
-- rest of the chain is a parameter; the ID of the request, the limits of its body and time and the log
-- are left out.
mod Guarded
mod Tests
use forge_labs.Base.{
  ℕ, ◌<◌, Bool, true, false, ◌&&◌, ◌||◌, Option, none, some, List, [], ◌∷◌, if◌then◌else◌, ltb,
  length, drop, is_nil, has_prefix, second, ℤ, pos, negsuc, ◌+ℤ◌, ◌*ℤ◌, ltb_ℤ, leb_ℤ, Str, bytes,
  str_eq, Dict, lookup, insert, str_key,
}
use forge_labs.Gateway.Keys.{ClientIdentity, KeyStore, lookup_key, is_required}

pub record ConcurrencyLimiter : Type 0 where
  pub by : Dict Str ℤ
  pub max_default : ℤ

-- `NewConcurrencyLimiter`
abbrev pub new_concurrency_limiter : ConcurrencyLimiter
new_concurrency_limiter = record { by = []; max_default = pos 32 }

-- The counter of a client, which begins at 0.
unfoldable pub count_of : ConcurrencyLimiter → Str → ℤ
count_of l client = elim (lookup client l.by) [ none ↦ pos 0 | some n ↦ n ]

abbrev pub limit_of : ConcurrencyLimiter → ℤ → ℤ
limit_of l max = if leb_ℤ max (pos 0) then l.max_default else max

abbrev pub set_count : Str → ℤ → ConcurrencyLimiter → ConcurrencyLimiter
set_count client n l = record l { by = insert client n l.by }

-- `Acquire`: the limiter after it, and whether a place was free. The counter is there afterwards in both
-- cases; the swap that ends the loop is one step.
unfoldable pub acquire : ConcurrencyLimiter → Str → ℤ → ConcurrencyLimiter × Bool
acquire l client max =
    let cur = count_of l client in
    if leb_ℤ (limit_of l max) cur
    then (set_count client cur l, false)
    else (set_count client (cur +ℤ pos 1) l, true)

-- The function that `Acquire` returns.
unfoldable pub release_place : ConcurrencyLimiter → Str → ConcurrencyLimiter
release_place l client = set_count client (count_of l client +ℤ negsuc 0) l

pub record GatewayLimits : Type 0 where
  pub request_timeout : ℤ
  pub max_body_bytes : ℤ
  pub keys : Option KeyStore
  pub limiter : Option ConcurrencyLimiter

-- The defaults that `Middleware` sets: the limiter, the timeout and the bytes.
pub with_defaults : GatewayLimits → GatewayLimits
with_defaults lim = record lim {
  request_timeout =
      if leb_ℤ lim.request_timeout (pos 0)
      then pos 5 *ℤ pos 60 *ℤ pos second
      else lim.request_timeout;
  max_body_bytes = if leb_ℤ lim.max_body_bytes (pos 0) then pos 1_048_576 else lim.max_body_bytes;
  limiter = elim lim.limiter [ none ↦ some new_concurrency_limiter | some l ↦ some l ];
}

-- The path of a request, and its headers `Authorization` and `X-API-Key`, empty if they are not set.
pub record HttpRequest : Type 0 where
  pub path : Str
  pub authorization : Str
  pub x_api_key : Str

-- `extractAPIKey`
unfoldable pub extract_api_key : HttpRequest → Str
extract_api_key req =
    let auth = req.authorization in
    if ltb 7 (length auth)
      && (has_prefix (bytes "Bearer ") auth || has_prefix (bytes "bearer ") auth)
    then drop 7 auth
    else req.x_api_key

-- The paths that are not guarded.
abbrev pub is_exempt : HttpRequest → Bool
is_exempt req =
    str_eq req.path (bytes "/healthz") || str_eq req.path (bytes "/internal/cache/events")

-- What becomes of a request: a status of the middleware, or what the rest of the chain gives, with the
-- client that it finds in the context.
pub data Served (R : Type 0) : Type 0 where
  aborted : ℕ → Served R
  passed : Option ClientIdentity → R → Served R

-- `ClientFromContext`
pub client_from_context : Option ClientIdentity → ClientIdentity
client_from_context none = record {
  client_id = bytes "anonymous";
  max_concurrent = pos 32;
  key_id = [];
}
client_from_context (some id) = id

module _ {R : Type 0}
    (next : Option ClientIdentity → ConcurrencyLimiter → ConcurrencyLimiter × R) where
  -- The chain without a client.
  unfoldable pub pass_on : ConcurrencyLimiter → ConcurrencyLimiter × Served R
  pass_on l = let (l', r) = next none l in (l', passed none r)

  -- From `Acquire` to the deferred `release`.
  unfoldable pub with_place :
      ClientIdentity → ConcurrencyLimiter × Bool → ConcurrencyLimiter × Served R
  unfolding release_place
  with_place id (l, false) = (l, aborted 429)
  with_place id (l, true) =
      let (l', r) = next (some id) l in (release_place l' id.client_id, passed (some id) r)

  -- A request whose key was looked up.
  unfoldable pub with_client :
      ConcurrencyLimiter → Option ClientIdentity → ConcurrencyLimiter × Served R
  unfolding with_place acquire
  with_client l none = (l, aborted 401)
  with_client l (some id) = with_place id (acquire l id.client_id id.max_concurrent)

  -- A request that is not exempt.
  unfoldable pub guard_request :
      (Str → Str)
      → Option KeyStore
      → HttpRequest
      → ConcurrencyLimiter
      → ConcurrencyLimiter × Served R
  unfolding pass_on with_client
  guard_request hash none req l = pass_on l
  guard_request hash (some s) req l =
      if is_required s then with_client l (lookup_key hash s (extract_api_key req)) else pass_on l

  -- The function of `Middleware`.
  unfoldable pub serve :
      (Str → Str)
      → Option KeyStore
      → HttpRequest
      → ConcurrencyLimiter
      → ConcurrencyLimiter × Served R
  unfolding guard_request
  serve hash keys req l = if is_exempt req then pass_on l else guard_request hash keys req l
