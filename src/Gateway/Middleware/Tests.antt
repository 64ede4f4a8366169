-- ===== src/Gateway/Middleware/Tests.antt =====
-- A client that may have one request at a time, and the theorem on its request.
use forge_labs.Base.{
  ◌≡◌, refl, Bool, true, false, Option, none, some, [], ◌∷◌, pos, Str, bytes, has_prefix, str_eq,
  lookup,
}
use forge_labs.Gateway.Keys.{ClientIdentity, KeyStore, lookup_key, is_required}
use forge_labs.Gateway.Middleware.{
  ConcurrencyLimiter, new_concurrency_limiter, count_of, HttpRequest, extract_api_key, is_exempt,
  aborted, serve, guard_request, with_client, with_place, acquire,
}
use forge_labs.Gateway.Middleware.Guarded.{SamePlaces, Decided, serve-Guarded}

abbrev mark : Str → Str
mark s = 35 ∷ s

abbrev alice : ClientIdentity
alice = record { client_id = bytes "alice"; max_concurrent = pos 1; key_id = bytes "env-alice" }

abbrev store : KeyStore
store = record { has_db = false; by_hash = (bytes "#k", alice) ∷ []; env_only = true }

abbrev request : HttpRequest
request = record {
  path = bytes "/v1/chat/completions";
  authorization = bytes "Bearer k";
  x_api_key = [];
}

abbrev busy_alice : ConcurrencyLimiter
busy_alice = record new_concurrency_limiter { by = (bytes "alice", pos 1) ∷ [] }

-- A chain that answers whether there is a client.
abbrev chain : Option ClientIdentity → ConcurrencyLimiter → ConcurrencyLimiter × Bool
chain none l = (l, false)
chain (some _) l = (l, true)

is_saturated : (serve chain mark (some store) request busy_alice).1 ≡ aborted 429
unfolding serve guard_request with_client with_place acquire lookup_key extract_api_key has_prefix
    str_eq lookup count_of is_required
is_saturated = refl

chain-SamePlaces : (c : Option ClientIdentity) (l : ConcurrencyLimiter) → SamePlaces l (chain c l).0
chain-SamePlaces none l id = refl
chain-SamePlaces (some _) l id = refl

is_asked : (is_required store ≡ true) × (is_exempt request ≡ false)
unfolding is_required str_eq
is_asked = (refl, refl)

serve-Guarded_example :
    Decided busy_alice
      (lookup_key mark store (extract_api_key request))
      (serve chain mark (some store) request busy_alice).1
    × SamePlaces busy_alice (serve chain mark (some store) request busy_alice).0
serve-Guarded_example =
    serve-Guarded chain chain-SamePlaces mark store request busy_alice is_asked.0 is_asked.1
