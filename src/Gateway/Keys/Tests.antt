-- ===== src/Gateway/Keys/Tests.antt =====
-- A store with one key of the environment, to which a row with an ID like the environment's is added,
-- and the theorems on it.
use forge_labs.Base.{
  Distinct, ◌≡◌, refl, true, false, some, [], ◌∷◌, ℤ, pos, Str, bytes, str_eq, str_key, lookup,
  insert, cut,
}
use forge_labs.Gateway.Translate.{trim_space}
use forge_labs.Gateway.Keys.{
  ApiKey, ClientIdentity, KeyStore, new_key_store, load_from_env, load_entries, load_entry, key_of,
  client_of, fmt_sscanf, scan_digits, split, first_part, lookup_key, reload_keys,
}
use forge_labs.Gateway.Keys.Reloaded.{last_row, if_env, lookup_key-reload_keys}

-- A hash that only marks the key.
abbrev mark : Str → Str
mark s = 35 ∷ s

abbrev identity : Str → Str → ℤ → ClientIdentity
identity client id n = record { client_id = client; max_concurrent = n; key_id = id }

loaded :
    (load_from_env mark (bytes "k:alice:7, ,:x,z") [] (new_key_store true)).by_hash
    ≡ (bytes "#k", identity (bytes "alice") (bytes "env-alice") (pos 7))
      ∷ (bytes "#z", identity (bytes "client") (bytes "env-client") (pos 32))
      ∷ []
unfolding load_from_env load_entries load_entry key_of client_of fmt_sscanf scan_digits split
    first_part trim_space cut insert str_eq new_key_store
loaded = refl

abbrev row : Str → ApiKey
row id = record {
  id = id;
  key_hash = bytes "#r";
  client_id = bytes "bob";
  max_concurrent = pos 0;
  enabled = true;
  created_at = 0;
}

abbrev store : KeyStore
store = record {
  has_db = true;
  by_hash =
      (bytes "#k", identity (bytes "alice") (bytes "env-alice") (pos 7))
      ∷ (bytes "#r", identity (bytes "bob") (bytes "env-bob") (pos 32))
      ∷ [];
  env_only = false;
}

store-Distinct : Distinct store.by_hash
unfolding lookup str_eq
store-Distinct = (refl, (refl, tt))

lookup_key-reload_keys_example :
    (lookup_key mark (reload_keys (some (row (bytes "17") ∷ [])) store).0 (bytes "r")
      ≡ last_row (bytes "#r") (row (bytes "17") ∷ []) (if_env (lookup_key mark store (bytes "r"))))
    × Distinct ((reload_keys (some (row (bytes "17") ∷ [])) store).0).by_hash
lookup_key-reload_keys_example =
    lookup_key-reload_keys mark store (row (bytes "17") ∷ []) (bytes "r") refl store-Distinct refl
