-- ===== src/Gateway/Keys.antt =====
-- services/gateway/apikey.go. The hash of a key, which `crypto/sha256` computes, is a parameter, and
-- the rows that the database answers with are an argument.
mod Reloaded
mod Tests
use forge_labs.Base.{
  ℕ, ◌+◌, ◌-◌, ◌*◌, ◌%◌, ◌^◌, Bool, true, false, not, ◌&&◌, ◌||◌, Option, none, some, List, [], ◌∷◌,
  ◌++◌, if◌then◌else◌, ◌==◌, ltb, leb, is_nil, is_empty, has_prefix, cut, ℤ, pos, leb_ℤ, Str, bytes,
  Dict, lookup, insert, str_key,
}
use forge_labs.Gateway.Translate.{trim_space}

-- A row of the database.
pub record ApiKey : Type 0 where
  pub id : Str
  pub key_hash : Str
  pub client_id : Str
  pub max_concurrent : ℤ
  pub enabled : Bool
  pub created_at : ℕ

pub record ClientIdentity : Type 0 where
  pub client_id : Str
  pub max_concurrent : ℤ
  pub key_id : Str

-- `has_db` says whether a database is set.
pub record KeyStore : Type 0 where
  pub has_db : Bool
  pub by_hash : Dict Str ClientIdentity
  pub env_only : Bool

pub new_key_store : Bool → KeyStore
new_key_store has_db = record { has_db = has_db; by_hash = []; env_only = false }

-- A limit of concurrent requests: 32 where none that is positive is given.
abbrev pub or_32 : ℤ → ℤ
or_32 n = if leb_ℤ n (pos 0) then pos 32 else n

-- The loop of `fmtSscanf`. A digit is one byte in UTF-8; an int has 64 bits.
scan_digits : ℕ → Str → ℕ
scan_digits v [] = v
scan_digits v (a ∷ s) =
    let next = scan_digits ((v * 10 + (a - 48)) % 2 ^ 64) s in
    if ltb a 48 || ltb 57 a then v else next

-- `fmtSscanf`: the number that is written to `n`. A number from `2 ^ 63` on is negative.
pub fmt_sscanf : Str → ℤ → ℤ
unfolding scan_digits
fmt_sscanf s n = let v = scan_digits 0 s in if ltb 0 v && ltb v (2 ^ 63) then pos v else n

-- `strings.Split`, by one byte.
first_part : ℕ → List Str → List Str
first_part a [] = (a ∷ []) ∷ []
first_part a (p ∷ ps) = (a ∷ p) ∷ ps

split : ℕ → Str → List Str
unfolding first_part
split sep [] = [] ∷ []
split sep (a ∷ s) = let rest = split sep s in if a == sep then [] ∷ rest else first_part a rest

-- What follows the first colon of an entry: the client, and the number of requests.
client_of : Str → Str × ℤ
unfolding fmt_sscanf
client_of rest = elim (cut b':' rest) [
  | none ↦ (rest, pos 32)
  | some (client, n) ↦ (client, fmt_sscanf n (pos 32))
]

-- The key, the client and the number of an entry that has been trimmed.
key_of : Str → Str × Str × ℤ
unfolding client_of
key_of part = elim (cut b':' part) [
  | none ↦ (part, bytes "client", pos 32)
  | some (key, rest) ↦ let (client, n) = client_of rest in (key, client, n)
]

module _ (hash : Str → Str) where
  -- One round of the loop over the entries.
  load_entry : Dict Str ClientIdentity → Str → Dict Str ClientIdentity
  unfolding key_of
  load_entry d entry =
      let part = trim_space entry in
      let (key, client, n) = key_of part in
      if is_empty part || is_empty key
      then d
      else insert (hash key)
          (record { client_id = client; max_concurrent = or_32 n; key_id = bytes "env-" ++ client })
          d

  load_entries : Dict Str ClientIdentity → List Str → Dict Str ClientIdentity
  unfolding load_entry
  load_entries d [] = d
  load_entries d (e ∷ es) = load_entries (load_entry d e) es

  -- The single key of the environment.
  abbrev load_single : Str → Dict Str ClientIdentity → Dict Str ClientIdentity
  load_single single d =
      if is_empty single
      then d
      else insert (hash single)
          (record {
            client_id = bytes "default";
            max_concurrent = pos 32;
            key_id = bytes "env-default";
          })
          d

  -- `LoadFromEnv`
  pub load_from_env : Str → Str → KeyStore → KeyStore
  unfolding load_entries split
  load_from_env csv single s =
      let d = load_entries (load_single single s.by_hash) (split b',' csv) in
      record s {
        by_hash = d;
        env_only = if not (is_nil d) && not s.has_db then true else s.env_only;
      }

  -- `Lookup`
  unfoldable pub lookup_key : KeyStore → Str → Option ClientIdentity
  lookup_key s raw = if is_empty raw then none else lookup (hash raw) s.by_hash

abbrev pub is_env : ClientIdentity → Bool
is_env id = has_prefix (bytes "env-") id.key_id

-- The loop of `Reload` over the keys that are held.
unfoldable pub keep_env : Dict Str ClientIdentity → Dict Str ClientIdentity
keep_env [] = []
keep_env ((h, id) ∷ d) = if is_env id then (h, id) ∷ keep_env d else keep_env d

abbrev pub identity_of : ApiKey → ClientIdentity
identity_of r = record {
  client_id = r.client_id;
  max_concurrent = or_32 r.max_concurrent;
  key_id = r.id;
}

-- The loop of `Reload` over the rows.
unfoldable pub add_rows : Dict Str ClientIdentity → List ApiKey → Dict Str ClientIdentity
add_rows d [] = d
add_rows d (r ∷ rs) = add_rows (insert r.key_hash (identity_of r) d) rs

-- `Reload`, with the rows of the keys that are enabled, `none` if the database answers with an error;
-- and whether there was none.
unfoldable pub reload_keys : Option (List ApiKey) → KeyStore → KeyStore × Bool
unfolding keep_env add_rows
reload_keys rows s = if not s.has_db then (s, true) else (elim rows [
  | none ↦ (s, false)
  | some rs ↦ (record s { by_hash = add_rows (keep_env s.by_hash) rs }, true)
])

-- `Required`
unfoldable pub is_required : KeyStore → Bool
is_required s = not (is_nil s.by_hash)

pub data UpsertError : Type 0 where
  invalid_data save_failed reload_failed : UpsertError

abbrev new_row : (Str → Str) → Str → Str → Str → ℤ → ℕ → ApiKey
new_row hash id raw client n now = record {
  id = id;
  key_hash = hash raw;
  client_id = client;
  max_concurrent = or_32 n;
  enabled = true;
  created_at = now;
}

-- `Upsert`: the row that is saved, if one is, the store and the error. `saved` says whether the
-- database took the row, and `rows` are those that it answers to `Reload`.
pub upsert_key :
    (Str → Str)
    → Str
    → Str
    → Str
    → ℤ
    → ℕ
    → Bool
    → Option (List ApiKey)
    → KeyStore
    → Option ApiKey × KeyStore × Option UpsertError
unfolding reload_keys
upsert_key hash id raw client n now saved rows s =
    let row = new_row hash id raw client n now in
    let (s', reloaded) = reload_keys rows s in
    if not s.has_db
    then (none, s, some invalid_data)
    else if not saved
    then (some row, s, some save_failed)
    else (some row, s', if reloaded then none else some reload_failed)
