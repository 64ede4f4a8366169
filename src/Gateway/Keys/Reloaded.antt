-- ===== src/Gateway/Keys/Reloaded.antt =====
-- Which keys are found after `Reload`.
use forge_labs.Base.{
  ◌≡◌, refl, ap, ◌∙◌, arith, Bool, true, false, Option, none, some, List, [], ◌∷◌, if◌then◌else◌,
  is_empty, Str, str_eq, Dict, str_key, lookup, insert, lookup-insert, lookup_same, Distinct,
  insert-Distinct,
}
use forge_labs.Gateway.Keys.{
  ApiKey, ClientIdentity, KeyStore, lookup_key, is_env, keep_env, identity_of, add_rows,
  reload_keys,
}

-- The last row of a hash, or else another identity.
abbrev pub last_row : Str → List ApiKey → Option ClientIdentity → Option ClientIdentity
last_row h [] o = o
last_row h (r ∷ rs) o = last_row h rs (if str_eq r.key_hash h then some (identity_of r) else o)

-- An identity of the environment.
abbrev pub if_env : Option ClientIdentity → Option ClientIdentity
if_env none = none
if_env (some id) = if is_env id then some id else none

lookup-keep_env :
    (h : Str) (d : Dict Str ClientIdentity)
    → Distinct d
    → lookup h (keep_env d) ≡ if_env (lookup h d)
unfolding lookup keep_env
lookup-keep_env h [] t = refl
lookup-keep_env h ((k, v) ∷ d) (n, t) = ground (arith, lookup-keep_env h d t, lookup_same k h d, n)

lookup-add_rows :
    (h : Str) (rs : List ApiKey) (d : Dict Str ClientIdentity)
    → lookup h (add_rows d rs) ≡ last_row h rs (lookup h d)
unfolding add_rows
lookup-add_rows h [] d = refl
lookup-add_rows h (r ∷ rs) d =
    lookup-add_rows h rs (insert r.key_hash (identity_of r) d)
    ∙ ap (last_row h rs) (lookup-insert r.key_hash h (identity_of r) d)

keep_env-Distinct : (d : Dict Str ClientIdentity) → Distinct d → Distinct (keep_env d)
unfolding keep_env
keep_env-Distinct [] t = tt
keep_env-Distinct ((k, v) ∷ d) (n, t) =
    go (keep_env-Distinct d t) (lookup-keep_env k d t ∙ ap if_env n) (is_env v)
  where
    go :
        Distinct (keep_env d)
        → lookup k (keep_env d) ≡ none
        → (b : Bool) → Distinct (if b then (k, v) ∷ keep_env d else keep_env d)
    go ih fresh true = (fresh, ih)
    go ih fresh false = ih

add_rows-Distinct :
    (rs : List ApiKey) (d : Dict Str ClientIdentity) → Distinct d → Distinct (add_rows d rs)
unfolding add_rows
add_rows-Distinct [] d t = t
add_rows-Distinct (r ∷ rs) d t =
    add_rows-Distinct rs (insert r.key_hash (identity_of r) d)
      (insert-Distinct r.key_hash (identity_of r) d t)

-- With a database that answers and a key that is not empty, after `Reload` the key is found as in the
-- last row of its hash; without such a row, as it was found before if that identity's ID begins with
-- "env-"; and otherwise not at all. The store stays a map if it is one.
pub lookup_key-reload_keys :
    (hash : Str → Str) (s : KeyStore) (rows : List ApiKey) (raw : Str)
    → s.has_db ≡ true
    → Distinct s.by_hash
    → is_empty raw ≡ false
    → (lookup_key hash (reload_keys (some rows) s).0 raw
        ≡ last_row (hash raw) rows (if_env (lookup_key hash s raw)))
      × Distinct ((reload_keys (some rows) s).0).by_hash
unfolding lookup_key reload_keys
lookup_key-reload_keys hash s rows raw b d e = (
  rw (b, e)
      (lookup-add_rows (hash raw) rows (keep_env s.by_hash)
        ∙ ap (last_row (hash raw) rows) (lookup-keep_env (hash raw) s.by_hash d)),
  rw b (add_rows-Distinct rows (keep_env s.by_hash) (keep_env-Distinct s.by_hash d)),
)
