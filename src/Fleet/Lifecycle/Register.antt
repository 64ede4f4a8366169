-- ===== src/Fleet/Lifecycle/Register.antt =====
-- services/fleet/lifecycle.go, `register` and `ensureCatalogAssignment`: what is written to the
-- database, whose answers are arguments. `TableName` and the times are left out.
use forge_labs.Base.{
  ℕ, Bool, true, false, not, ◌||◌, Option, none, some, List, [], ◌∷◌, ◌++◌, if◌then◌else◌, ◌==◌,
  is_empty, has_prefix, drop, reverse, Str, bytes, str_eq,
}
use forge_labs.Routing.Snapshot.{full_name}
use forge_labs.Catalog.{Model}
use forge_labs.Fleet.Policy.{ModelIdentity}
use forge_labs.Fleet.Lifecycle.{is_pod}

-- A row of a provider that `register` writes: the fields that depend on the worker.
pub record ProviderRow : Type 0 where
  pub id : Str
  pub base_url : Str

pub record ModelMapRow : Type 0 where
  pub provider_id : Str
  pub base_model : Str
  pub adapter : Str
  pub provider_model : Str
  pub max_context : ℕ

-- The writes, and those that fail.
pub data Write : Type 0 where
  save_provider : ProviderRow → Write
  save_model_map : ModelMapRow → Write
  upsert_model : Str → Str → Str → Write
  upsert_assignment : Str → Str → Write

-- What the database answers: the models, `none` for an error; the ID that the new model gets; the
-- models after that; and whether a write fails.
pub record Answers : Type 0 where
  pub models : Option (List Model)
  pub new_id : Str
  pub models_after : Option (List Model)
  pub refuses : Write → Bool

-- `strings.TrimRight(s, "/")`, on the reversed bytes.
drop_slashes : Str → Str
drop_slashes [] = []
drop_slashes (a ∷ s) = let rest = drop_slashes s in if a == b'/' then rest else a ∷ s

abbrev has_suffix : Str → Str → Bool
has_suffix suffix s = has_prefix (reverse suffix) (reverse s)

base_url_of : Str → Str
unfolding drop_slashes
base_url_of detail =
    if has_suffix (bytes "/v1") detail
    then detail
    else reverse (drop_slashes (reverse detail)) ++ bytes "/v1"

-- The loops over the models: the ID of the first of the name, or the empty ID.
model_id_of : Str → List Model → Str
model_id_of name [] = []
model_id_of name (m ∷ ms) =
    let later = model_id_of name ms in if str_eq m.name name then m.id else later

-- A write, with whether it did not fail, and what follows it.
write_then : Answers → Write → List Write × Bool → List Write × Bool
write_then db w (ws, ok) = if db.refuses w then (w ∷ [], false) else (w ∷ ws, ok)

-- The ID after the model is added.
added_id : Answers → Str → Str
unfolding model_id_of
added_id db name =
    if not (is_empty db.new_id)
    then db.new_id
    else (elim db.models_after [ none ↦ [] | some ms ↦ model_id_of name ms ])

-- `ensureCatalogAssignment`: the writes in their order, and whether there was no error.
pub ensure_catalog_assignment : Bool → Answers → ModelIdentity → Str → List Write × Bool
unfolding model_id_of added_id write_then
ensure_catalog_assignment has_db db id worker =
    let name = full_name id.base_model id.adapter in
    if not has_db || (is_empty worker || is_empty id.base_model)
    then ([], true)
    else (elim db.models [
      | none ↦ ([], false)
      | some ms ↦
          let found = model_id_of name ms in
          if not (is_empty found)
          then write_then db (upsert_assignment found worker) ([], true)
          else write_then db (upsert_model name id.base_model id.adapter)
              (write_then db (upsert_assignment (added_id db name) worker) ([], true))
    ])

-- `register`
pub register : Bool → Answers → Str → ModelIdentity → Str → List Write × Bool
unfolding base_url_of write_then ensure_catalog_assignment
register has_db db wid id detail =
    let provider = bytes "runpod-" ++ drop 7 wid in
    if not has_db
    then ([], true)
    else if is_pod wid
    then write_then db (save_provider (record { id = provider; base_url = base_url_of detail })) (
        write_then db
          (save_model_map (record {
            provider_id = provider;
            base_model = id.base_model;
            adapter = id.adapter;
            provider_model = id.base_model;
            max_context = 8192;
          }))
          (ensure_catalog_assignment has_db db id
            (bytes "provider:" ++ provider ++ bytes ":" ++ id.base_model)))
    else ensure_catalog_assignment has_db db id wid
