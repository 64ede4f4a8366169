-- ===== src/Catalog/Tests.antt =====
-- Two rows of one name, and the theorem on them.
use forge_labs.Base.{◌≡◌, none, some, List, [], ◌∷◌, Str, bytes}
use forge_labs.Catalog.{Model, ModelAssignment, built, resolve}
use forge_labs.Catalog.Resolve.{last_named, workers_of, resolve-built}

abbrev row : Str → Model
row id = record { id = id; name = bytes "m"; base_model = bytes "m"; adapter = [] }

abbrev models : List Model
models = row (bytes "1") ∷ row (bytes "2") ∷ []

abbrev assigned : List ModelAssignment
assigned = record { id = bytes "x"; model_id = bytes "2"; worker_id = bytes "w" } ∷ []

resolve-built_example :
    resolve (built models assigned 7) (bytes "m") ≡ (elim (last_named (bytes "m") none models) [
      | none ↦ none
      | some m ↦ some (m, workers_of m.id assigned)
    ])
resolve-built_example = resolve-built models assigned 7 (bytes "m")
