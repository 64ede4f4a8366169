-- ===== src/Catalog.antt =====
-- services/catalog/models.go and snapshot.go. What the repository answers is an argument, `none` for
-- an error; `SeedFromWorkers` only writes to the database. Redis and the loops are left out.
mod Resolve
mod Tests
use forge_labs.Base.{
  ℕ, Bool, true, false, Option, none, some, List, [], ◌∷◌, ◌++◌, Str, Dict, lookup, insert, str_key,
  is_nil,
}

pub record Model : Type 0 where
  pub id : Str
  pub name : Str
  pub base_model : Str
  pub adapter : Str

pub record ModelAssignment : Type 0 where
  pub id : Str
  pub model_id : Str
  pub worker_id : Str

-- `Snapshot`. Its identities have the fields of `Model`.
pub record CatalogSnapshot : Type 0 where
  pub by_name : Dict Str Model
  pub workers_by_model : Dict Str (List Str)
  pub built_at : ℕ

-- A slice that may be nil.
abbrev pub or_nil : Option (List Str) → List Str
or_nil none = []
or_nil (some ws) = ws

-- The loops of `Rebuild`.
unfoldable pub models_by_name : Dict Str Model → List Model → Dict Str Model
models_by_name d [] = d
models_by_name d (m ∷ ms) = models_by_name (insert m.name m d) ms

unfoldable pub assigned_workers : Dict Str (List Str) → List ModelAssignment → Dict Str (List Str)
assigned_workers d [] = d
assigned_workers d (a ∷ as_) =
    assigned_workers (insert a.model_id (or_nil (lookup a.model_id d) ++ a.worker_id ∷ []) d) as_

unfoldable pub built : List Model → List ModelAssignment → ℕ → CatalogSnapshot
unfolding models_by_name assigned_workers
built models assigns now = record {
  by_name = models_by_name [] models;
  workers_by_model = assigned_workers [] assigns;
  built_at = now;
}

-- `Rebuild`: the holder, and whether there was no error.
pub rebuild :
    Option CatalogSnapshot
    → Option (List Model)
    → Option (List ModelAssignment)
    → ℕ
    → Option CatalogSnapshot × Bool
rebuild held none assigns now = (held, false)
rebuild held (some models) none now = (held, false)
rebuild held (some models) (some assigns) now = (some (built models assigns now), true)

-- `Resolve`, of a snapshot that is not nil; `none` is a result that is not ok.
unfoldable pub resolve : CatalogSnapshot → Str → Option (Model × List Str)
resolve s name = elim (lookup name s.by_name) [
  | none ↦ none
  | some m ↦ some (m, or_nil (lookup m.id s.workers_by_model))
]

-- `Empty`
unfoldable pub is_empty_catalog : Option CatalogSnapshot → Bool
is_empty_catalog none = true
is_empty_catalog (some s) = is_nil s.by_name

pub identities : Dict Str Model → List Model
identities [] = []
identities ((_, m) ∷ d) = m ∷ identities d

-- `ModelNames`
pub model_names : Option CatalogSnapshot → List Model
model_names none = []
model_names (some s) = identities s.by_name
