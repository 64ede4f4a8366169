-- ===== src/Catalog/Resolve.antt =====
-- What a rebuilt catalog resolves.
use forge_labs.Base.{
  ℕ, ◌≡◌, refl, ◌∙◌, ap, Option, none, some, List, [], ◌∷◌, ◌++◌, map, keep_if, arith,
  if◌then◌else◌, Str, str_eq, Dict, lookup, insert, lookup-insert, lookup_same, str_key,
}
use forge_labs.Catalog.{
  Model, ModelAssignment, CatalogSnapshot, or_nil, models_by_name, assigned_workers, built, resolve,
}

-- The last row of a name.
abbrev pub last_named : Str → Option Model → List Model → Option Model
last_named name found [] = found
last_named name found (m ∷ ms) = last_named name (if str_eq m.name name then some m else found) ms

-- The workers that are assigned to a model, in the order of the rows.
abbrev pub workers_of : Str → List ModelAssignment → List Str
workers_of id rows = map (λ a. a.worker_id) (keep_if (λ a. str_eq a.model_id id) rows)

lookup-models_by_name :
    (name : Str) (ms : List Model) (d : Dict Str Model)
    → lookup name (models_by_name d ms) ≡ last_named name (lookup name d) ms
unfolding models_by_name
lookup-models_by_name name [] d = refl
lookup-models_by_name name (m ∷ ms) d =
    lookup-models_by_name name ms (insert m.name m d)
    ∙ ap (λ o. last_named name o ms) (lookup-insert m.name name m d)

append_assoc {ℓ} :
    {A : Type ℓ} (xs : List A) (y : A) (ys : List A) → (xs ++ y ∷ []) ++ ys ≡ xs ++ y ∷ ys
append_assoc [] y ys = refl
append_assoc (x ∷ xs) y ys = ap (λ l. x ∷ l) (append_assoc xs y ys)

append_nil {ℓ} : {A : Type ℓ} (xs : List A) → xs ++ [] ≡ xs
append_nil [] = refl
append_nil (x ∷ xs) = ap (λ l. x ∷ l) (append_nil xs)

lookup-assigned_workers :
    (id : Str) (rows : List ModelAssignment) (d : Dict Str (List Str))
    → or_nil (lookup id (assigned_workers d rows)) ≡ or_nil (lookup id d) ++ workers_of id rows
unfolding assigned_workers
lookup-assigned_workers id [] d = ground (arith, append_nil (or_nil (lookup id d)))
lookup-assigned_workers id (a ∷ rows) d =
    let old = or_nil (lookup a.model_id d) in
    ground (
      arith,
      lookup-assigned_workers id rows (insert a.model_id (old ++ a.worker_id ∷ []) d),
      lookup-insert a.model_id id (old ++ a.worker_id ∷ []) d,
      lookup_same a.model_id id d,
      append_assoc (or_nil (lookup id d)) a.worker_id (workers_of id rows),
    )

resolve_found :
    (s : CatalogSnapshot) (name : Str) (o : Option Model)
    → lookup name s.by_name ≡ o
    → resolve s name
      ≡ (elim o [ none ↦ none | some m ↦ some (m, or_nil (lookup m.id s.workers_by_model)) ])
unfolding resolve
resolve_found s name none e = rw (e, resolve)
resolve_found s name (some m) e = rw (e, resolve)

workers_found :
    (assigns : List ModelAssignment) (o : Option Model)
    → ◌≡◌ {A = Option (Model × List Str)}
        (elim o [
          | none ↦ none
          | some m ↦ some (m, or_nil (lookup m.id (assigned_workers [] assigns)))
        ])
        (elim o [ none ↦ none | some m ↦ some (m, workers_of m.id assigns) ])
unfolding lookup
workers_found assigns none = refl
workers_found assigns (some m) = ap (λ ws. some (m, ws)) (lookup-assigned_workers m.id assigns [])

-- A rebuilt catalog resolves a name to the last model row of that name, with the workers that are
-- assigned to the row's ID, in their order; a name without a row is not resolved.
pub resolve-built :
    (models : List Model) (assigns : List ModelAssignment) (now : ℕ) (name : Str)
    → resolve (built models assigns now) name ≡ (elim (last_named name none models) [
      | none ↦ none
      | some m ↦ some (m, workers_of m.id assigns)
    ])
unfolding built lookup
resolve-built models assigns now name =
    resolve_found (built models assigns now) name (last_named name none models)
      (lookup-models_by_name name models [])
    ∙ workers_found assigns (last_named name none models)
