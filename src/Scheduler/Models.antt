-- ===== src/Scheduler/Models.antt =====
-- services/scheduler/filter_model.go: `servesModel` and `splitModel`.
mod Identity
mod Tests
use forge_labs.Base.{
  Bool, true, false, not, ◌&&◌, ◌||◌, Option, none, some, List, [], ◌∷◌, ◌++◌, is_empty,
  if◌then◌else◌, Str, bytes, str_eq, has_prefix, cut,
}

-- `none` is a result that is not ok.
unfoldable pub split_model : Str → Option (Str × Str)
split_model [] = none
split_model (c ∷ s) = elim (cut b'#' (c ∷ s)) [
  | none ↦ some (c ∷ s, [])
  | some (base, adapter) ↦ some (base, adapter)
]

-- The body of the loop for one model: whether it returns true.
unfoldable pub serves_one : Str → Str → Str → Str → Bool
unfolding split_model
serves_one want base adapter m =
    if str_eq m want || str_eq m base
    then true
    else if is_empty adapter && has_prefix (base ++ bytes "#") m
    then true
    else (elim (split_model m) [
      | none ↦ false
      | some (mb, ma) ↦ str_eq mb base && (is_empty adapter || str_eq ma adapter)
    ])

unfoldable pub serves_model : List Str → Str → Str → Str → Bool
serves_model [] want base adapter = false
serves_model (m ∷ ms) want base adapter =
    serves_one want base adapter m || serves_model ms want base adapter
