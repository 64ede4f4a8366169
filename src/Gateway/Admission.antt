-- ===== src/Gateway/Admission.antt =====
-- services/gateway/handler.go: `tryAdmit` and `admitFromRanked`, on the counters of
-- `forge_labs.Routing.Inflight`; metrics are left out. `done` gives the slot of the first worker of
-- the result back.
mod Order
mod Tests
use forge_labs.Base.{
  Bool, true, false, Option, none, some, List, [], ◌∷◌, ◌++◌, ℤ, Str, Dict, str_key,
}
use forge_labs.Routing.Inflight.{try_track}

pub record SelectedWorker : Type 0 where
  pub id : Str
  pub endpoint : Str
  pub models : List Str

-- `tryAdmit`, with the counters if there is a tracker: the counters after it, or a refusal.
unfoldable pub try_admit : Option (Dict Str ℤ) → ℤ → Str → Option (Option (Dict Str ℤ))
try_admit none limit id = some none
try_admit (some m) limit id = elim (try_track m id limit) [ none ↦ none | some m' ↦ some (some m') ]

-- The loop of `admitFromRanked`, after the workers that were refused.
unfoldable pub admit_from :
    Dict Str ℤ
    → ℤ
    → List SelectedWorker
    → List SelectedWorker
    → Option (List SelectedWorker × Dict Str ℤ)
admit_from m limit refused [] = none
admit_from m limit refused (w ∷ ws) = elim (try_track m w.id limit) [
  | none ↦ admit_from m limit (refused ++ w ∷ []) ws
  | some m' ↦ some (w ∷ (refused ++ ws), m')
]

-- `none` is a refusal of all.
unfoldable pub admit_from_ranked :
    Option (Dict Str ℤ)
    → ℤ
    → List SelectedWorker
    → Option (List SelectedWorker × Option (Dict Str ℤ))
unfolding admit_from
admit_from_ranked counters limit [] = none
admit_from_ranked none limit (w ∷ ws) = some (w ∷ ws, none)
admit_from_ranked (some m) limit (w ∷ ws) = elim (admit_from m limit [] (w ∷ ws)) [
  | none ↦ none
  | some (ordered, m') ↦ some (ordered, some m')
]
