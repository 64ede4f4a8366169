-- ===== src/Gateway/Admission/Tests.antt =====
-- Two workers, the first of which is full, and the theorem on them.
use forge_labs.Base.{refl, [], ◌∷◌, some, ℤ, pos, Str, bytes, Dict}
use forge_labs.Gateway.Admission.{SelectedWorker, admit_from_ranked}
use forge_labs.Gateway.Admission.Order.{Admitted, admit_from_ranked-Admitted}

abbrev worker : Str → SelectedWorker
worker id = record { id = id; endpoint = []; models = [] }

abbrev counters : Dict Str ℤ
counters = (bytes "a", pos 2) ∷ []

admit_from_ranked-Admitted_example :
    Admitted counters
      (pos 2)
      (worker (bytes "a") ∷ worker (bytes "b") ∷ [])
      (admit_from_ranked (some counters) (pos 2) (worker (bytes "a") ∷ worker (bytes "b") ∷ []))
admit_from_ranked-Admitted_example =
    admit_from_ranked-Admitted counters (pos 2) (worker (bytes "a") ∷ worker (bytes "b") ∷ []) refl
