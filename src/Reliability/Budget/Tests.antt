-- ===== src/Reliability/Budget/Tests.antt =====
-- The theorems on the retry budget at concrete inputs.
use forge_labs.Fixed.{fixed, fixed-IsOrdered, fixed-IsMonotone}
use forge_labs.Base.{refl, [], ◌∷◌, pos}
use forge_labs.Reliability.Budget.{IsFunded, succeeded, failed, new_retry_budget, report_all}
use forge_labs.Reliability.Budget.Funding.{history-IsFunded}

history-IsFunded_example :
    IsFunded (report_all (new_retry_budget (pos 0) (pos 0)) (failed ∷ succeeded ∷ failed ∷ []))
history-IsFunded_example =
    history-IsFunded fixed fixed-IsOrdered fixed-IsMonotone (pos 0) (pos 0)
      (failed ∷ succeeded ∷ failed ∷ []) refl refl
