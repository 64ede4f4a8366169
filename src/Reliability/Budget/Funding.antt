-- ===== src/Reliability/Budget/Funding.antt =====
-- The retry budget over any history of outcomes.
use forge_labs.Base.{
  ◌≡◌, true, false, List, [], ◌∷◌, arith, Float, IsOrdered, IsMonotone, le_trans_float,
  lt_le_trans_float, lt_asymm_float,
}
use forge_labs.Reliability.Budget.{
  RetryBudget, IsFunded, Outcome, succeeded, failed, may_retry, on_failure, on_success, report,
  report_all, new_retry_budget,
}

module _ {F : Type 0} (f : Float F) (o : IsOrdered f) (m : IsMonotone f) where
  on_failure-IsFunded :
      (b : RetryBudget F) → IsFunded ⦃f = f⦄ b → IsFunded ⦃f = f⦄ (on_failure ⦃f = f⦄ b)
  unfolding on_failure
  on_failure-IsFunded b v = ground (
    arith,
    o.lt_irrefl (f.num 0),
    m.sub_one_le b.tokens,
    le_trans_float f o (f.sub b.tokens (f.num 1)) b.tokens b.max_tokens,
  )

  on_success-IsFunded :
      (b : RetryBudget F) → IsFunded ⦃f = f⦄ b → IsFunded ⦃f = f⦄ (on_success ⦃f = f⦄ b)
  unfolding on_success
  on_success-IsFunded b v = ground (
    arith,
    o.lt_irrefl b.max_tokens,
    m.le_add b.tokens b.token_ratio,
    le_trans_float f o (f.num 0) b.tokens (f.add b.tokens b.token_ratio),
  )

  new-IsFunded :
      (cap ratio : F)
      → f.lt (f.num 100) (f.num 0) ≡ false
      → f.lt (f.div (f.num 1) (f.num 10)) (f.num 0) ≡ false
      → IsFunded ⦃f = f⦄ (new_retry_budget ⦃f = f⦄ cap ratio)
  unfolding new_retry_budget
  new-IsFunded cap ratio h k = ground (
    arith,
    o.lt_irrefl cap,
    o.lt_irrefl (f.num 100),
    lt_asymm_float f o (f.num 0) cap,
    lt_asymm_float f o (f.num 0) ratio,
  )

  report_all-IsFunded :
      (os : List Outcome) (b : RetryBudget F)
      → IsFunded ⦃f = f⦄ b
      → IsFunded ⦃f = f⦄ (report_all ⦃f = f⦄ b os)
  unfolding report_all report
  report_all-IsFunded [] b v = v
  report_all-IsFunded (succeeded ∷ os) b v =
      report_all-IsFunded os (on_success ⦃f = f⦄ b) (on_success-IsFunded b v)
  report_all-IsFunded (failed ∷ os) b v =
      report_all-IsFunded os (on_failure ⦃f = f⦄ b) (on_failure-IsFunded b v)

  -- A new budget, made from any arguments, stays between 0 and its maximum over every history of
  -- successes and failures.
  pub history-IsFunded :
      (cap ratio : F) (os : List Outcome)
      → f.lt (f.num 100) (f.num 0) ≡ false
      → f.lt (f.div (f.num 1) (f.num 10)) (f.num 0) ≡ false
      → IsFunded ⦃f = f⦄ (report_all ⦃f = f⦄ (new_retry_budget ⦃f = f⦄ cap ratio) os)
  history-IsFunded cap ratio os h k =
      report_all-IsFunded os (new_retry_budget ⦃f = f⦄ cap ratio) (new-IsFunded cap ratio h k)

  -- Retries are switched off by failures and on by successes only: on a funded budget a failure
  -- never makes a refused retry allowed, and a success never makes an allowed retry refused.
  pub may_retry_monotone :
      (b : RetryBudget F)
      → IsFunded ⦃f = f⦄ b
      → (may_retry ⦃f = f⦄ b ≡ false → may_retry ⦃f = f⦄ (on_failure ⦃f = f⦄ b) ≡ false)
        × (may_retry ⦃f = f⦄ b ≡ true → may_retry ⦃f = f⦄ (on_success ⦃f = f⦄ b) ≡ true)
  unfolding may_retry on_failure on_success
  may_retry_monotone b v =
      let half = f.div b.max_tokens (f.num 2) in
      (
        λ h. ground (
          arith,
          le_trans_float f o (f.sub b.tokens (f.num 1)) b.tokens half,
          le_trans_float f o (f.num 0) b.tokens half,
          m.sub_one_le b.tokens,
        ),
        λ h. ground (
          arith,
          lt_le_trans_float f o half b.tokens b.max_tokens,
          lt_le_trans_float f o half b.tokens (f.add b.tokens b.token_ratio),
          m.le_add b.tokens b.token_ratio,
        ),
      )
