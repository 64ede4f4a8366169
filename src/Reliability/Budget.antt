-- ===== src/Reliability/Budget.antt =====
-- services/gateway/reliability/budget.go. A method on `*RetryBudget` returns the new budget.
mod Funding
mod Tests
use forge_labs.Base.{
  ◌≡◌, refl, Bool, true, false, not, List, [], ◌∷◌, arith, if◌then◌else◌, Float, IsOrdered,
  IsMonotone,
}

pub record RetryBudget (F : Type 0) : Type 0 where
  pub tokens : F
  pub max_tokens : F
  pub token_ratio : F

module _ {F : Type 0} ⦃f : Float F⦄ where
  -- `a <= b`
  abbrev pub le : F → F → Bool
  le a b = not (f.lt b a)

  pub new_retry_budget : F → F → RetryBudget F
  new_retry_budget max_tokens token_ratio =
      let cap = if le max_tokens (f.num 0) then f.num 100 else max_tokens in
      let ratio = if le token_ratio (f.num 0) then f.div (f.num 1) (f.num 10) else token_ratio in
      record { tokens = cap; max_tokens = cap; token_ratio = ratio }

  unfoldable pub may_retry : RetryBudget F → Bool
  may_retry b = f.lt (f.div b.max_tokens (f.num 2)) b.tokens

  unfoldable pub on_failure : RetryBudget F → RetryBudget F
  on_failure b =
      let left = f.sub b.tokens (f.num 1) in
      record b { tokens = if f.lt left (f.num 0) then f.num 0 else left }

  unfoldable pub on_success : RetryBudget F → RetryBudget F
  on_success b =
      let more = f.add b.tokens b.token_ratio in
      record b { tokens = if f.lt b.max_tokens more then b.max_tokens else more }

  -- The tokens stay between 0 and the maximum, and a success gives some back.
  pub record IsFunded (b : RetryBudget F) : Type 0 where
    pub not_negative : f.lt b.tokens (f.num 0) ≡ false
    pub capped : f.lt b.max_tokens b.tokens ≡ false
    pub positive_cap : f.lt b.max_tokens (f.num 0) ≡ false
    pub positive_ratio : f.lt b.token_ratio (f.num 0) ≡ false

pub data Outcome : Type 0 where
  succeeded failed : Outcome

module _ {F : Type 0} ⦃f : Float F⦄ where
  pub report : RetryBudget F → Outcome → RetryBudget F
  report b succeeded = on_success b
  report b failed = on_failure b

  pub report_all : RetryBudget F → List Outcome → RetryBudget F
  report_all b [] = b
  report_all b (o ∷ os) = report_all (report b o) os
