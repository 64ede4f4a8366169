-- ===== src/Fleet/Reconcile/Replicas.antt =====
-- How many replicas are wanted.
use forge_labs.Base.{
  ℕ, suc, ◌+◌, ◌*◌, ◌-◌, ◌/◌, ◌≤◌, ◌<◌, ◌↔◌, arith, max, ℤ, pos, pos_part, ◌≤ℤ◌, Float,
}
use native.Mathlib.Nat.{div-lt_iff_lt-mul, suc-mul}
use forge_labs.Fleet.Hysteresis.{ScalingPolicy}
use forge_labs.Fleet.Manager.{ceil_div}
use forge_labs.Fleet.Reconcile.{target_of, raw_desired}

-- `ceilDiv` is the least number of shares of size `b` that cover `a`.
ceil_div-le : (a b n : ℕ) → 0 < b → ((a + b - 1) / b ≤ n) ↔ (a ≤ n * b)
ceil_div-le a b n h =
    let share : ((a + b - 1) / b < suc n) ↔ (a + b - 1 < suc n * b) = div-lt_iff_lt-mul h in
    let grow = suc-mul n b in
    (
      λ p. let q : a + b - 1 < suc n * b = share.0 (omega arith) in omega arith,
      λ p. let q : (a + b - 1) / b < suc n = share.1 (omega arith) in omega arith,
    )

module _ {F : Type 0} ⦃f : Float F⦄ where
  target_pos : (policy : ScalingPolicy F) → 0 < pos_part (target_of policy)
  target_pos policy = ground arith

  -- The replicas that are asked for before the limits can take all active requests at the target
  -- concurrency; and if `n` replicas can, they are not more than `n`, or than are ready already.
  pub raw_desired_lem :
      (policy : ScalingPolicy F) (active : ℤ) (ready n : ℕ)
      → pos_part active ≤ n * pos_part (target_of policy)
      → (pos_part active ≤ pos_part (raw_desired policy active ready) * pos_part (target_of policy))
        × (raw_desired policy active ready ≤ℤ pos (max n ready))
  unfolding raw_desired ceil_div
  raw_desired_lem policy active ready n h =
      let t = pos_part (target_of policy) in
      let a = pos_part active in
      let q = (a + t - 1) / t in
      (
        ground (
          arith,
          target_pos policy,
          ceil_div-le a t q (target_pos policy),
          ceil_div-le a t ready (target_pos policy),
        ),
        ground (arith, target_pos policy, ceil_div-le a t n (target_pos policy)),
      )
