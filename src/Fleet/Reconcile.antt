-- ===== src/Fleet/Reconcile.antt =====
-- services/fleet/loop.go: `reconcile`, `ReconcileAll` and `Activate`.
mod Replicas
mod Actions
mod Activation
mod Tests
use forge_labs.Base.{
  ℕ, suc, ◌+◌, ◌*◌, Bool, true, false, ◌&&◌, Option, none, some, List, [], ◌∷◌, if◌then◌else◌, max,
  ltb, ℤ, pos, pos_part, ◌+ℤ◌, ◌*ℤ◌, ltb_ℤ, leb_ℤ, Str, insert, str_key, Float,
}
use forge_labs.Fleet.Hysteresis.{ScalingPolicy, apply}
use forge_labs.Fleet.Policy.{ModelIdentity, identity_key, policy_of, reload}
use forge_labs.Fleet.Manager.{
  Call, Manager, ready_count, provisioning_count, sum_active, discover_models, ceil_div, clamp,
}
use forge_labs.Fleet.Scale.{Poll, scale_up, drain_one, log_call, clear}

-- What a round meets: the time at which `Apply` is called, what the provisioner answers, and the
-- time and the looks of a drain.
pub record Round : Type 0 where
  pub now : ℕ
  pub provisioned : Option Str
  pub drain_start : ℕ
  pub polls : List Poll

module _ {F : Type 0} ⦃f : Float F⦄ where
  abbrev pub target_of : ScalingPolicy F → ℤ
  target_of policy =
      if leb_ℤ policy.target_concurrency (pos 0) then pos 16 else policy.target_concurrency

  -- `rawDesired`, from the active requests and the ready workers.
  unfoldable pub raw_desired : ScalingPolicy F → ℤ → ℕ → ℤ
  raw_desired policy active ready =
      let target = target_of policy in
      let raw = ceil_div active target in
      let capacity = target *ℤ pos (max ready 1) in
      if ltb_ℤ (pos 0) active
        && f.lt (f.div (f.num (pos_part active)) (f.num (pos_part capacity)))
            policy.scale_up_utilization
        && leb_ℤ raw (pos ready)
      then pos ready
      else raw

  -- The desired number before hysteresis.
  unfoldable pub wanted : Manager F → ModelIdentity → ℤ
  unfolding raw_desired
  wanted m id =
      let policy = policy_of m.policies id in
      clamp (raw_desired policy (sum_active m id) (ready_count m id)) policy.min_replicas
        policy.max_replicas

  -- What is recorded once `desired` is known.
  abbrev pub record_desired : Manager F → ModelIdentity → ℤ → Manager F
  record_desired m id n =
      let m1 = record m { desired = insert (identity_key id) n m.desired } in
      if m1.has_rdb then log_call (Call.set_desired (identity_key id) n) m1 else m1

  -- The `switch`.
  unfoldable pub act_on : Manager F → ModelIdentity → ℤ → ℕ → Round → Manager F × Bool
  act_on m id n ready r =
      if ltb_ℤ (pos (ready + provisioning_count m id)) n
      then scale_up m id r.provisioned
      else if ltb_ℤ n (pos ready)
      then drain_one m id r.drain_start r.polls
      else (clear id m, true)

  unfoldable pub reconcile : Manager F → ModelIdentity → Round → Manager F × Bool
  reconcile m id r =
      let ready = ready_count m id in
      let (hyst, n) =
        apply m.hyst (identity_key id) (wanted m id) (pos ready) (policy_of m.policies id) r.now in
      act_on (record_desired (record m { hyst = hyst }) id n) id n ready r

  pub reconcile_each : Manager F → List ModelIdentity → (ModelIdentity → Round) → Manager F
  reconcile_each m [] rounds = m
  reconcile_each m (id ∷ ids) rounds = reconcile_each (reconcile m id (rounds id)).0 ids rounds

  -- `ReconcileAll`, with what the query of the policies answers.
  pub reconcile_all :
      Manager F → Option (List (ScalingPolicy F)) → (ModelIdentity → Round) → Manager F
  reconcile_all m rows rounds =
      let m' = record m { policies = reload m.policies rows } in
      reconcile_each m' (discover_models m') rounds

module _ {F : Type 0} where
  -- `Activate`
  unfoldable pub activate : Manager F → Str → Option Str → Manager F × Bool
  activate m base answer =
      let id : ModelIdentity = record { base_model = base; adapter = [] } in
      if ltb 0 (ready_count m id) then (m, true) else scale_up m id answer
