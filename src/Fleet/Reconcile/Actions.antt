-- ===== src/Fleet/Reconcile/Actions.antt =====
-- What a round orders from the provisioner.
use forge_labs.Base.{
  ℕ, suc, ◌+◌, ◌≤◌, ◌<◌, ◌≡◌, ◌⊎◌, Option, none, some, List, [], ◌∷◌, arith, second, ◌*◌, ℤ, pos,
  ◌+ℤ◌, ◌≤ℤ◌, +ℤ_parts, -ℤ_parts, Str, Float,
}
use forge_labs.Fleet.Hysteresis.{Hysteresis, ScalingPolicy, apply}
use forge_labs.Fleet.Hysteresis.Step.{apply_step}
use forge_labs.Fleet.Policy.{ModelIdentity, identity_key, policy_of}
use forge_labs.Fleet.Manager.{
  draining, TrackedWorker, Call, Manager, ready_count, provisioning_count,
}
use forge_labs.Fleet.Scale.{Poll, begin_drain, wait_idle, drain_picked, drain_one, pick_idle}
use forge_labs.Fleet.Scale.States.{
  calls-update_worker, calls-wait_idle, calls-scale_up, calls-end_drain,
}
use forge_labs.Fleet.Reconcile.{Round, wanted, record_desired, act_on, reconcile}

abbrev pub provisions : List Call → ℕ
provisions [] = 0
provisions (Call.provision _ ∷ cs) = suc (provisions cs)
provisions (Call.retire _ ∷ cs) = provisions cs
provisions (Call.set_desired _ _ ∷ cs) = provisions cs
provisions (Call.set_draining _ ∷ cs) = provisions cs

abbrev pub retirements : List Call → ℕ
retirements [] = 0
retirements (Call.provision _ ∷ cs) = retirements cs
retirements (Call.retire _ ∷ cs) = suc (retirements cs)
retirements (Call.set_desired _ _ ∷ cs) = retirements cs
retirements (Call.set_draining _ ∷ cs) = retirements cs

module _ {F : Type 0} where
  apply-le :
      (h : Hysteresis) (key : Str) (desired current : ℤ) (policy : ScalingPolicy F) (now : ℕ)
      → h.step ≡ pos 1
      → (apply h key desired current policy now).1 ≤ℤ (current +ℤ pos 1)
  apply-le h key desired current policy now one =
      rw (apply_step h key desired current policy now one)
        (ground (arith, +ℤ_parts current (pos 1), -ℤ_parts current (pos 1)))

  begin_drain_orders :
      (m : Manager F) (key wid : Str)
      → (provisions (begin_drain m key wid).calls ≡ provisions m.calls)
        × (retirements (begin_drain m key wid).calls ≡ retirements m.calls)
  unfolding begin_drain
  begin_drain_orders m key wid =
      ground (arith, calls-update_worker key (λ w. record w { state = draining }) m)

  drain_picked_orders :
      (m : Manager F) (id : ModelIdentity) (start : ℕ) (polls : List Poll)
      (o : Option (Str × TrackedWorker))
      → (provisions (drain_picked m id start polls o).0.calls ≡ provisions m.calls)
        × (retirements (drain_picked m id start polls o).0.calls ≤ suc (retirements m.calls))
  unfolding drain_picked
  drain_picked_orders m id start polls none = omega arith
  drain_picked_orders m id start polls (some (key, w)) =
      let m' = begin_drain m key w.id in
      let m'' = (wait_idle (start + 120 * second) w.id m' polls).0 in
      ground (
        arith,
        begin_drain_orders m key w.id,
        calls-wait_idle (start + 120 * second) w.id polls m',
        calls-end_drain m'' id w.id,
      )

  drain_one_orders :
      (m : Manager F) (id : ModelIdentity) (start : ℕ) (polls : List Poll)
      → (provisions (drain_one m id start polls).0.calls ≡ provisions m.calls)
        × (retirements (drain_one m id start polls).0.calls ≤ suc (retirements m.calls))
  unfolding drain_one
  drain_one_orders m id start polls =
      drain_picked_orders m id start polls (pick_idle id none m.workers)

module _ {F : Type 0} ⦃f : Float F⦄ where
  record_desired_orders :
      (m : Manager F) (id : ModelIdentity) (n : ℤ)
      → (provisions (record_desired m id n).calls ≡ provisions m.calls)
        × (retirements (record_desired m id n).calls ≡ retirements m.calls)
        × ((record_desired m id n).workers ≡ m.workers)
  record_desired_orders m id n = ground arith

  act_on_orders :
      (m : Manager F) (id : ModelIdentity) (n : ℤ) (ready : ℕ) (r : Round)
      → n ≤ℤ pos (ready + 1)
      → (provisions (act_on m id n ready r).0.calls + retirements (act_on m id n ready r).0.calls
          ≤ suc (provisions m.calls + retirements m.calls))
        × (0 < provisioning_count m id
            → provisions (act_on m id n ready r).0.calls ≡ provisions m.calls)
  unfolding act_on
  act_on_orders m id n ready r h =
      ground (arith, calls-scale_up m id r.provisioned, drain_one_orders m id r.drain_start r.polls)

  -- With the hysteresis step 1, which `NewHysteresis` sets, a round for a model orders at most one
  -- thing, a worker to be provisioned or one to be retired; and it provisions none while one of
  -- the model is being provisioned.
  pub reconcile_orders :
      (m : Manager F) (id : ModelIdentity) (r : Round)
      → m.hyst.step ≡ pos 1
      → (provisions (reconcile m id r).0.calls + retirements (reconcile m id r).0.calls
          ≤ suc (provisions m.calls + retirements m.calls))
        × ((provisions (reconcile m id r).0.calls ≡ provisions m.calls)
            ⊎ (provisioning_count m id ≡ 0))
  unfolding reconcile provisioning_count
  reconcile_orders m id r one =
      let ready = ready_count m id in
      let answer =
        apply m.hyst (identity_key id) (wanted m id) (pos ready) (policy_of m.policies id) r.now in
      let le =
        apply-le m.hyst (identity_key id) (wanted m id) (pos ready) (policy_of m.policies id) r.now
          one in
      let m' = record_desired (record m { hyst = answer.0 }) id answer.1 in
      let bounded : answer.1 ≤ℤ pos (ready + 1) =
        ground (arith, le, +ℤ_parts (pos ready) (pos 1)) in
      let (few, waits) = act_on_orders m' id answer.1 ready r bounded in
      ground (arith, few, waits, record_desired_orders (record m { hyst = answer.0 }) id answer.1)
