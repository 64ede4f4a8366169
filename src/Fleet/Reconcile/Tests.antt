-- ===== src/Fleet/Reconcile/Tests.antt =====
-- A model with no policy of its own and no worker, and the theorems on it.
use forge_labs.Base.{
  suc, ◌+◌, ◌*◌, ◌≤◌, ◌≡◌, ◌⊎◌, refl, arith, max, some, [], ℤ, pos, pos_part, ◌≤ℤ◌, bytes, str_key,
}
use forge_labs.Fixed.{fixed}
use forge_labs.Fleet.Policy.{default_policy}
use forge_labs.Fleet.Manager.{ready_count, provisioning_count}
use forge_labs.Fleet.Scale.Tests.{model, manager}
use forge_labs.Fleet.Reconcile.{Round, target_of, raw_desired, reconcile}
use forge_labs.Fleet.Reconcile.Replicas.{raw_desired_lem}
use forge_labs.Fleet.Reconcile.Actions.{provisions, retirements, reconcile_orders}

abbrev round : Round
round = record { now = 1; provisioned = some (bytes "w"); drain_start = 1; polls = [] }

raw_desired_lem_example :
    (33
      ≤ pos_part (raw_desired {F = ℤ} (default_policy model) (pos 33) 1)
        * pos_part (target_of {F = ℤ} (default_policy model)))
    × (raw_desired {F = ℤ} (default_policy model) (pos 33) 1 ≤ℤ pos (max 3 1))
raw_desired_lem_example = raw_desired_lem (default_policy model) (pos 33) 1 3 (omega arith)

reconcile_orders_example :
    (provisions (reconcile (manager []) model round).0.calls
        + retirements (reconcile (manager []) model round).0.calls
      ≤ suc (provisions [] + retirements []))
    × ((provisions (reconcile (manager []) model round).0.calls ≡ provisions [])
        ⊎ (provisioning_count (manager []) model ≡ 0))
reconcile_orders_example = reconcile_orders (manager []) model round refl

none_ready : ready_count (manager []) model ≡ 0
unfolding ready_count
none_ready = refl
