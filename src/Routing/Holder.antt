-- ===== src/Routing/Holder.antt =====
-- services/routing/holder.go and the `PolicyHolder` of policy.go: a pointer to the newest value,
-- by its epoch or version. The loop of `StoreIfNewer` ends with the swap that succeeds, at which
-- the pointer still holds the value that was compared, so the call is one step on the pointer.
mod Newest
mod Tests
use forge_labs.Base.{ℕ, Bool, true, false, Option, none, some, List, [], ◌∷◌, leb, if◌then◌else◌}

-- `SnapshotHolder` and `PolicyHolder` differ in the type of the value and the name of its stamp:
-- `Epoch` and `Version`, both `uint64`.
module _ {V : Type 0} (stamp : V → ℕ) where
  -- `Store`, of the snapshot holder alone.
  pub store : Option V → Option V → Option V
  store cur none = cur
  store cur (some v) = some v

  unfoldable pub store_if_newer : Option V → Option V → Option V × Bool
  store_if_newer cur none = (cur, false)
  store_if_newer none (some v) = (some v, true)
  store_if_newer (some c) (some v) =
      if leb (stamp v) (stamp c) then (some c, false) else (some v, true)

  -- The holder after values arrive in an order.
  unfoldable pub deliver : Option V → List V → Option V
  deliver cur [] = cur
  deliver cur (v ∷ vs) = deliver (store_if_newer cur (some v)).0 vs
