-- ===== src/Fleet/Manager.antt =====
-- services/fleet/loop.go: the manager's state, what it counts, and the methods that set a worker's
-- number of requests and report what is wanted. Metrics are left out. The calls that the manager
-- makes of the provisioner and of Redis are listed in `calls`, the latest first.
use forge_labs.Base.{
  is_member, ℕ, zero, suc, ◌+◌, ◌-◌, ◌/◌, Bool, true, false, not, ◌&&◌, Option, none, some, List,
  [], ◌∷◌, length, keep_if, if◌then◌else◌, is_empty, ℤ, pos, pos_part, ◌+ℤ◌, ltb_ℤ, leb_ℤ, Str,
  str_eq, Dict, lookup, insert, str_key, Float,
}
use forge_labs.Routing.Snapshot.{WorkerView, RoutingSnapshot}
use forge_labs.Fleet.Hysteresis.{Hysteresis}
use forge_labs.Fleet.Policy.{ModelIdentity, identity_key, PolicyCache, policy_of}

pub data WorkerState : Type 0 where
  provisioning ready draining retired : WorkerState

pub record TrackedWorker : Type 0 where
  pub id : Str
  pub model : ModelIdentity
  pub state : WorkerState
  pub in_flight : ℤ

pub data Call : Type 0 where
  provision : ModelIdentity → Call
  retire : Str → Call
  set_desired : Str → ℤ → Call
  set_draining : Str → Call

-- `snapshot` is what the holder holds. Without a lifecycle a new worker is ready at once.
pub record Manager (F : Type 0) : Type 0 where
  pub policies : PolicyCache F
  pub snapshot : Option (RoutingSnapshot F)
  pub has_lifecycle : Bool
  pub has_rdb : Bool
  pub hyst : Hysteresis
  pub workers : Dict Str TrackedWorker
  pub desired : Dict Str ℤ
  pub calls : List Call

abbrev pub is_state : WorkerState → WorkerState → Bool
is_state provisioning provisioning = true
is_state ready ready = true
is_state draining draining = true
is_state retired retired = true
is_state _ _ = false

-- `w.Model.Key() == id.Key()`
abbrev pub of_model : ModelIdentity → TrackedWorker → Bool
of_model id w = str_eq (identity_key w.model) (identity_key id)

-- A set of strings, as the map to `struct{}` that the code fills.
abbrev pub add : Str → List Str → List Str
add a s = if is_member s a then s else a ∷ s

abbrev pub views : {F : Type 0} → Option (RoutingSnapshot F) → List (WorkerView F)
views none = []
views (some s) = s.workers

-- The second loop of `readyCount`.
unfoldable pub ready_tracked : ModelIdentity → List Str → Dict Str TrackedWorker → List Str
ready_tracked id seen [] = seen
ready_tracked id seen ((_, w) ∷ ws) =
    ready_tracked id (if of_model id w && is_state w.state ready then add w.id seen else seen) ws

sum_values : ℤ → Dict Str ℤ → ℤ
sum_values total [] = total
sum_values total ((_, v) ∷ vs) = sum_values (total +ℤ v) vs

-- The second loop of `discoverModels`.
models_of_tracked : Dict Str ModelIdentity → Dict Str TrackedWorker → Dict Str ModelIdentity
models_of_tracked seen [] = seen
models_of_tracked seen ((_, w) ∷ ws) =
    models_of_tracked
      (if not (is_state w.state retired) then insert (identity_key w.model) w.model seen else seen)
      ws

values : {V : Type 0} → Dict Str V → List V
values [] = []
values ((_, v) ∷ d) = v ∷ values d

module _ {F : Type 0} where
  abbrev pub is_view_of : ModelIdentity → WorkerView F → Bool
  is_view_of id w = str_eq w.base_model id.base_model && str_eq w.adapter id.adapter

  -- The first loop of `readyCount`.
  unfoldable pub ready_views : ModelIdentity → List Str → List (WorkerView F) → List Str
  ready_views id seen [] = seen
  ready_views id seen (w ∷ ws) =
      ready_views id (if is_view_of id w && (w.healthy && w.ready) then add w.id seen else seen) ws

  unfoldable pub ready_count : Manager F → ModelIdentity → ℕ
  unfolding ready_views ready_tracked
  ready_count m id = length (ready_tracked id (ready_views id [] (views m.snapshot)) m.workers)

  unfoldable pub provisioning_count : Manager F → ModelIdentity → ℕ
  provisioning_count m id =
      length (keep_if (λ e. of_model id e.1 && is_state e.1.state provisioning) m.workers)

  -- The first loop of `sumActive`. The last view of a worker counts.
  active_views : ModelIdentity → Dict Str ℤ → List (WorkerView F) → Dict Str ℤ
  active_views id seen [] = seen
  active_views id seen (w ∷ ws) =
      active_views id
        (if is_view_of id w then insert w.id (w.queue_depth +ℤ w.in_flight) seen else seen) ws

  unfoldable pub sum_active : Manager F → ModelIdentity → ℤ
  unfolding active_views sum_values
  sum_active m id = sum_values (pos 0) (active_views id [] (views m.snapshot))

  -- The first loop of `discoverModels`.
  models_of_views : Dict Str ModelIdentity → List (WorkerView F) → Dict Str ModelIdentity
  models_of_views seen [] = seen
  models_of_views seen (w ∷ ws) =
      let id : ModelIdentity = record { base_model = w.base_model; adapter = w.adapter } in
      models_of_views (if is_empty w.base_model then seen else insert (identity_key id) id seen) ws

  unfoldable pub discover_models : Manager F → List ModelIdentity
  unfolding models_of_views models_of_tracked values
  discover_models m = values (models_of_tracked (models_of_views [] (views m.snapshot)) m.workers)

  -- A write to a field of `m.workers[wid]`, if there is one.
  unfoldable pub update_worker : Str → (TrackedWorker → TrackedWorker) → Manager F → Manager F
  update_worker wid g m = elim (lookup wid m.workers) [
    | none ↦ m
    | some w ↦ record m { workers = insert wid (g w) m.workers }
  ]

  abbrev pub set_state : Str → WorkerState → Manager F → Manager F
  set_state wid s m = update_worker wid (λ w. record w { state = s }) m

  -- `SetInFlight`
  unfoldable pub set_in_flight : Manager F → Str → ℤ → Manager F
  set_in_flight m wid n = update_worker wid (λ w. record w { in_flight = n }) m

  -- `Desired`
  unfoldable pub desired_of : Manager F → ModelIdentity → ℤ
  desired_of m id = elim (lookup (identity_key id) m.desired) [ none ↦ pos 0 | some n ↦ n ]

-- `ceilDiv`
unfoldable pub ceil_div : ℤ → ℤ → ℤ
ceil_div a b =
    if leb_ℤ b (pos 0)
    then pos 0
    else if leb_ℤ a (pos 0)
    then pos 0
    else pos ((pos_part a + pos_part b - 1) / pos_part b)

unfoldable pub clamp : ℤ → ℤ → ℤ → ℤ
clamp v lo hi = if ltb_ℤ v lo then lo else if ltb_ℤ (pos 0) hi && ltb_ℤ hi v then hi else v

module _ {F : Type 0} ⦃f : Float F⦄ where
  -- `NeedsActivation`
  unfoldable pub needs_activation : Manager F → Str → Bool
  needs_activation m base =
      let id : ModelIdentity = record { base_model = base; adapter = [] } in
      if ltb_ℤ (pos 0) (policy_of m.policies id).min_replicas
      then false
      else elim (ready_count m id) [ zero ↦ true | suc n ↦ false ]
