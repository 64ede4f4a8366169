-- ===== src/Fleet/Scale.antt =====
-- services/fleet/loop.go: `scaleUp` with the goroutine that it starts, and `drainOne`. What the
-- provisioner answers is an argument; `none` is its error.
pub mod States
pub mod Tests
use forge_labs.Base.{
  ℕ, ◌+◌, ◌*◌, Bool, true, false, not, ◌&&◌, Option, none, some, List, [], ◌∷◌, ◌++◌, if◌then◌else◌,
  ltb, ℤ, pos, ltb_ℤ, leb_ℤ, second, Str, bytes, Dict, lookup, insert, delete, str_key,
}
use forge_labs.Fleet.Hysteresis.{clear_pending}
use forge_labs.Fleet.Policy.{ModelIdentity, identity_key}
use forge_labs.Fleet.Manager.{
  WorkerState, provisioning, ready, draining, retired, TrackedWorker, Call, Manager, is_state,
  of_model, update_worker, set_state, set_in_flight,
}

-- `provisioning-` and the key of the model.
abbrev pub placeholder : ModelIdentity → Str
placeholder id = bytes "provisioning-" ++ identity_key id

abbrev pub new_worker : Str → ModelIdentity → TrackedWorker
new_worker wid id = record { id = wid; model = id; state = provisioning; in_flight = pos 0 }

-- A look at the worker that drains: the time, whether the context is done, and what other
-- goroutines have passed to `SetInFlight` since the last look.
pub record Poll : Type 0 where
  pub now : ℕ
  pub cancelled : Bool
  pub updates : List (Str × ℤ)

-- The smallest number of requests among the ready workers of a model, the first of equals.
unfoldable pub pick_idle :
    ModelIdentity
    → Option (Str × TrackedWorker)
    → Dict Str TrackedWorker
    → Option (Str × TrackedWorker)
pick_idle id best [] = best
pick_idle id best ((k, w) ∷ ws) =
    pick_idle id
      (if of_model id w && is_state w.state ready
        then (elim best [
          | none ↦ some (k, w)
          | some (j, b) ↦ if ltb_ℤ w.in_flight b.in_flight then some (k, w) else some (j, b)
        ])
        else best)
      ws

abbrev pub load_of : Option TrackedWorker → ℤ
load_of none = pos 0
load_of (some w) = w.in_flight

module _ {F : Type 0} where
  abbrev pub log_call : Call → Manager F → Manager F
  log_call c m = record m { calls = c ∷ m.calls }

  abbrev pub clear : ModelIdentity → Manager F → Manager F
  clear id m = record m { hyst = clear_pending m.hyst (identity_key id) }

  -- `scaleUp` up to the call of the provisioner, that call included.
  unfoldable pub begin_scale_up : Manager F → ModelIdentity → Manager F
  begin_scale_up m id =
      log_call (Call.provision id)
        (record m { workers = insert (placeholder id) (new_worker (placeholder id) id) m.workers })

  -- The rest of `scaleUp`, and whether there was no error.
  unfoldable pub end_scale_up : Manager F → ModelIdentity → Option Str → Manager F × Bool
  unfolding update_worker
  end_scale_up m id none = (record m { workers = delete (placeholder id) m.workers }, false)
  end_scale_up m id (some wid) =
      let m1 = clear id (record m {
        workers = insert wid (new_worker wid id) (delete (placeholder id) m.workers);
      }) in
      (if m1.has_lifecycle then m1 else set_state wid ready m1, true)

  unfoldable pub scale_up : Manager F → ModelIdentity → Option Str → Manager F × Bool
  unfolding begin_scale_up end_scale_up
  scale_up m id answer = end_scale_up (begin_scale_up m id) id answer

  -- The steps of the goroutine that waits: the callback that `WaitReady` makes, and what follows
  -- `WaitReady` without and with an error.
  unfoldable pub on_worker_ready : Manager F → Str → Manager F
  on_worker_ready m wid = set_state wid ready m

  unfoldable pub wait_done : Manager F → Str → Manager F
  wait_done m wid = set_state wid ready m

  unfoldable pub wait_failed : Manager F → Str → Manager F
  wait_failed m wid = set_state wid retired (log_call (Call.retire wid) m)

  unfoldable pub set_all : Manager F → List (Str × ℤ) → Manager F
  set_all m [] = m
  set_all m ((wid, n) ∷ us) = set_all (set_in_flight m wid n) us

  -- The loop of `drainOne`: whether it ends with the context not done. The looks end when the
  -- deadline has passed.
  unfoldable pub wait_idle : ℕ → Str → Manager F → List Poll → Manager F × Bool
  unfolding set_all
  wait_idle deadline wid m [] = (m, true)
  wait_idle deadline wid m (p ∷ ps) =
      let m' = set_all m p.updates in
      let rest = wait_idle deadline wid m' ps in
      if not (ltb p.now deadline)
      then (m', true)
      else if leb_ℤ (load_of (lookup wid m'.workers)) (pos 0)
      then (m', true)
      else if p.cancelled
      then (m', false)
      else rest

  -- From `Retire` on.
  unfoldable pub end_drain : Manager F → ModelIdentity → Str → Manager F
  unfolding update_worker
  end_drain m id wid = clear id (set_state wid retired (log_call (Call.retire wid) m))

  -- The worker is marked, and Redis is told.
  unfoldable pub begin_drain : Manager F → Str → Str → Manager F
  unfolding update_worker
  begin_drain m key wid =
      let m' = set_state key draining m in
      if m'.has_rdb then log_call (Call.set_draining wid) m' else m'

  unfoldable pub drain_picked :
      Manager F → ModelIdentity → ℕ → List Poll → Option (Str × TrackedWorker) → Manager F × Bool
  drain_picked m id start polls none = (clear id m, true)
  drain_picked m id start polls (some (key, w)) =
      let (m', idle) = wait_idle (start + 120 * second) w.id (begin_drain m key w.id) polls in
      if idle then (end_drain m' id w.id, true) else (m', false)

  unfoldable pub drain_one : Manager F → ModelIdentity → ℕ → List Poll → Manager F × Bool
  unfolding pick_idle
  drain_one m id start polls = drain_picked m id start polls (pick_idle id none m.workers)
