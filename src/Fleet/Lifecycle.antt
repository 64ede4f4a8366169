-- ===== src/Fleet/Lifecycle.antt =====
-- services/fleet/lifecycle.go: when a provisioned worker is ready, and the wait for it. What HTTP, the
-- database and the clock answer are arguments; durations and times are counts of nanoseconds.
pub mod Register
mod Ends
mod Tests
use forge_labs.Base.{
  has_part, ℕ, zero, suc, ◌+◌, ◌*◌, Bool, true, false, not, ◌&&◌, ◌||◌, Option, none, some, List,
  [], ◌∷◌, ◌++◌, if◌then◌else◌, ◌==◌, ltb, is_nil, is_empty, is_some, has_prefix, drop, ℤ, pos,
  leb_ℤ, second, Str, bytes, str_eq,
}
use forge_labs.Routing.Snapshot.{WorkerView, RoutingSnapshot}
use forge_labs.Fleet.Policy.{ModelIdentity}

pub record LifecycleConfig : Type 0 where
  pub ready_timeout : ℤ
  pub poll_interval : ℤ

-- The intervals that `NewLifecycle` sets.
pub new_lifecycle : LifecycleConfig → LifecycleConfig
new_lifecycle cfg = record {
  ready_timeout = if leb_ℤ cfg.ready_timeout (pos 0) then pos (600 * second) else cfg.ready_timeout;
  poll_interval = if leb_ℤ cfg.poll_interval (pos 0) then pos (5 * second) else cfg.poll_interval;
}

-- What the request for the models is answered with: an error, or a status and the IDs of the body,
-- `none` if it cannot be decoded.
pub data Reply : Type 0 where
  no_reply : Reply
  reply : ℕ → Option (List Str) → Reply

pub data ProbeError : Type 0 where
  request_failed bad_body : ProbeError
  bad_status : ℕ → ProbeError

-- The loop over the models of the body.
names_model : Str → List Str → Bool
unfolding has_part
names_model want [] = false
names_model want (id ∷ ids) =
    let later = names_model want ids in str_eq id want || (has_part want id || later)

-- `httpModelsOK`
unfoldable pub http_models_ok : Str → Reply → Bool × Option ProbeError
unfolding names_model
http_models_ok want no_reply = (false, some request_failed)
http_models_ok want (reply code none) =
    if code == 200 then (false, some bad_body) else (false, some (bad_status code))
http_models_ok want (reply code (some ids)) =
    if not (code == 200)
    then (false, some (bad_status code))
    else if is_empty want
    then (not (is_nil ids), none)
    else if names_model want ids
    then (true, none)
    else (not (is_nil ids), none)

-- The ID of a pod of RunPod, of a worker that is not a dry run.
abbrev pub is_pod : Str → Bool
is_pod wid = has_prefix (bytes "runpod-") wid && not (has_prefix (bytes "runpod-dryrun-") wid)

abbrev pub proxy_of : Str → Str
proxy_of wid = bytes "https://" ++ drop 7 wid ++ bytes "-8000.proxy.runpod.net"

module _ {F : Type 0} where
  -- A view of the worker is healthy and ready.
  beats : Str → List (WorkerView F) → Bool
  beats wid [] = false
  beats wid (w ∷ ws) =
      let later = beats wid ws in (str_eq w.id wid && (w.healthy && w.ready)) || later

  abbrev has_heartbeat : Str → Option (RoutingSnapshot F) → Bool
  has_heartbeat wid snap = elim snap [ none ↦ false | some s ↦ beats wid s.workers ]

  -- What follows the look at the heartbeats. The holder is `none`, or what it holds at this time.
  without_heartbeat : Option (Option (RoutingSnapshot F)) → Str → Bool × Str × Option ProbeError
  unfolding beats
  without_heartbeat holder wid =
      if has_prefix (bytes "runpod-dryrun-") wid || has_prefix (bytes "local-") wid
      then (elim holder [
        | none ↦ (true, bytes "track-only", none)
        | some snap ↦
            if has_heartbeat wid snap
            then (true, bytes "heartbeat", none)
            else if has_prefix (bytes "local-") wid
            then (false, bytes "waiting-heartbeat", none)
            else (true, bytes "dry-run", none)
      ])
      else (false, [], none)

  -- `checkReady`: whether the worker is ready, the detail, and the error.
  unfoldable pub check_ready :
      Option (Option (RoutingSnapshot F))
      → Str
      → ModelIdentity
      → Reply
      → Bool × Str × Option ProbeError
  unfolding beats without_heartbeat
  check_ready holder wid id answer =
      let (ok, e) = http_models_ok id.base_model answer in
      if is_pod wid
      then (if is_some e then false else ok, proxy_of wid, e)
      else if (elim holder [ none ↦ false | some snap ↦ has_heartbeat wid snap ])
      then (true, bytes "heartbeat", none)
      else without_heartbeat holder wid

-- What a wait meets at each round: the time, whether the context is done before the look and in the
-- pause after it, what the look finds, and whether the registration fails.
pub record WaitEnv : Type 0 where
  pub now : ℕ → ℕ
  pub done_before : ℕ → Bool
  pub done_in_pause : ℕ → Bool
  pub look : ℕ → Bool
  pub register_fails : ℕ → Bool

-- How a wait ends. `ready_at` has the round; its callback is called then.
pub data Waited : Type 0 where
  ready_at : ℕ → Waited
  context_done register_failed timed_out out_of_fuel : Waited

-- The loop of `WaitReady`, from a round on.
unfoldable pub wait_from : ℕ → WaitEnv → ℕ → ℕ → Waited
wait_from zero env deadline i = out_of_fuel
wait_from (suc fuel) env deadline i =
    let next = wait_from fuel env deadline (suc i) in
    if not (ltb (env.now i) deadline)
    then timed_out
    else if env.done_before i
    then context_done
    else if env.look i
    then (if env.register_fails i then register_failed else ready_at i)
    else if env.done_in_pause i
    then context_done
    else next

-- `WaitReady`, started at a time with a timeout that is positive.
unfoldable pub wait_ready : ℕ → WaitEnv → ℕ → ℕ → Waited
unfolding wait_from
wait_ready fuel env started timeout = wait_from fuel env (started + timeout) 0
