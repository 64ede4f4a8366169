-- ===== src/Health.antt =====
-- services/health: heartbeat.go and deriver.go. What Redis answers is an argument; metrics, logs and the
-- loops that wait for events are left out.
mod Keys
pub mod Keyed
mod Tests
use forge_labs.Base.{
  ℕ, ◌+◌, ◌-◌, Bool, true, false, not, ◌&&◌, ◌||◌, Option, none, some, List, [], ◌∷◌, ◌++◌, length,
  take, drop, reverse, keep_if, if◌then◌else◌, ltb, is_empty, has_prefix, ℤ, Str, bytes, Dict,
  str_key, lookup, insert, delete,
}

pub record Heartbeat (F : Type 0) : Type 0 where
  pub id : Str
  pub base_model : Str
  pub adapter : Option Str
  pub runtime : Str
  pub addr : Str
  pub ready : Bool
  pub inflight : ℤ
  pub queue_depth : ℤ
  pub kv_cache_usage : F
  pub gpu_cache_usage : F
  pub ts : ℤ

abbrev pub key_prefix : Str
key_prefix = bytes "worker:"

abbrev pub key_suffix : Str
key_suffix = bytes ":heartbeat"

-- `Key`
abbrev pub heartbeat_key : Str → Str
heartbeat_key id = key_prefix ++ (id ++ key_suffix)

abbrev pub ends_with : Str → Str → Bool
ends_with suffix s = has_prefix (reverse suffix) (reverse s)

-- What `WorkerIDFromKey` does: it returns an ID, or that there is none, or panics, since the bounds of
-- a slice must be in order.
pub data KeyResult : Type 0 where
  id_of : Str → KeyResult
  not_a_key : KeyResult
  key_panics : KeyResult

-- `WorkerIDFromKey`. The prefix has 7 bytes and the suffix 10.
unfoldable pub worker_id_from_key : Str → KeyResult
worker_id_from_key key =
    let id = take (length key - 17) (drop 7 key) in
    if not (has_prefix key_prefix key) || not (ends_with key_suffix key)
    then not_a_key
    else if ltb (length key) 17
    then key_panics
    else if is_empty id
    then not_a_key
    else id_of id

-- What a step of the service comes to.
pub data Outcome {ℓ} (A : Type ℓ) : Type ℓ where
  done : A → Outcome A
  redis_error : Outcome A
  panics : Outcome A

-- What `Get` answers for a key: nothing, an error, a payload that is no heartbeat, or a heartbeat.
pub data Value (F : Type 0) : Type 0 where
  missing failed bad_payload : Value F
  beat : Heartbeat F → Value F

module _ {F : Type 0} where
  -- A beat of a worker with an ID, and one whose ID is that of the key.
  abbrev pub with_id : Str → Heartbeat F → Heartbeat F
  with_id id hb = if is_empty hb.id then record hb { id = id } else hb

  abbrev pub upsert_beat : Heartbeat F → Dict Str (Heartbeat F) → Dict Str (Heartbeat F)
  upsert_beat hb live = insert hb.id hb live

  -- What `reconcileOnce` does with a heartbeat.
  unfoldable pub add_beat :
      Str → Heartbeat F → Dict Str (Heartbeat F) → Outcome (Dict Str (Heartbeat F))
  add_beat key hb live =
      if not (is_empty hb.id) then done (upsert_beat hb live) else (elim (worker_id_from_key key) [
        | id_of id ↦ done (upsert_beat (with_id id hb) live)
        | not_a_key ↦ done live
        | key_panics ↦ panics
      ])

  unfoldable pub add_value :
      Str → Value F → Dict Str (Heartbeat F) → Outcome (Dict Str (Heartbeat F))
  unfolding add_beat
  add_value key missing live = done live
  add_value key failed live = redis_error
  add_value key bad_payload live = done live
  add_value key (beat hb) live = add_beat key hb live

  -- The loop over the keys of all pages.
  unfoldable pub add_values :
      List (Str × Value F) → Dict Str (Heartbeat F) → Outcome (Dict Str (Heartbeat F))
  unfolding add_value
  add_values [] live = done live
  add_values ((key, v) ∷ vs) live = elim (add_value key v live) [
    | done live' ↦ add_values vs live'
    | redis_error ↦ redis_error
    | panics ↦ panics
  ]

  -- `reconcileOnce`: the snapshot that replaces the old one. `none` is a scan that fails; a failed scan
  -- of a later page ends the loop like a failed `Get`.
  unfoldable pub reconcile_once :
      Option (List (Str × Value F)) → Dict Str (Heartbeat F) → Outcome (Dict Str (Heartbeat F))
  unfolding add_values
  reconcile_once none held = redis_error
  reconcile_once (some vs) held = add_values vs []

  -- `applySet`; an error leaves the snapshot as it is.
  unfoldable pub apply_set : Str → Value F → Dict Str (Heartbeat F) → Dict Str (Heartbeat F)
  apply_set id missing held = delete id held
  apply_set id failed held = held
  apply_set id bad_payload held = held
  apply_set id (beat hb) held = upsert_beat (with_id id hb) held

  -- One message of `listenKeyevents`, of a channel and a key, with what `Get` answers.
  unfoldable pub on_message :
      Str → Str → Value F → Dict Str (Heartbeat F) → Outcome (Dict Str (Heartbeat F))
  unfolding apply_set
  on_message channel key v held = elim (worker_id_from_key key) [
    | not_a_key ↦ done held
    | key_panics ↦ panics
    | id_of id ↦
        if ends_with (bytes ":expired") channel || ends_with (bytes ":del") channel
        then done (delete id held)
        else if ends_with (bytes ":set") channel
        then done (apply_set id v held)
        else done held
  ]

  -- `All`
  unfoldable pub all_beats : Dict Str (Heartbeat F) → List (Heartbeat F)
  all_beats [] = []
  all_beats ((_, hb) ∷ held) = hb ∷ all_beats held

  -- `Routable`
  pub routable : Dict Str (Heartbeat F) → List (Heartbeat F)
  unfolding all_beats
  routable held = keep_if (λ hb. hb.ready) (all_beats held)
