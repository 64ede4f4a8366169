-- ===== src/Health/Keyed.antt =====
-- Every heartbeat of the snapshot is held under the ID of its worker.
use forge_labs.Base.{
  ◌≡◌, refl, Bool, true, false, not, Option, none, some, List, [], ◌∷◌, if◌then◌else◌, All,
  is_empty, Str, Dict, str_key, insert, delete, str_eq, ◌||◌, bytes,
}
use forge_labs.Health.{
  Heartbeat, Value, missing, failed, bad_payload, beat, Outcome, done, redis_error, panics,
  KeyResult, id_of, not_a_key, key_panics, worker_id_from_key, ends_with, with_id, upsert_beat,
  add_beat, add_value, add_values, reconcile_once, apply_set, on_message,
}

module _ {F : Type 0} where
  abbrev pub IsKeyed : Dict Str (Heartbeat F) → Type 0
  IsKeyed held = All (λ e. e.1.id ≡ e.0) held

  abbrev pub AllKeyed : Outcome (Dict Str (Heartbeat F)) → Type 0
  AllKeyed (done held) = IsKeyed held
  AllKeyed redis_error = Unit
  AllKeyed panics = Unit

  insert-IsKeyed :
      (id : Str) (hb : Heartbeat F) (held : Dict Str (Heartbeat F))
      → hb.id ≡ id
      → IsKeyed held
      → IsKeyed (insert id hb held)
  unfolding insert
  insert-IsKeyed id hb [] e t = (e, tt)
  insert-IsKeyed id hb ((k, v) ∷ held) e (h, t) = go (insert-IsKeyed id hb held e t) (str_eq k id)
    where
      go :
          IsKeyed (insert id hb held)
          → (b : Bool) → IsKeyed (if b then (id, hb) ∷ held else (k, v) ∷ insert id hb held)
      go ih true = (e, t)
      go ih false = (h, ih)

  delete-IsKeyed :
      (id : Str) (held : Dict Str (Heartbeat F)) → IsKeyed held → IsKeyed (delete id held)
  unfolding delete
  delete-IsKeyed id [] t = tt
  delete-IsKeyed id ((k, v) ∷ held) (h, t) = go (delete-IsKeyed id held t) (str_eq k id)
    where
      go :
          IsKeyed (delete id held)
          → (b : Bool) → IsKeyed (if b then delete id held else (k, v) ∷ delete id held)
      go ih true = ih
      go ih false = (h, ih)

  upsert_beat-IsKeyed :
      (hb : Heartbeat F) (held : Dict Str (Heartbeat F))
      → IsKeyed held
      → IsKeyed (upsert_beat hb held)
  upsert_beat-IsKeyed hb held t = insert-IsKeyed hb.id hb held refl t

  add_beat-AllKeyed :
      (key : Str) (hb : Heartbeat F) (live : Dict Str (Heartbeat F))
      → IsKeyed live
      → AllKeyed (add_beat key hb live)
  unfolding add_beat
  add_beat-AllKeyed key hb live t = go (not (is_empty hb.id)) (worker_id_from_key key)
    where
      go :
          (b : Bool) (r : KeyResult)
          → AllKeyed (
              if b then done (upsert_beat hb live) else (elim r [
                | id_of id ↦ done (upsert_beat (with_id id hb) live)
                | not_a_key ↦ done live
                | key_panics ↦ panics
              ]))
      go true r = upsert_beat-IsKeyed hb live t
      go false (id_of id) = upsert_beat-IsKeyed (with_id id hb) live t
      go false not_a_key = t
      go false key_panics = tt

  add_values-AllKeyed :
      (vs : List (Str × Value F)) (live : Dict Str (Heartbeat F))
      → IsKeyed live
      → AllKeyed (add_values vs live)
  unfolding add_values add_value
  add_values-AllKeyed [] live t = t
  add_values-AllKeyed ((key, missing) ∷ vs) live t = add_values-AllKeyed vs live t
  add_values-AllKeyed ((key, failed) ∷ vs) live t = tt
  add_values-AllKeyed ((key, bad_payload) ∷ vs) live t = add_values-AllKeyed vs live t
  add_values-AllKeyed ((key, beat hb) ∷ vs) live t =
      go (add_beat key hb live) (add_beat-AllKeyed key hb live t) (add_values-AllKeyed vs)
    where
      go :
          (o : Outcome (Dict Str (Heartbeat F)))
          → AllKeyed o
          → ((live' : Dict Str (Heartbeat F)) → IsKeyed live' → AllKeyed (add_values vs live'))
          → AllKeyed (elim o [
            | done live' ↦ add_values vs live'
            | redis_error ↦ redis_error
            | panics ↦ panics
          ])
      go (done live') k next = next live' k
      go redis_error k next = tt
      go panics k next = tt

  reconcile_once-AllKeyed :
      (vs : Option (List (Str × Value F))) (held : Dict Str (Heartbeat F))
      → AllKeyed (reconcile_once vs held)
  unfolding reconcile_once
  reconcile_once-AllKeyed none held = tt
  reconcile_once-AllKeyed (some vs) held = add_values-AllKeyed vs [] tt

  apply_set-IsKeyed :
      (id : Str) (v : Value F) (held : Dict Str (Heartbeat F))
      → IsKeyed held
      → IsKeyed (apply_set id v held)
  unfolding apply_set
  apply_set-IsKeyed id missing held t = delete-IsKeyed id held t
  apply_set-IsKeyed id failed held t = t
  apply_set-IsKeyed id bad_payload held t = t
  apply_set-IsKeyed id (beat hb) held t = upsert_beat-IsKeyed (with_id id hb) held t

  on_message-AllKeyed :
      (channel key : Str) (v : Value F) (held : Dict Str (Heartbeat F))
      → IsKeyed held
      → AllKeyed (on_message channel key v held)
  unfolding on_message
  on_message-AllKeyed channel key v held t =
      go (worker_id_from_key key)
        (ends_with (bytes ":expired") channel || ends_with (bytes ":del") channel)
        (ends_with (bytes ":set") channel)
    where
      go :
          (r : KeyResult) (b c : Bool)
          → AllKeyed (elim r [
            | not_a_key ↦ done held
            | key_panics ↦ panics
            | id_of id ↦
                if b
                then done (delete id held)
                else if c
                then done (apply_set id v held)
                else done held
          ])
      go not_a_key b c = t
      go key_panics b c = tt
      go (id_of id) true c = delete-IsKeyed id held t
      go (id_of id) false true = apply_set-IsKeyed id v held t
      go (id_of id) false false = t

  -- Neither a reconciliation nor a message can put a heartbeat under another ID than its worker's: if
  -- every heartbeat is held under the ID of its worker, so it is afterwards; a reconciliation does not
  -- depend on what was held.
  pub steps-AllKeyed :
      (held : Dict Str (Heartbeat F))
      → IsKeyed held
      → ((vs : Option (List (Str × Value F))) → AllKeyed (reconcile_once vs held))
        × ((channel key : Str) (v : Value F) → AllKeyed (on_message channel key v held))
  steps-AllKeyed held t = (
    λ vs. reconcile_once-AllKeyed vs held,
    λ channel key v. on_message-AllKeyed channel key v held t,
  )
