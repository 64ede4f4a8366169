-- ===== src/Scheduler/Snapshot/Health.antt =====
-- Which workers of a snapshot have a candidate, and which of those are healthy and ready.
use forge_labs.Base.{
  ◌≡◌, refl, Bool, true, false, ◌&&◌, ◌||◌, Option, none, some, List, [], ◌∷◌, if◌then◌else◌, arith,
  ℤ, Str, str_eq, str_eq→eq, Dict, lookup, insert, str_key, lookup-insert, ap, ◌∙◌, Float,
}
use forge_labs.Routing.Snapshot.{WorkerView}
use forge_labs.Scheduler.Types.{Candidate}
use forge_labs.Scheduler.Snapshot.{first_view, merge_view, add_model, seen_candidate, collect}

abbrev pub any : {A : Type 0} → (A → Bool) → List A → Bool
any p [] = false
any p (x ∷ xs) = p x || any p xs

-- Whether there is a candidate that passes a test.
abbrev pub has : {A : Type 0} → (A → Bool) → Option A → Bool
has p none = false
has p (some x) = p x

module _ {F : Type 0} ⦃f : Float F⦄ (load : Option (Str → ℤ)) (latency : Option (Str → F)) where
  -- One view, for a test that is passed by the merged candidate if the old one or the view does.
  module _ (p : Candidate F → Bool) (q : WorkerView F → Bool)
      (ok : (o : Option (Candidate F)) (w : WorkerView F)
        → p (add_model (seen_candidate load latency o w) w) ≡ (has p o || q w)) where
    has-insert :
        (id : Str) (w : WorkerView F) (by_id : Dict Str (Candidate F))
        → has p (
            lookup id
              (insert w.id (add_model (seen_candidate load latency (lookup w.id by_id) w) w) by_id))
          ≡ (has p (lookup id by_id) || (str_eq w.id id && q w))
    has-insert id w by_id =
        rw
          (lookup-insert w.id id (add_model (seen_candidate load latency (lookup w.id by_id) w) w)
            by_id)
          (go (str_eq w.id id) refl)
      where
        go :
            (b : Bool)
            → str_eq w.id id ≡ b
            → has p (
                if b
                then some (add_model (seen_candidate load latency (lookup w.id by_id) w) w)
                else lookup id by_id)
              ≡ (has p (lookup id by_id) || (b && q w))
        go true e =
            ok (lookup w.id by_id) w ∙ ap (λ k. has p (lookup k by_id) || q w) (str_eq→eq w.id id e)
        go false e = ground arith

    has-collect :
        (id : Str) (ws : List (WorkerView F)) (by_id : Dict Str (Candidate F))
        → has p (lookup id (collect load latency by_id ws))
          ≡ (has p (lookup id by_id) || any (λ w. str_eq w.id id && q w) ws)
    unfolding collect
    has-collect id [] by_id = ground arith
    has-collect id (w ∷ ws) by_id = ground (
      arith,
      has-collect id ws
          (insert w.id (add_model (seen_candidate load latency (lookup w.id by_id) w) w) by_id),
      has-insert id w by_id,
    )

  -- A worker has a candidate if and only if a view of the snapshot is of that worker; it is
  -- healthy exactly if one of its views is, and ready exactly if one of its views is.
  pub collect_lem :
      (id : Str) (ws : List (WorkerView F))
      → (has (λ _. true) (lookup id (collect load latency [] ws))
          ≡ any (λ w. str_eq w.id id && true) ws)
        × (has (λ c. c.healthy) (lookup id (collect load latency [] ws))
            ≡ any (λ w. str_eq w.id id && w.healthy) ws)
        × (has (λ c. c.ready) (lookup id (collect load latency [] ws))
            ≡ any (λ w. str_eq w.id id && w.ready) ws)
  unfolding first_view merge_view add_model seen_candidate lookup
  collect_lem id ws = (
    has-collect (λ _. true) (λ _. true) known id ws [],
    has-collect (λ c. c.healthy) (λ w. w.healthy) healthy_kept id ws [],
    has-collect (λ c. c.ready) (λ w. w.ready) ready_kept id ws [],
  )
    where
      known : (o : Option (Candidate F)) (w : WorkerView F) → true ≡ (has (λ _. true) o || true)
      known none w = refl
      known (some c) w = refl

      healthy_kept :
          (o : Option (Candidate F)) (w : WorkerView F)
          → (add_model (seen_candidate load latency o w) w).healthy
            ≡ (has (λ c. c.healthy) o || w.healthy)
      healthy_kept none w = refl
      healthy_kept (some c) w = refl

      ready_kept :
          (o : Option (Candidate F)) (w : WorkerView F)
          → (add_model (seen_candidate load latency o w) w).ready
            ≡ (has (λ c. c.ready) o || w.ready)
      ready_kept none w = refl
      ready_kept (some c) w = refl
