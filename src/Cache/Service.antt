-- ===== src/Cache/Service.antt =====
-- services/cacheregistry/service.go: `Apply`, the snapshot that it publishes, and
-- `InjectIntoRouting`. Subscription, reports to Redis and the counters of events are left out.
mod Found
mod Tests
use forge_labs.Base.{
  ℕ, Bool, true, false, Option, none, some, List, [], ◌∷◌, map, if◌then◌else◌, Str, bytes, str_eq,
  Dict, lookup, insert, str_key, Float,
}
use forge_labs.Routing.Snapshot.{WorkerView, RoutingSnapshot}
use forge_labs.Cache.Index.{Index, store_in, remove_blocks, clear_worker}

pub record Event : Type 0 where
  pub kind : Str
  pub worker_id : Str
  pub base_model : Str
  pub adapter : Str
  pub tier : Str
  pub hashes : List ℕ

pub record CacheSnapshot (F : Type 0) : Type 0 where
  pub worker_blocks : Dict Str (Dict ℕ F)
  pub built_at : ℕ

pub record Service (F : Type 0) : Type 0 where
  pub index : Index F
  pub held : Option (CacheSnapshot F)

-- `publishSnapshot`, with the copy that `SnapshotForScoring` makes.
abbrev pub publish_snapshot : {F : Type 0} → Service F → ℕ → Service F
publish_snapshot s now = record s {
  held = some (record { worker_blocks = s.index.by_worker; built_at = now });
}

module _ {F : Type 0} ⦃f : Float F⦄ where
  -- The `switch` of `Apply`.
  unfoldable pub apply_event : Index F → Event → Index F
  apply_event idx ev =
      if str_eq ev.kind (bytes "stored")
      then store_in idx ev.base_model ev.adapter ev.worker_id ev.tier ev.hashes
      else if str_eq ev.kind (bytes "removed")
      then remove_blocks idx ev.worker_id ev.hashes
      else if str_eq ev.kind (bytes "cleared")
      then clear_worker idx ev.worker_id
      else idx

  -- `Apply`
  unfoldable pub apply_at : Service F → Event → ℕ → Service F
  apply_at s ev now = publish_snapshot (record s { index = apply_event s.index ev }) now

module _ {F : Type 0} where
  -- The body of the loop of `InjectIntoRouting`.
  pub inject_view : CacheSnapshot F → WorkerView F → WorkerView F
  inject_view cache w = elim (lookup w.id cache.worker_blocks) [
    | none ↦ w
    | some [] ↦ w
    | some (b ∷ bs) ↦ record w {
      capabilities = insert (bytes "cache_blocks") (bytes "1") w.capabilities;
    }
  ]

  pub inject_into_routing :
      Option (RoutingSnapshot F) → Option (CacheSnapshot F) → Option (RoutingSnapshot F)
  inject_into_routing none cache = none
  inject_into_routing (some snap) none = some snap
  inject_into_routing (some snap) (some cache) =
      some (record snap { workers = map (inject_view cache) snap.workers })
