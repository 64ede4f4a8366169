-- ===== src/Cache/Index.antt =====
-- services/cacheregistry/index.go. `Persist` only writes to Redis and is left out. A nested map
-- that is nil reads as empty.
pub mod Places
pub mod Consistent
use forge_labs.Base.{
  ℕ, Bool, true, false, Option, none, some, List, [], ◌∷◌, if◌then◌else◌, is_empty, is_some, Str,
  bytes, str_eq, Dict, lookup, insert, delete, map_values, str_key, nat_key, Float,
}
use forge_labs.Routing.Snapshot.{full_name}

pub record BlockLocation (F : Type 0) : Type 0 where
  pub worker_id : Str
  pub tier : Str
  pub weight : F

pub record Index (F : Type 0) : Type 0 where
  pub by_block : Dict Str (Dict ℕ (Dict Str (BlockLocation F)))
  pub by_worker : Dict Str (Dict ℕ F)

abbrev pub new_index : {F : Type 0} → Index F
new_index = record { by_block = []; by_worker = [] }

-- A map that may be nil.
abbrev pub or_empty : {K V : Type 0} → Option (Dict K V) → Dict K V
or_empty none = []
or_empty (some d) = d

module _ {F : Type 0} where
  -- The body of the loop of `Store`, for one block.
  unfoldable pub store_block : Str → BlockLocation F → Index F → ℕ → Index F
  store_block key loc idx h =
      let of_key = or_empty (lookup key idx.by_block) in
      let of_block = or_empty (lookup h of_key) in
      let of_worker = or_empty (lookup loc.worker_id idx.by_worker) in
      record {
        by_block = insert key (insert h (insert loc.worker_id loc of_block) of_key) idx.by_block;
        by_worker = insert loc.worker_id (insert h loc.weight of_worker) idx.by_worker;
      }

  unfoldable pub store_blocks : Str → BlockLocation F → Index F → List ℕ → Index F
  store_blocks key loc idx [] = idx
  store_blocks key loc idx (h ∷ hs) = store_blocks key loc (store_block key loc idx h) hs

  -- The inner loop of `Remove` and `ClearWorker`: the block is taken from every model.
  unfoldable pub drop_location : Str → Index F → ℕ → Index F
  drop_location wid idx h = record idx {
    by_block =
        map_values (λ m. elim (lookup h m) [ none ↦ m | some locs ↦ insert h (delete wid locs) m ])
          idx.by_block;
  }

  -- `delete(idx.byWorker[workerID], h)`
  unfoldable pub drop_held : Str → Index F → ℕ → Index F
  drop_held wid idx h = elim (lookup wid idx.by_worker) [
    | none ↦ idx
    | some held ↦ record idx { by_worker = insert wid (delete h held) idx.by_worker }
  ]

  -- `Remove`
  unfoldable pub remove_blocks : Index F → Str → List ℕ → Index F
  remove_blocks idx wid [] = idx
  remove_blocks idx wid (h ∷ hs) = remove_blocks (drop_location wid (drop_held wid idx h) h) wid hs

  -- The loop of `ClearWorker` over the blocks held.
  unfoldable pub drop_locations : Str → Index F → Dict ℕ F → Index F
  drop_locations wid idx [] = idx
  drop_locations wid idx ((h, _) ∷ held) = drop_locations wid (drop_location wid idx h) held

  unfoldable pub clear_worker : Index F → Str → Index F
  clear_worker idx wid =
      let held = or_empty (lookup wid idx.by_worker) in
      drop_locations wid (record idx { by_worker = delete wid idx.by_worker }) held

  -- `WorkerBlocks`
  unfoldable pub worker_blocks : Index F → Str → Dict ℕ F
  worker_blocks idx wid = or_empty (lookup wid idx.by_worker)

module _ {F : Type 0} ⦃f : Float F⦄ where
  -- The location that is stored, with the weight of its tier.
  abbrev pub location : Str → Str → BlockLocation F
  location wid tier = record {
    worker_id = wid;
    tier = tier;
    weight = if str_eq tier (bytes "cpu") then f.div (f.num 8) (f.num 10) else f.num 1;
  }

  -- `Store`. The maps of the model and of the worker are there once a block is stored.
  unfoldable pub store_in : Index F → Str → Str → Str → Str → List ℕ → Index F
  store_in idx base adapter wid tier hashes =
      if is_empty wid
      then idx
      else store_blocks (full_name base adapter) (location wid tier) idx hashes
