-- ===== src/Cache/Service/Found.antt =====
-- What the events of the caches leave in the index, and what the scoring finds there.
use forge_labs.Base.{
  ℕ, ◌*◌, ◌≤◌, ◌≡◌, Bool, true, false, List, [], ◌∷◌, ◌++◌, All, arith, length, is_empty,
  if◌then◌else◌, ℤ, Str, bytes, str_eq, str_eq_refl, lookup, nat_key, str_key, Float,
}
use forge_labs.Routing.Snapshot.{full_name}
use forge_labs.Cache.Blocks.{block_size, hash_blocks, longest_consecutive_prefix}
use forge_labs.Cache.Blocks.Prefix.{longest_consecutive_prefix-hash_blocks}
use forge_labs.Cache.Index.{
  BlockLocation, Index, new_index, store_block, store_blocks, worker_blocks, location, store_in,
}
use forge_labs.Cache.Index.Places.{holds, holds-store_block}
use forge_labs.Cache.Index.Consistent.{
  IsConsistent, store_blocks-IsConsistent, remove_blocks-IsConsistent, clear_worker-IsConsistent,
}
use forge_labs.Cache.Service.{Event, apply_event}

module _ {F : Type 0} where
  -- A block that is held stays held while others are stored.
  holds-store_blocks :
      (key : Str) (loc : BlockLocation F) (wid : Str) (h : ℕ) (hs : List ℕ) (idx : Index F)
      → holds idx wid h ≡ true
      → holds (store_blocks key loc idx hs) wid h ≡ true
  unfolding store_blocks
  holds-store_blocks key loc wid h [] idx e = e
  holds-store_blocks key loc wid h (h' ∷ hs) idx e =
      holds-store_blocks key loc wid h hs (store_block key loc idx h')
        (ground (arith, e, holds-store_block key wid loc idx h' h))

  store_blocks-held :
      (key : Str) (loc : BlockLocation F) (hs : List ℕ) (idx : Index F)
      → All (λ h. holds (store_blocks key loc idx hs) loc.worker_id h ≡ true) hs
  unfolding store_blocks
  store_blocks-held key loc [] idx = tt
  store_blocks-held key loc (h ∷ hs) idx = (
    holds-store_blocks key loc loc.worker_id h hs (store_block key loc idx h) (
        ground (arith, holds-store_block key loc.worker_id loc idx h h, str_eq_refl loc.worker_id)),
    store_blocks-held key loc hs (store_block key loc idx h),
  )

if_IsConsistent :
    {F : Type 0} (x y : Index F) (b : Bool)
    → IsConsistent x
    → IsConsistent y
    → IsConsistent (if b then x else y)
if_IsConsistent x y true c d = c
if_IsConsistent x y false c d = d

module _ {F : Type 0} ⦃f : Float F⦄ where
  apply_event-IsConsistent :
      (idx : Index F) (ev : Event) → IsConsistent idx → IsConsistent (apply_event idx ev)
  unfolding apply_event store_in
  apply_event-IsConsistent idx ev c =
      let stored = if_IsConsistent _ _ (is_empty ev.worker_id) c (
        store_blocks-IsConsistent (full_name ev.base_model ev.adapter)
          (location ev.worker_id ev.tier) ev.hashes idx c) in
      if_IsConsistent _ _ (str_eq ev.kind (bytes "stored")) stored (
        if_IsConsistent _ _ (str_eq ev.kind (bytes "removed"))
          (remove_blocks-IsConsistent ev.worker_id ev.hashes idx c)
          (if_IsConsistent _ _ (str_eq ev.kind (bytes "cleared"))
            (clear_worker-IsConsistent idx ev.worker_id c) c))

  pub apply_all : Index F → List Event → Index F
  apply_all idx [] = idx
  apply_all idx (ev ∷ evs) = apply_all (apply_event idx ev) evs

  apply_all-IsConsistent_from :
      (evs : List Event) (idx : Index F) → IsConsistent idx → IsConsistent (apply_all idx evs)
  unfolding apply_all
  apply_all-IsConsistent_from [] idx c = c
  apply_all-IsConsistent_from (ev ∷ evs) idx c =
      apply_all-IsConsistent_from evs (apply_event idx ev) (apply_event-IsConsistent idx ev c)

  -- Once a named worker has stored the keys of a prompt that fills `k` blocks exactly, it is found
  -- to hold at least as many blocks of every prompt that begins with it.
  pub store_in-found :
      (idx : Index F) (base adapter wid tier : Str) (xs ys : List ℕ) (n : ℤ) (k : ℕ)
      → is_empty wid ≡ false
      → length xs ≡ k * block_size n
      → length (hash_blocks xs n adapter)
        ≤ (longest_consecutive_prefix
            (hash_blocks (xs ++ ys) n adapter)
            (worker_blocks (store_in idx base adapter wid tier (hash_blocks xs n adapter)) wid)).0
  unfolding store_in worker_blocks
  store_in-found idx base adapter wid tier xs ys n k e l =
      longest_consecutive_prefix-hash_blocks xs ys n k adapter
        (worker_blocks (store_in idx base adapter wid tier (hash_blocks xs n adapter)) wid) l
        (rw e (
          store_blocks-held (full_name base adapter) (location wid tier) (hash_blocks xs n adapter)
            idx))

-- After any events a block of a model is listed at a worker only if the worker is listed with
-- the block.
pub apply_all-IsConsistent :
    {F : Type 0} (f : Float F) (evs : List Event) → IsConsistent (apply_all ⦃f = f⦄ new_index evs)
unfolding lookup
apply_all-IsConsistent f evs =
    apply_all-IsConsistent_from ⦃f = f⦄ evs new_index (λ key h wid l. absurd (cc))
