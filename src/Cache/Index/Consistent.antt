-- ===== src/Cache/Index/Consistent.antt =====
-- A block is listed at a worker only if the worker is listed with the block, so that clearing a
-- worker by what it holds forgets all its places.
use forge_labs.Base.{
  ℕ, ◌≡◌, refl, ◌∙◌, true, not, ◌&&◌, List, [], ◌∷◌, arith, is_some, Str, str_eq, Dict, lookup,
  delete, lookup-delete, lookup_same, str_key, nat_key,
}
use forge_labs.Cache.Index.{
  BlockLocation, Index, or_empty, store_block, store_blocks, drop_location, drop_held,
  remove_blocks, drop_locations, clear_worker,
}
use forge_labs.Cache.Index.Places.{
  located, holds, located-store_block, holds-store_block, located-drop_location, holds-drop_held,
}

module _ {F : Type 0} where
  abbrev pub IsConsistent : Index F → Type 0
  IsConsistent idx =
      (key : Str) (h : ℕ) (wid : Str) → located idx key h wid ≡ true → holds idx wid h ≡ true

  store_block-IsConsistent :
      (key : Str) (loc : BlockLocation F) (idx : Index F) (h : ℕ)
      → IsConsistent idx
      → IsConsistent (store_block key loc idx h)
  store_block-IsConsistent key loc idx h c key' h' wid l = ground (
    arith,
    c key' h' wid,
    located-store_block key key' wid loc idx h h',
    holds-store_block key wid loc idx h h',
  )

  pub store_blocks-IsConsistent :
      (key : Str) (loc : BlockLocation F) (hs : List ℕ) (idx : Index F)
      → IsConsistent idx
      → IsConsistent (store_blocks key loc idx hs)
  unfolding store_blocks
  store_blocks-IsConsistent key loc [] idx c = c
  store_blocks-IsConsistent key loc (h ∷ hs) idx c =
      store_blocks-IsConsistent key loc hs (store_block key loc idx h)
        (store_block-IsConsistent key loc idx h c)

  located-drop_held :
      (key wid wid' : Str) (idx : Index F) (h h' : ℕ)
      → located (drop_held wid idx h) key h' wid' ≡ located idx key h' wid'
  unfolding drop_held
  located-drop_held key wid wid' idx h h' = ground arith

  holds-drop_location :
      (wid wid' : Str) (idx : Index F) (h h' : ℕ)
      → holds (drop_location wid idx h) wid' h' ≡ holds idx wid' h'
  unfolding drop_location
  holds-drop_location wid wid' idx h h' = refl

  remove_block-IsConsistent :
      (wid : Str) (idx : Index F) (h : ℕ)
      → IsConsistent idx
      → IsConsistent (drop_location wid (drop_held wid idx h) h)
  remove_block-IsConsistent wid idx h c key h' wid' l = ground (
    arith,
    c key h' wid',
    located-drop_location key wid wid' (drop_held wid idx h) h h',
    located-drop_held key wid wid' idx h h',
    holds-drop_location wid wid' (drop_held wid idx h) h h',
    holds-drop_held wid wid' idx h h',
  )

  pub remove_blocks-IsConsistent :
      (wid : Str) (hs : List ℕ) (idx : Index F)
      → IsConsistent idx
      → IsConsistent (remove_blocks idx wid hs)
  unfolding remove_blocks
  remove_blocks-IsConsistent wid [] idx c = c
  remove_blocks-IsConsistent wid (h ∷ hs) idx c =
      remove_blocks-IsConsistent wid hs (drop_location wid (drop_held wid idx h) h)
        (remove_block-IsConsistent wid idx h c)

  located-drop_locations :
      (key wid wid' : Str) (h' : ℕ) (held : Dict ℕ F) (idx : Index F)
      → located (drop_locations wid idx held) key h' wid'
        ≡ (located idx key h' wid' && not (is_some (lookup h' held) && str_eq wid wid'))
  unfolding drop_locations lookup
  located-drop_locations key wid wid' h' [] idx = ground arith
  located-drop_locations key wid wid' h' ((h, v) ∷ held) idx = ground (
    arith,
    located-drop_locations key wid wid' h' held (drop_location wid idx h),
    located-drop_location key wid wid' idx h h',
  )

  holds-drop_locations :
      (wid wid' : Str) (h' : ℕ) (held : Dict ℕ F) (idx : Index F)
      → holds (drop_locations wid idx held) wid' h' ≡ holds idx wid' h'
  unfolding drop_locations
  holds-drop_locations wid wid' h' [] idx = refl
  holds-drop_locations wid wid' h' ((h, v) ∷ held) idx =
      holds-drop_locations wid wid' h' held (drop_location wid idx h)
      ∙ holds-drop_location wid wid' idx h h'

  -- In a consistent index `ClearWorker` takes away exactly the entries of the worker: no block of
  -- any model is listed at it any more, it is listed with no block, and all other entries stay.
  pub clear_worker_lem :
      (idx : Index F) (wid key wid' : Str) (h : ℕ)
      → IsConsistent idx
      → (located (clear_worker idx wid) key h wid'
          ≡ (located idx key h wid' && not (str_eq wid wid')))
        × (holds (clear_worker idx wid) wid' h ≡ (holds idx wid' h && not (str_eq wid wid')))
  unfolding clear_worker lookup
  clear_worker_lem idx wid key wid' h c =
      let held = or_empty (lookup wid idx.by_worker) in
      let idx' : Index F = record idx { by_worker = delete wid idx.by_worker } in
      (
        ground (
          arith,
          located-drop_locations key wid wid' h held idx',
          c key h wid',
          lookup_same wid wid' idx.by_worker,
        ),
        ground (
          arith,
          holds-drop_locations wid wid' h held idx',
          lookup-delete wid wid' idx.by_worker,
        ),
      )

  -- The counterpart of `clear_worker_lem` for the invariant.
  pub clear_worker-IsConsistent :
      (idx : Index F) (wid : Str) → IsConsistent idx → IsConsistent (clear_worker idx wid)
  clear_worker-IsConsistent idx wid c key h wid' l =
      ground (arith, c key h wid', clear_worker_lem idx wid key wid' h c)
