-- ===== src/Cache/Index/Places.antt =====
-- What each operation of the index does to the places of a block and to what a worker holds.
use forge_labs.Base.{
  ℕ, ◌≡◌, Bool, not, ◌&&◌, ◌||◌, none, some, arith, ◌==◌, is_some, Option-cases, inl, inr, Str,
  str_eq, str_eq→eq, Dict, lookup, insert, delete, lookup-insert, lookup-delete, lookup-map_values,
  lookup_same, str_key, nat_key,
}
use forge_labs.Cache.Index.{BlockLocation, Index, or_empty, store_block, drop_location, drop_held}

module _ {F : Type 0} where
  -- Whether a block of a model is listed at a worker, and whether the worker is listed with it.
  abbrev pub located : Index F → Str → ℕ → Str → Bool
  located idx key h wid =
      is_some (lookup wid (or_empty (lookup h (or_empty (lookup key idx.by_block)))))

  abbrev pub holds : Index F → Str → ℕ → Bool
  holds idx wid h = is_some (lookup h (or_empty (lookup wid idx.by_worker)))

  pub located-store_block :
      (key key' wid : Str) (loc : BlockLocation F) (idx : Index F) (h h' : ℕ)
      → located (store_block key loc idx h) key' h' wid
        ≡ (located idx key' h' wid || (str_eq key key' && (h == h') && str_eq loc.worker_id wid))
  unfolding store_block
  located-store_block key key' wid loc idx h h' =
      let of_key = or_empty (lookup key idx.by_block) in
      let of_block = or_empty (lookup h of_key) in
      let new_block = insert loc.worker_id loc of_block in
      ground (
        arith,
        lookup-insert key key' (insert h new_block of_key) idx.by_block,
        lookup-insert h h' new_block of_key,
        lookup-insert loc.worker_id wid loc of_block,
        str_eq→eq key key',
      )

  pub holds-store_block :
      (key wid : Str) (loc : BlockLocation F) (idx : Index F) (h h' : ℕ)
      → holds (store_block key loc idx h) wid h'
        ≡ (holds idx wid h' || (str_eq loc.worker_id wid && (h == h')))
  unfolding store_block
  holds-store_block key wid loc idx h h' =
      let of_worker = or_empty (lookup loc.worker_id idx.by_worker) in
      ground (
        arith,
        lookup-insert loc.worker_id wid (insert h loc.weight of_worker) idx.by_worker,
        lookup-insert h h' loc.weight of_worker,
        str_eq→eq loc.worker_id wid,
      )

  abbrev without :
      Str → ℕ → Dict ℕ (Dict Str (BlockLocation F)) → Dict ℕ (Dict Str (BlockLocation F))
  without wid h m = elim (lookup h m) [ none ↦ m | some locs ↦ insert h (delete wid locs) m ]

  lookup-without :
      (wid wid' : Str) (h h' : ℕ) (m : Dict ℕ (Dict Str (BlockLocation F)))
      → is_some (lookup wid' (or_empty (lookup h' (without wid h m))))
        ≡ (is_some (lookup wid' (or_empty (lookup h' m))) && not ((h == h') && str_eq wid wid'))
  unfolding lookup
  lookup-without wid wid' h h' m = elim (Option-cases (lookup h m)) [
    | inl e ↦ rw (e, without) (ground (arith, e, lookup_same h h' m))
    | inr (locs, e) ↦
        rw (e, without)
          (ground (
            arith,
            e,
            lookup_same h h' m,
            lookup-insert h h' (delete wid locs) m,
            lookup-delete wid wid' locs,
          ))
  ]

  pub located-drop_location :
      (key wid wid' : Str) (idx : Index F) (h h' : ℕ)
      → located (drop_location wid idx h) key h' wid'
        ≡ (located idx key h' wid' && not ((h == h') && str_eq wid wid'))
  unfolding drop_location lookup
  located-drop_location key wid wid' idx h h' = elim (Option-cases (lookup key idx.by_block)) [
    | inl e ↦ ground (arith, e, lookup-map_values (without wid h) key idx.by_block)
    | inr (m, e) ↦ ground (
      arith,
      e,
      lookup-map_values (without wid h) key idx.by_block,
      lookup-without wid wid' h h' m,
    )
  ]

  pub holds-drop_held :
      (wid wid' : Str) (idx : Index F) (h h' : ℕ)
      → holds (drop_held wid idx h) wid' h'
        ≡ (holds idx wid' h' && not ((h == h') && str_eq wid wid'))
  unfolding drop_held lookup
  holds-drop_held wid wid' idx h h' = elim (Option-cases (lookup wid idx.by_worker)) [
    | inl e ↦ rw (e, drop_held) (ground (arith, e, lookup_same wid wid' idx.by_worker))
    | inr (held, e) ↦
        rw (e, drop_held)
          (ground (
            arith,
            e,
            lookup_same wid wid' idx.by_worker,
            lookup-insert wid wid' (delete h held) idx.by_worker,
            lookup-delete h h' held,
          ))
  ]
