-- ===== src/Routing/Publisher/Newest.antt =====
-- What the publisher's own holder holds after a number of ticks.
use forge_labs.Base.{
  ◌∙◌, ap, sym, ℕ, ◌+◌, ◌%◌, ◌^◌, ◌≤◌, ◌<◌, ◌≡◌, refl, arith, Option, none, some, List, [], ◌∷◌,
  length, if◌then◌else◌, Bool-cases, inl, inr, Option-cases, ◌&&◌, Float,
}
use forge_labs.Routing.Snapshot.{RoutingSnapshot}
use forge_labs.Routing.Capabilities.{Packages}
use forge_labs.Routing.Holder.{store_if_newer}
use forge_labs.Routing.Subscriber.{snapshot_message}
use forge_labs.Routing.Publisher.{
  Publisher, Worker, Round, new_publisher, views_of, build_snapshot, publish_built, tick, ticks,
}

-- What a message that was sent, if one was, does to a subscriber's holder.
abbrev pub delivered :
    {F : Type 0}
    → Option (RoutingSnapshot F)
    → Option (RoutingSnapshot F)
    → Option (RoutingSnapshot F)
delivered none held = held
delivered (some s) held = snapshot_message (some s) held

module _ {F : Type 0} ⦃f : Float F⦄ (go : Packages F) where
  abbrev snapshot_at : ℕ → Round F → List Worker → RoutingSnapshot F
  snapshot_at epoch r ws = record {
    built_at = r.now;
    epoch = epoch;
    workers = views_of go r.held ws r.virtual_views;
  }

  -- The snapshot of the last tick whose publication succeeded, numbered by the ticks that listed the
  -- workers, or else another.
  abbrev pub last_published :
      ℕ → Option (RoutingSnapshot F) → List (Round F) → Option (RoutingSnapshot F)
  last_published n last [] = last
  last_published n last (r ∷ rs) = elim r.listed [
    | none ↦ last_published n last rs
    | some ws ↦
        last_published (n + 1)
          (if r.marshals && r.published then some (snapshot_at (n + 1) r ws) else last) rs
  ]

  abbrev age : Option (RoutingSnapshot F) → ℕ
  age none = 0
  age (some s) = s.epoch

  small : (n k : ℕ) → n + (k + 1) < 2 ^ 64 → (n + 1) % 2 ^ 64 ≡ n + 1
  small n k h = omega arith

  -- The snapshot of the next epoch is stored.
  store_next :
      (n : ℕ) (cur : Option (RoutingSnapshot F)) (s : RoutingSnapshot F)
      → age cur ≤ n
      → s.epoch ≡ n + 1
      → (store_if_newer (λ s. s.epoch) cur (some s)).0 ≡ some s
  unfolding store_if_newer
  store_next n none s h e = refl
  store_next n (some c) s h e = ground arith

  tick-unlisted :
      (n : ℕ) (cur : Option (RoutingSnapshot F)) (r : Round F)
      → r.listed ≡ none
      → (tick go (record { epoch = n; holder = cur }) r).0 ≡ record { epoch = n; holder = cur }
  unfolding tick publish_built build_snapshot
  tick-unlisted n cur r e = rw e refl

  publish_built-next :
      (n : ℕ) (cur : Option (RoutingSnapshot F)) (r : Round F) (s : RoutingSnapshot F)
      → age cur ≤ n
      → s.epoch ≡ n + 1
      → (publish_built (record { epoch = n; holder = cur }) r (n + 1, some s)).0
        ≡ record { epoch = n + 1; holder = if r.marshals && r.published then some s else cur }
  unfolding publish_built
  publish_built-next n cur r s h e = elim (Bool-cases r.marshals) [
    | inr failed ↦ rw failed refl
    | inl written ↦ elim (Bool-cases r.published) [
      | inr refused ↦ rw (written, refused) refl
      | inl taken ↦ rw (written, taken, store_next n cur s h e) refl
    ]
  ]

  tick-listed :
      (n : ℕ) (cur : Option (RoutingSnapshot F)) (r : Round F) (ws : List Worker)
      → r.listed ≡ some ws
      → age cur ≤ n
      → n + 1 < 2 ^ 64
      → (tick go (record { epoch = n; holder = cur }) r).0 ≡ record {
        epoch = n + 1;
        holder = if r.marshals && r.published then some (snapshot_at (n + 1) r ws) else cur;
      }
  unfolding tick build_snapshot
  tick-listed n cur r ws e h b =
      rw (e, small n 0 (omega arith)) (publish_built-next n cur r (snapshot_at (n + 1) r ws) h refl)

  ticks_from :
      (rs : List (Round F)) (n : ℕ) (cur : Option (RoutingSnapshot F))
      → age cur ≤ n
      → n + length rs < 2 ^ 64
      → (ticks go (record { epoch = n; holder = cur }) rs).holder ≡ last_published n cur rs
  unfolding ticks
  ticks_from [] n cur h b = refl
  ticks_from (r ∷ rs) n cur h b = elim (Option-cases r.listed) [
    | inl e ↦ rw (ticks, tick-unlisted n cur r e, e) (ticks_from rs n cur h (omega arith))
    | inr (ws, e) ↦
        let now = if r.marshals && r.published then some (snapshot_at (n + 1) r ws) else cur in
        let le : age now ≤ n + 1 = ground arith in
        rw (ticks, tick-listed n cur r ws e h (omega arith), e)
          (ticks_from rs (n + 1) now le (omega arith))
  ]

  -- A subscriber that gets every snapshot that is published, in order.
  abbrev pub subscribed :
      Publisher F → List (Round F) → Option (RoutingSnapshot F) → Option (RoutingSnapshot F)
  subscribed p [] held = held
  subscribed p (r ∷ rs) held = subscribed (tick go p r).0 rs (delivered (tick go p r).1 held)

  publish_built-holder :
      (p : Publisher F) (r : Round F) (b : ℕ × Option (RoutingSnapshot F))
      → (publish_built p r b).0.holder ≡ delivered (publish_built p r b).1 p.holder
  unfolding publish_built snapshot_message
  publish_built-holder p r (n, none) = refl
  publish_built-holder p r (n, some s) = elim (Bool-cases r.marshals) [
    | inr failed ↦ rw failed refl
    | inl written ↦ elim (Bool-cases r.published) [
      | inr refused ↦ rw (written, refused) refl
      | inl taken ↦ rw (written, taken) refl
    ]
  ]

  subscribed-holder :
      (rs : List (Round F)) (p : Publisher F) → subscribed p rs p.holder ≡ (ticks go p rs).holder
  unfolding ticks tick
  subscribed-holder [] p = refl
  subscribed-holder (r ∷ rs) p =
      ap (subscribed (tick go p r).0 rs)
        (sym (publish_built-holder p r (build_snapshot go p.epoch r)))
      ∙ subscribed-holder rs (tick go p r).0

  -- A new publisher that has ticked fewer than 2^64 times holds the snapshot of the last tick whose
  -- workers were listed, whose snapshot could be written and was taken by Redis, and none without such a
  -- tick: no snapshot of its own is refused as old. A new subscriber that gets every message holds the
  -- same.
  pub ticks-holder :
      (rs : List (Round F))
      → length rs < 2 ^ 64
      → ((ticks go new_publisher rs).holder ≡ last_published 0 none rs)
        × (subscribed new_publisher rs none ≡ last_published 0 none rs)
  ticks-holder rs b =
      let h = ticks_from rs 0 none (omega arith) (omega arith) in
      (h, subscribed-holder rs new_publisher ∙ h)
