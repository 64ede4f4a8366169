-- ===== src/Planner/Published.antt =====
-- What `Publish` leaves, and which policies a holder takes.
use forge_labs.Base.{
  ℕ, ◌≤◌, ◌<◌, ◌≡◌, ◌⊎◌, not, if◌then◌else◌, refl, ap, arith, Bool, true, false, Option, none, some,
  ◌∷◌, inl, inr,
}
use forge_labs.Routing.Policy.{RoutingPolicy as LivePolicy}
use forge_labs.Routing.Holder.{store_if_newer}
use forge_labs.Planner.{RoutingPolicy}
use forge_labs.Planner.Service.{PolicyStore, Answers, Service, publish_live, publish, offer}

module _ {F : Type 0} where
  abbrev pub live_version : Option (RoutingPolicy F) → ℕ
  live_version none = 0
  live_version (some p) = p.version

  abbrev pub held_version : Option (LivePolicy F) → ℕ
  held_version none = 0
  held_version (some p) = p.version

  abbrev pub out_version : Option (Option (LivePolicy F)) → ℕ
  out_version none = 0
  out_version (some cur) = held_version cur

  -- Neither Redis nor the holder has a policy that is newer than the service's version.
  abbrev pub IsCurrent : Service F → Type 0
  IsCurrent s =
      ((s.policies).has_rdb ≡ true → live_version (s.policies).live ≤ s.version)
      × (out_version s.policy_out ≤ s.version)

  -- What `Publish` may leave: Redis and its messages as they were or with the policy, and with it if the
  -- call returns nil.
  abbrev pub Published : RoutingPolicy F → PolicyStore F → PolicyStore F × Bool → Type 0
  Published p s (s', ok) =
      (s'.has_rdb ≡ s.has_rdb)
      × ((s'.live ≡ s.live) ⊎ (s'.live ≡ some p))
      × (ok ≡ true → s.has_rdb ≡ true → (s'.live ≡ some p) × (s'.messages ≡ p.version ∷ s.messages))

  pub publish_live-Published :
      (p : RoutingPolicy F) (a : Answers) (s : PolicyStore F) → Published p s (publish_live p a s)
  unfolding publish_live
  publish_live-Published p a s = go s.has_rdb a.sets a.publishes refl
    where
      go :
          (there set sent : Bool)
          → s.has_rdb ≡ there
          → Published p s (
              if not there
              then (s, true)
              else if not set
              then (s, false)
              else if not sent
              then (record s { live = some p }, false)
              else (record s { live = some p; messages = p.version ∷ s.messages }, true))
      go false set sent e = (refl, inl refl, λ ok r. absurd (cc))
      go true false sent e = (refl, inl refl, λ ok r. absurd (cc))
      go true true false e = (refl, inr refl, λ ok r. absurd (cc))
      go true true true e = (refl, inr refl, λ ok r. (refl, refl))

  pub publish-Published :
      (p : RoutingPolicy F) (a : Answers) (s : PolicyStore F) → Published p s (publish p a s)
  unfolding publish
  publish-Published p a s = go a.marshals s.has_db a.creates
    where
      go :
          (written there created : Bool)
          → Published p s (
              if not written
              then (s, false)
              else if not there
              then publish_live p a s
              else if not created
              then (s, false)
              else publish_live p a (record s { decisions = p ∷ s.decisions }))
      go false there created = (refl, inl refl, λ ok r. absurd (cc))
      go true false created = publish_live-Published p a s
      go true true false = (refl, inl refl, λ ok r. absurd (cc))
      go true true true = publish_live-Published p a (record s { decisions = p ∷ s.decisions })

  pub offer-version :
      (out : Option (Option (LivePolicy F))) (p : LivePolicy F) (n : ℕ)
      → out_version out ≤ n
      → p.version ≤ n
      → out_version (offer out p) ≤ n
  unfolding offer store_if_newer
  offer-version none p n h k = omega arith
  offer-version (some none) p n h k = omega arith
  offer-version (some (some c)) p n h k = ground arith

  -- A holder takes a policy that is newer than its own.
  pub store-newer :
      (held : Option (LivePolicy F)) (p : LivePolicy F)
      → held_version held < p.version
      → (store_if_newer (λ q. q.version) held (some p)).0 ≡ some p
  unfolding store_if_newer
  store-newer none p h = refl
  store-newer (some c) p h = ground arith

  pub offer-newer :
      (cur : Option (LivePolicy F)) (p : LivePolicy F)
      → held_version cur < p.version
      → offer (some cur) p ≡ some (some p)
  unfolding offer
  offer-newer cur p h = ap (λ o. some o) (store-newer cur p h)
