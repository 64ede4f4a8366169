-- ===== src/Planner/Versions.antt =====
-- The version of the planner's policies: every policy that is published is newer than those before it, also
-- after a restart.
use forge_labs.Base.{
  ℕ, ◌+◌, ◌^◌, ◌≤◌, ◌<◌, ◌≡◌, ◌⊎◌, if◌then◌else◌, refl, sym, ap, subst, ◌∙◌, arith, Bool, true,
  false, Option, none, some, ◌∷◌, inl, inr, Str, Float,
}
use forge_labs.Routing.Policy.{RoutingPolicy as LivePolicy}
use forge_labs.Planner.{wire_of, Objective, RoutingPolicy, to_routing_policy}
use forge_labs.Planner.Service.{
  read_live, ObjectiveStore, PolicyStore, Service, TickEnv, publish, load_live, offer, new_service,
  start_from, start, next_policy, planned, end_tick, tick,
}
use forge_labs.Routing.Subscriber.{policy_message, parse_policy_json}
use forge_labs.Planner.Published.{
  live_version, held_version, out_version, IsCurrent, Published, publish-Published, offer-version,
  store-newer, offer-newer,
}

module _ {F : Type 0} ⦃f : Float F⦄ where
  -- The services of one planner: one that has been started by Redis's policy, if there is one, and what
  -- becomes of it by a tick, whatever it meets, and by a policy of Redis that the subscriber of the
  -- process stores in the holder. Versions do not wrap.
  pub data Reaches (hash : Objective F → Str) : Service F → Type 0 where
    started :
        (objectives : ObjectiveStore F) (policies : PolicyStore F) (out : Bool)
        → Reaches hash
            (start true (new_service objectives policies (if out then some none else none)))
    ticked :
        (id : ℕ) (env : TickEnv F) (s : Service F)
        → Reaches hash s
        → s.version + 1 < 2 ^ 64
        → Reaches hash (tick hash id env s).0
    heard :
        (s : Service F) (p : RoutingPolicy F)
        → Reaches hash s
        → (s.policies).has_rdb ≡ true
        → (s.policies).live ≡ some p
        → Reaches hash (record s { policy_out = offer s.policy_out (to_routing_policy p) })

  start_from-IsCurrent :
      (o : Option (RoutingPolicy F)) (s : Service F)
      → s.version ≡ 0
      → out_version s.policy_out ≡ 0
      → ((s.policies).has_rdb ≡ true → (s.policies).live ≡ o)
      → IsCurrent (start_from o s)
  unfolding start_from to_routing_policy
  start_from-IsCurrent none s v out l = (λ q. rw (l q) (omega arith), rw out (omega arith))
  start_from-IsCurrent (some p) s v out l = (
    λ q. rw (l q) (omega arith),
    offer-version s.policy_out (to_routing_policy p) p.version (rw out (omega arith)) (omega arith),
  )

  load_live-answered : (s : PolicyStore F) → s.has_rdb ≡ true → s.live ≡ load_live true s
  unfolding load_live
  load_live-answered s h = ground arith

  started-IsCurrent :
      (objectives : ObjectiveStore F) (policies : PolicyStore F) (out : Bool)
      → IsCurrent (start true (new_service objectives policies (if out then some none else none)))
  unfolding start
  started-IsCurrent objectives policies false =
      start_from-IsCurrent (load_live true policies) (new_service objectives policies none) refl
        refl (load_live-answered policies)
  started-IsCurrent objectives policies true =
      start_from-IsCurrent (load_live true policies) (new_service objectives policies (some none))
        refl refl (load_live-answered policies)

  live-le :
      (l l' : Option (RoutingPolicy F)) (p : RoutingPolicy F)
      → (l' ≡ l) ⊎ (l' ≡ some p)
      → live_version l ≤ p.version
      → live_version l' ≤ p.version
  live-le l l' p (inl e) h = rw e h
  live-le l l' p (inr e) h = rw e (omega arith)

  end_tick-IsCurrent :
      (s : Service F) (p : RoutingPolicy F) (r : PolicyStore F × Bool)
      → s.version ≡ p.version
      → IsCurrent s
      → Published p s.policies r
      → IsCurrent (end_tick s p r).0
  unfolding end_tick to_routing_policy
  end_tick-IsCurrent s p (policies, false) e (redis, out) (rdb, live, good) = (
    λ q.
        subst (λ n. live_version policies.live ≤ n) (sym e)
          (live-le (s.policies).live policies.live p live
            (subst (λ n. live_version (s.policies).live ≤ n) e (redis (sym rdb ∙ q)))),
    out,
  )
  end_tick-IsCurrent s p (policies, true) e (redis, out) (rdb, live, good) = (
    λ q.
        subst (λ n. live_version policies.live ≤ n) (sym e)
          (live-le (s.policies).live policies.live p live
            (subst (λ n. live_version (s.policies).live ≤ n) e (redis (sym rdb ∙ q)))),
    offer-version s.policy_out (to_routing_policy p) s.version out (omega arith),
  )

  planned-version :
      (hash : Objective F → Str) (id : ℕ) (env : TickEnv F) (s : Service F)
      → s.version + 1 < 2 ^ 64
      → ((planned hash id env s).0.version ≡ s.version + 1)
        × ((planned hash id env s).1.version ≡ s.version + 1)
  unfolding planned next_policy
  planned-version hash id env s b = (omega arith, omega arith)

  planned-IsCurrent :
      (hash : Objective F → Str) (id : ℕ) (env : TickEnv F) (s : Service F)
      → s.version + 1 < 2 ^ 64
      → IsCurrent s
      → IsCurrent (planned hash id env s).0
  unfolding planned next_policy
  planned-IsCurrent hash id env s b (redis, out) =
      (λ q. let h = redis q in omega arith, omega arith)

  tick-IsCurrent :
      (hash : Objective F → Str) (id : ℕ) (env : TickEnv F) (s : Service F)
      → s.version + 1 < 2 ^ 64
      → IsCurrent s
      → IsCurrent (tick hash id env s).0
  unfolding tick planned next_policy
  tick-IsCurrent hash id env s b h =
      let (s', p) = planned hash id env s in
      end_tick-IsCurrent s' p (publish p env.answers s.policies) refl
        (planned-IsCurrent hash id env s b h) (publish-Published p env.answers s.policies)

  heard-IsCurrent :
      (s : Service F) (p : RoutingPolicy F)
      → (s.policies).has_rdb ≡ true
      → (s.policies).live ≡ some p
      → IsCurrent s
      → IsCurrent (record s { policy_out = offer s.policy_out (to_routing_policy p) })
  unfolding to_routing_policy
  heard-IsCurrent s p there live (redis, out) = (
    redis,
    offer-version s.policy_out (to_routing_policy p) s.version out
        (subst (λ l. live_version l ≤ s.version) live (redis there)),
  )

  reached-IsCurrent : (hash : Objective F → Str) (s : Service F) → Reaches hash s → IsCurrent s
  reached-IsCurrent hash s (started objectives policies out) =
      started-IsCurrent objectives policies out
  reached-IsCurrent hash s (ticked id env t r b) =
      tick-IsCurrent hash id env t b (reached-IsCurrent hash t r)
  reached-IsCurrent hash s (heard t p r there live) =
      heard-IsCurrent t p there live (reached-IsCurrent hash t r)

  -- The policy that a service has published: Redis holds it, a message has its version, which is newer
  -- than that of the policy before, a subscriber with another holder takes it from Redis, and the
  -- service's own holder holds it.
  abbrev pub Taken : Option (LivePolicy F) → Service F → Service F → RoutingPolicy F → Type 0
  Taken held s s' p =
      ((s'.policies).live ≡ some p)
      × ((s'.policies).messages ≡ p.version ∷ (s.policies).messages)
      × (live_version (s.policies).live < p.version)
      × (policy_message (read_live s'.policies) held ≡ some (to_routing_policy p))
      × (s'.policy_out ≡ some (some (to_routing_policy p)))

  -- A subscriber that reads a newer policy from Redis takes it.
  message-newer :
      (held : Option (LivePolicy F)) (s : PolicyStore F) (p : RoutingPolicy F)
      → s.live ≡ some p
      → held_version held < p.version
      → policy_message (read_live s) held ≡ some (to_routing_policy p)
  unfolding policy_message parse_policy_json read_live wire_of to_routing_policy
  message-newer held s p live newer = rw live (store-newer held (to_routing_policy p) newer)

  end_tick-Taken :
      (s s' : Service F) (p : RoutingPolicy F) (r : PolicyStore F × Bool)
      (held cur : Option (LivePolicy F))
      → s.policy_out ≡ s'.policy_out
      → p.version ≡ s.version + 1
      → (s.policies).has_rdb ≡ true
      → held_version held ≤ s.version
      → s.policy_out ≡ some cur
      → IsCurrent s
      → Published p s.policies r
      → (end_tick s' p r).1 ≡ true
      → Taken held s (end_tick s' p r).0 p
  unfolding end_tick to_routing_policy
  end_tick-Taken s s' p (policies, false) held cur o v there old e h k ok = absurd (cc)
  end_tick-Taken s s' p (policies, true) held cur o v there old e (redis, out) (rdb, live, good)
        ok =
      let (now_live, sent) = good refl there in
      (
        now_live,
        sent,
        (let h = redis there in omega arith),
        message-newer held policies p now_live (omega arith),
        ap (λ x. offer x (to_routing_policy p)) (sym o ∙ e)
            ∙ offer-newer cur (to_routing_policy p)
                (let h = subst (λ x. out_version x ≤ s.version) e out in omega arith),
      )

  -- A tick that returns nil, of a planner with Redis and a holder that was started by the policy that
  -- Redis held and has since ticked and heard Redis's policies in any order: Redis holds its policy, a
  -- message has the policy's version, which is newer than that of the policy before, every
  -- subscriber that holds no policy newer than the planner was takes it from Redis, and the planner's own
  -- holder holds it.
  -- The version does not wrap.
  pub tick-Taken :
      (hash : Objective F → Str) (id : ℕ) (env : TickEnv F) (s : Service F)
      (held cur : Option (LivePolicy F))
      → Reaches hash s
      → s.version + 1 < 2 ^ 64
      → (s.policies).has_rdb ≡ true
      → held_version held ≤ s.version
      → s.policy_out ≡ some cur
      → (tick hash id env s).1 ≡ true
      → Taken held s (tick hash id env s).0 (planned hash id env s).1
  unfolding tick planned
  tick-Taken hash id env s held cur reached b there old e ok =
      let (s', p) = planned hash id env s in
      end_tick-Taken s s' p (publish p env.answers s.policies) held cur refl
        (planned-version hash id env s b).1 there old e (reached-IsCurrent hash s reached)
        (publish-Published p env.answers s.policies) ok
