-- ===== src/Routing/Publisher/Composed.antt =====
-- From the registry and the heartbeats to the candidates that the scheduler reads from the snapshot.
use forge_labs.Base.{
  if◌then◌else◌, ◌+◌, ◌%◌, ◌^◌, ◌==◌, ◌≡◌, refl, sym, ap, ◌∙◌, arith, ℕ, Bool, true, ◌&&◌, ◌||◌,
  Option, none, some, List, [], ◌∷◌, ◌++◌, Bool-cases, inl, inr, ℤ, Str, str_eq, str_eq→eq, Dict,
  str_key, lookup, Distinct, Float,
}
use forge_labs.Health.{Heartbeat}
use forge_labs.Health.Keyed.{IsKeyed}
use forge_labs.Routing.Snapshot.{WorkerView, RoutingSnapshot}
use forge_labs.Routing.Capabilities.{Packages, CapabilityView, parse_capabilities}
use forge_labs.Routing.Publisher.{
  ServableModel, Worker, Round, Publisher, is_live, is_ready, beats_by_id, view_of, views_of_models,
  views_of_worker, views_of_workers, views_of, build_snapshot, publish_built, tick,
}
use forge_labs.Routing.Publisher.Beats.{lookup-beats_by_id}
use forge_labs.Scheduler.Snapshot.{collect}
use forge_labs.Scheduler.Snapshot.Health.{any, has, collect_lem}

any-append :
    {A : Type 0} (p : A → Bool) (xs ys : List A) → any p (xs ++ ys) ≡ (any p xs || any p ys)
any-append p [] ys = refl
any-append p (x ∷ xs) ys = ground (arith, any-append p xs ys)

-- Whether a worker of that ID is in the registry.
abbrev pub is_listed : Str → List Worker → Bool
is_listed id ws = any (λ w. str_eq w.id id) ws

module _ {F : Type 0} where
  -- A test that every view of a worker answers alike.
  module _ (q : WorkerView F → Bool) (w : Worker) (hb : Option (Heartbeat F))
      (caps : CapabilityView F) (b : Bool)
      (ok : (base adapter : Str) (n : ℕ) → q (view_of w hb caps base adapter n) ≡ b) where
    abbrev context_of : ServableModel → ℕ
    context_of m = if m.max_context == 0 then caps.max_context else m.max_context

    any-views_of_models :
        (m : ServableModel) (ms : List ServableModel)
        → any q (views_of_models w hb caps (m ∷ ms)) ≡ b
    unfolding views_of_models
    any-views_of_models m [] = ground (arith, ok m.base_model m.adapter (context_of m))
    any-views_of_models m (m' ∷ ms) =
        ground (arith, ok m.base_model m.adapter (context_of m), any-views_of_models m' ms)

    any-views_of_worker : (ms : List ServableModel) → any q (views_of_worker w hb caps ms) ≡ b
    unfolding views_of_worker
    any-views_of_worker [] = ground (arith, ok [] [] caps.max_context)
    any-views_of_worker (m ∷ ms) = any-views_of_models m ms

module _ {F : Type 0} ⦃f : Float F⦄ (go : Packages F) where
  abbrev workers_in : Option (RoutingSnapshot F) → List (WorkerView F)
  workers_in none = []
  workers_in (some s) = s.workers

  -- What is published is what was built.
  publish_built-sent :
      (p : Publisher F) (r : Round F) (n : ℕ) (s snap : RoutingSnapshot F)
      → (publish_built p r (n, some s)).1 ≡ some snap
      → some snap ≡ some s
  unfolding publish_built
  publish_built-sent p r n s snap h = elim (Bool-cases r.marshals) [
    | inr failed ↦ absurd (ground arith)
    | inl written ↦ elim (Bool-cases r.published) [
      | inr refused ↦ absurd (ground arith)
      | inl taken ↦ sym h ∙ rw (written, taken) refl
    ]
  ]

  workers-tick :
      (p : Publisher F) (r : Round F) (snap : RoutingSnapshot F) (ws : List Worker)
      → r.listed ≡ some ws
      → (tick go p r).1 ≡ some snap
      → snap.workers ≡ views_of go r.held ws r.virtual_views
  unfolding tick build_snapshot
  workers-tick p r snap ws l h =
      let next = (p.epoch + 1) % 2 ^ 64 in
      let s : RoutingSnapshot F = record {
        built_at = r.now;
        epoch = next;
        workers = views_of go r.held ws r.virtual_views;
      } in
      let e : build_snapshot go p.epoch r ≡ (next, some s) = rw l refl in
      ap workers_in
        (publish_built-sent p r next s snap (ap (λ b. (publish_built p r b).1) (sym e) ∙ h))

  -- A test of the ID and of what the heartbeat says.
  module _ (q : WorkerView F → Bool) (t : Option (Heartbeat F) → Bool) (id : Str)
      (ok : (w : Worker) (hb : Option (Heartbeat F)) (caps : CapabilityView F) (base adapter : Str)
          (n : ℕ)
        → q (view_of w hb caps base adapter n) ≡ (str_eq w.id id && t hb)) where
    same_beat :
        (wid : Str) (by_id : Dict Str (Heartbeat F))
        → (str_eq wid id && t (lookup wid by_id)) ≡ (str_eq wid id && t (lookup id by_id))
    same_beat wid by_id = elim (Bool-cases (str_eq wid id)) [
      | inl e ↦ ap (λ k. str_eq wid id && t (lookup k by_id)) (str_eq→eq wid id e)
      | inr e ↦ rw e refl
    ]

    any-views_of_workers :
        (by_id : Dict Str (Heartbeat F)) (ws : List Worker)
        → any q (views_of_workers go by_id ws) ≡ (is_listed id ws && t (lookup id by_id))
    unfolding views_of_workers
    any-views_of_workers by_id [] = refl
    any-views_of_workers by_id (w ∷ ws) =
        let caps = parse_capabilities go w.capabilities w.runtime_kind in
        ground (
          arith,
          any-append q (views_of_worker w (lookup w.id by_id) caps w.models)
              (views_of_workers go by_id ws),
          any-views_of_worker q w (lookup w.id by_id) caps (str_eq w.id id && t (lookup w.id by_id))
              (ok w (lookup w.id by_id) caps) w.models,
          same_beat w.id by_id,
          any-views_of_workers by_id ws,
        )

    any-views_of :
        (held : Dict Str (Heartbeat F)) (ws : List Worker) (virtual_views : List (WorkerView F))
        → IsKeyed held
        → Distinct held
        → any q (views_of go (some held) ws virtual_views)
          ≡ ((is_listed id ws && t (lookup id held)) || any q virtual_views)
    unfolding views_of
    any-views_of held ws virtual_views k d =
        any-append q (views_of_workers go (beats_by_id (some held)) ws) virtual_views
        ∙ ap (λ b. b || any q virtual_views)
            (any-views_of_workers (beats_by_id (some held)) ws
              ∙ ap (λ o. is_listed id ws && t o) (lookup-beats_by_id id held k d))

    -- The same of the snapshot that a tick publishes.
    any-tick :
        (p : Publisher F) (r : Round F) (snap : RoutingSnapshot F) (ws : List Worker)
        (held : Dict Str (Heartbeat F))
        → r.listed ≡ some ws
        → r.held ≡ some held
        → IsKeyed held
        → Distinct held
        → (tick go p r).1 ≡ some snap
        → any q snap.workers ≡ ((is_listed id ws && t (lookup id held)) || any q r.virtual_views)
    any-tick p r snap ws held l h k d s =
        ap (any q) (workers-tick p r snap ws l s ∙ ap (λ o. views_of go o ws r.virtual_views) h)
        ∙ any-views_of held ws r.virtual_views k d

  -- A tick that publishes a snapshot lists the workers, and the candidates that the scheduler makes of
  -- that snapshot agree with the registry and the heartbeats, if these are held under the IDs of their
  -- workers and each once: a worker has a candidate if and only if it is in the registry or has a view of
  -- the virtual source; it is healthy if and only if it is in the registry and has a heartbeat, or a
  -- virtual view is healthy; and it is ready if and only if it is in the registry and its heartbeat says
  -- so, or a virtual view is ready.
  pub tick-candidates :
      (load : Option (Str → ℤ)) (latency : Option (Str → F)) (p : Publisher F) (r : Round F)
      (snap : RoutingSnapshot F) (ws : List Worker) (held : Dict Str (Heartbeat F)) (id : Str)
      → r.listed ≡ some ws
      → r.held ≡ some held
      → IsKeyed held
      → Distinct held
      → (tick go p r).1 ≡ some snap
      → (has (λ _. true) (lookup id (collect load latency [] snap.workers))
          ≡ ((is_listed id ws && true) || any (λ v. str_eq v.id id && true) r.virtual_views))
        × (has (λ c. c.healthy) (lookup id (collect load latency [] snap.workers)) ≡ (
            (is_listed id ws && is_live (lookup id held))
            || any (λ v. str_eq v.id id && v.healthy) r.virtual_views))
        × (has (λ c. c.ready) (lookup id (collect load latency [] snap.workers)) ≡ (
            (is_listed id ws && is_ready (lookup id held))
            || any (λ v. str_eq v.id id && v.ready) r.virtual_views))
  unfolding view_of
  tick-candidates load latency p r snap ws held id l h k d s =
      let (known, healthy, ready) = collect_lem load latency id snap.workers in
      (
        known
            ∙ any-tick (λ v. str_eq v.id id && true) (λ _. true) id
                (λ w hb caps base adapter n. refl) p r snap ws held l h k d s,
        healthy
            ∙ any-tick (λ v. str_eq v.id id && v.healthy) is_live id
                (λ w hb caps base adapter n. refl) p r snap ws held l h k d s,
        ready
            ∙ any-tick (λ v. str_eq v.id id && v.ready) is_ready id
                (λ w hb caps base adapter n. refl) p r snap ws held l h k d s,
      )
