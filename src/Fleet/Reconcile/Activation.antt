-- ===== src/Fleet/Reconcile/Activation.antt =====
-- What `Activate` orders when it is called again before a worker is ready.
use forge_labs.Base.{
  is_member, ◌+◌, ◌≡◌, refl, Bool, true, false, ◌||◌, Option, none, some, List, [], ◌∷◌, length,
  arith, Bool-cases, inl, inr, Str, Dict, insert, delete, str_key,
}
use forge_labs.Fleet.Hysteresis.{clear_pending}
use forge_labs.Fleet.Policy.{ModelIdentity, identity_key}
use forge_labs.Fleet.Manager.{
  TrackedWorker, Call, Manager, views, ready_views, ready_tracked, ready_count,
}
use forge_labs.Fleet.Scale.{placeholder, new_worker, begin_scale_up, end_scale_up, scale_up}
use forge_labs.Fleet.Scale.States.{calls-scale_up, is_serving}
use forge_labs.Fleet.Reconcile.{activate}
use forge_labs.Fleet.Reconcile.Actions.{provisions}

abbrev any_ready : ModelIdentity → Dict Str TrackedWorker → Bool
any_ready id [] = false
any_ready id ((_, w) ∷ ws) = is_serving id w || any_ready id ws

-- Once a worker is seen, some worker is seen at the end.
ready_tracked-cons :
    (id : ModelIdentity) (a : Str) (s : List Str) (ws : Dict Str TrackedWorker)
    → (b : Str) × (t : List Str) × (ready_tracked id (a ∷ s) ws ≡ b ∷ t)
unfolding ready_tracked
ready_tracked-cons id a s [] = (a, s, refl)
ready_tracked-cons id a s ((_, w) ∷ ws) = elim (Bool-cases (is_serving id w)) [
  | inl y ↦ elim (Bool-cases (is_member (a ∷ s) w.id)) [
    | inl old ↦ rw (y, old) (ready_tracked-cons id a s ws)
    | inr new ↦ rw (y, new) (ready_tracked-cons id w.id (a ∷ s) ws)
  ]
  | inr n ↦ rw n (ready_tracked-cons id a s ws)
]

ready_tracked-any :
    (id : ModelIdentity) (ws : Dict Str TrackedWorker)
    → length (ready_tracked id [] ws) ≡ 0
    → any_ready id ws ≡ false
unfolding ready_tracked is_member
ready_tracked-any id [] h = refl
ready_tracked-any id ((_, w) ∷ ws) h =
    ground (arith, ready_tracked-any id ws, ready_tracked-cons id w.id [] ws)

any-ready_tracked :
    (id : ModelIdentity) (ws : Dict Str TrackedWorker)
    → any_ready id ws ≡ false
    → ready_tracked id [] ws ≡ []
unfolding ready_tracked is_member
any-ready_tracked id [] h = refl
any-ready_tracked id ((_, w) ∷ ws) h = ground (arith, any-ready_tracked id ws)

any_ready-insert :
    (id : ModelIdentity) (k : Str) (w : TrackedWorker) (ws : Dict Str TrackedWorker)
    → is_serving id w ≡ false
    → any_ready id ws ≡ false
    → any_ready id (insert k w ws) ≡ false
unfolding insert
any_ready-insert id k w [] n h = ground arith
any_ready-insert id k w ((j, v) ∷ ws) n h = ground (arith, any_ready-insert id k w ws)

any_ready-delete :
    (id : ModelIdentity) (k : Str) (ws : Dict Str TrackedWorker)
    → any_ready id ws ≡ false
    → any_ready id (delete k ws) ≡ false
unfolding delete
any_ready-delete id k [] h = refl
any_ready-delete id k ((j, v) ∷ ws) h = ground (arith, any_ready-delete id k ws)

ready_tracked-zero :
    (id : ModelIdentity) (s : List Str) (ws : Dict Str TrackedWorker)
    → length (ready_tracked id s ws) ≡ 0
    → (s ≡ []) × (any_ready id ws ≡ false)
ready_tracked-zero id [] ws h = (refl, ready_tracked-any id ws h)
ready_tracked-zero id (a ∷ s) ws h =
    let (b, t, e) = ready_tracked-cons id a s ws in ground (arith, e)

new_worker-is_serving : (wid : Str) (id : ModelIdentity) → is_serving id (new_worker wid id) ≡ false
new_worker-is_serving wid id = ground arith

module _ {F : Type 0} where
  -- No worker of the model is ready, in the snapshot or among the tracked ones.
  ready_count-zero :
      (m : Manager F) (id : ModelIdentity)
      → ready_count m id ≡ 0
      → (ready_views id [] (views m.snapshot) ≡ []) × (any_ready id m.workers ≡ false)
  unfolding ready_count
  ready_count-zero m id h = ready_tracked-zero id (ready_views id [] (views m.snapshot)) m.workers h

  zero-ready_count :
      (m : Manager F) (id : ModelIdentity)
      → ready_views id [] (views m.snapshot) ≡ []
      → any_ready id m.workers ≡ false
      → ready_count m id ≡ 0
  unfolding ready_count
  zero-ready_count m id e h = rw (e, any-ready_tracked id m.workers h) refl

  ready_count-scale_up :
      (m : Manager F) (id : ModelIdentity) (answer : Option Str)
      → m.has_lifecycle ≡ true
      → ready_count m id ≡ 0
      → ready_count (scale_up m id answer).0 id ≡ 0
  unfolding scale_up begin_scale_up end_scale_up ready_count
  ready_count-scale_up m id none l h =
      let (e, n) = ready_count-zero m id h in
      zero-ready_count (scale_up m id none).0 id e (
        any_ready-delete id (placeholder id)
          (insert (placeholder id) (new_worker (placeholder id) id) m.workers)
          (any_ready-insert id (placeholder id) (new_worker (placeholder id) id) m.workers
            (new_worker-is_serving (placeholder id) id) n))
  ready_count-scale_up m id (some wid) l h =
      let (e, n) = ready_count-zero m id h in
      let held = insert (placeholder id) (new_worker (placeholder id) id) m.workers in
      let n' =
        any_ready-insert id (placeholder id) (new_worker (placeholder id) id) m.workers
          (new_worker-is_serving (placeholder id) id) n in
      rw l (
        zero-ready_count
          (record m {
            workers = insert wid (new_worker wid id) (delete (placeholder id) held);
            hyst = clear_pending m.hyst (identity_key id);
            calls = Call.provision id ∷ m.calls;
          })
          id e
          (any_ready-insert id wid (new_worker wid id) (delete (placeholder id) held)
            (new_worker-is_serving wid id) (any_ready-delete id (placeholder id) held n')))

  -- With a lifecycle, a model of which no worker is ready is provisioned again by every call of
  -- `Activate` until one is: two calls order two workers, whatever the maximum of its policy.
  pub activate_again :
      (m : Manager F) (base : Str) (a b : Option Str)
      → m.has_lifecycle ≡ true
      → ready_count m (record { base_model = base; adapter = [] }) ≡ 0
      → provisions (activate (activate m base a).0 base b).0.calls ≡ provisions m.calls + 2
  unfolding activate
  activate_again m base a b l h =
      let id : ModelIdentity = record { base_model = base; adapter = [] } in
      let m' = (scale_up m id a).0 in
      let h' = ready_count-scale_up m id a l h in
      ground (arith, h, h', calls-scale_up m id a, calls-scale_up m' id b)
