-- ===== src/Fleet/Scale/States.antt =====
-- What scaling and draining do to the calls and to a worker's state.
use forge_labs.Base.{
  ℕ, ◌≡◌, refl, ◌∙◌, Bool, true, false, ◌&&◌, Option, none, some, List, [], ◌∷◌, All, arith,
  Bool-cases, inl, inr, ℤ, ◌≤ℤ◌, ltb_ℤ, Str, Dict, lookup, str_key, lookup-insert_self,
}
use forge_labs.Fleet.Policy.{ModelIdentity}
use forge_labs.Fleet.Manager.{
  ready, draining, retired, TrackedWorker, Call, Manager, is_state, of_model, update_worker,
  set_state, set_in_flight,
}
use forge_labs.Fleet.Scale.{
  Poll, pick_idle, log_call, begin_scale_up, end_scale_up, scale_up, wait_done, on_worker_ready,
  set_all, wait_idle, begin_drain, end_drain,
}

-- A ready worker of a model.
abbrev pub is_serving : ModelIdentity → TrackedWorker → Bool
is_serving id w = of_model id w && is_state w.state ready

abbrev pub NoneLess : ModelIdentity → ℤ → Dict Str TrackedWorker → Type 0
NoneLess id n ws = All (λ e. is_serving id e.1 ≡ true → n ≤ℤ e.1.in_flight) ws

-- What a pick is: none if no worker serves, else one that does, of the least load.
abbrev pub IsLeast : ModelIdentity → Dict Str TrackedWorker → Option (Str × TrackedWorker) → Type 0
IsLeast id ws none = All (λ e. is_serving id e.1 ≡ false) ws
IsLeast id ws (some (k, w)) = (is_serving id w ≡ true) × NoneLess id w.in_flight ws

module _ {F : Type 0} where
  pub calls-update_worker :
      (wid : Str) (g : TrackedWorker → TrackedWorker) (m : Manager F)
      → (update_worker wid g m).calls ≡ m.calls
  unfolding update_worker
  calls-update_worker wid g m = ground arith

  pub lookup-update_worker :
      (wid : Str) (g : TrackedWorker → TrackedWorker) (m : Manager F) (w : TrackedWorker)
      → lookup wid m.workers ≡ some w
      → lookup wid (update_worker wid g m).workers ≡ some (g w)
  unfolding update_worker
  lookup-update_worker wid g m w e = rw (e, update_worker) (lookup-insert_self wid (g w) m.workers)

  calls-set_all : (us : List (Str × ℤ)) (m : Manager F) → (set_all m us).calls ≡ m.calls
  unfolding set_all set_in_flight
  calls-set_all [] m = refl
  calls-set_all ((wid, n) ∷ us) m =
      calls-set_all us (set_in_flight m wid n)
      ∙ calls-update_worker wid (λ w. record w { in_flight = n }) m

  pub calls-wait_idle :
      (deadline : ℕ) (wid : Str) (ps : List Poll) (m : Manager F)
      → (wait_idle deadline wid m ps).0.calls ≡ m.calls
  unfolding wait_idle
  calls-wait_idle deadline wid [] m = refl
  calls-wait_idle deadline wid (p ∷ ps) m =
      ground
        (arith, calls-set_all p.updates m, calls-wait_idle deadline wid ps (set_all m p.updates))

  pub calls-scale_up :
      (m : Manager F) (id : ModelIdentity) (answer : Option Str)
      → (scale_up m id answer).0.calls ≡ Call.provision id ∷ m.calls
  unfolding scale_up begin_scale_up end_scale_up
  calls-scale_up m id none = refl
  calls-scale_up m id (some wid) = ground arith

-- What the loop finds once it has a worker: one that serves, with no more load than that one and
-- than any other.
pick_some :
    (id : ModelIdentity) (k : Str) (b : TrackedWorker) (ws : Dict Str TrackedWorker)
    → is_serving id b ≡ true
    → (r : Str × TrackedWorker) × (pick_idle id (some (k, b)) ws ≡ some r)
      × (is_serving id r.1 ≡ true)
      × (r.1.in_flight ≤ℤ b.in_flight)
      × NoneLess id r.1.in_flight ws
unfolding pick_idle
pick_some id k b [] s = ((k, b), refl, s, omega arith, tt)
pick_some id k b ((j, w) ∷ ws) s = elim (Bool-cases (is_serving id w)) [
  | inl yes_w ↦ elim (Bool-cases (ltb_ℤ w.in_flight b.in_flight)) [
    | inl less ↦
        let (r, e, t, le, rest) = pick_some id j w ws yes_w in
        (r, rw (yes_w, less) e, t, ground arith, ((λ _. le), rest))
    | inr more ↦
        let (r, e, t, le, rest) = pick_some id k b ws s in
        (r, rw (yes_w, more) e, t, le, ((λ _. ground arith), rest))
  ]
  | inr no_w ↦
      let (r, e, t, le, rest) = pick_some id k b ws s in
      (r, rw no_w e, t, le, ((λ q. absurd (cc)), rest))
]

IsLeast-cons :
    (id : ModelIdentity) (k : Str) (w : TrackedWorker) (ws : Dict Str TrackedWorker)
    (o : Option (Str × TrackedWorker))
    → is_serving id w ≡ false
    → IsLeast id ws o
    → IsLeast id ((k, w) ∷ ws) o
IsLeast-cons id k w ws none n h = (n, h)
IsLeast-cons id k w ws (some r) n h = (h.0, ((λ q. absurd (cc)), h.1))

-- `drainOne` picks a ready worker of the model with the least number of requests in flight, and
-- none exactly if there is no ready worker of the model.
pub pick_idle-IsLeast :
    (id : ModelIdentity) (ws : Dict Str TrackedWorker) → IsLeast id ws (pick_idle id none ws)
unfolding pick_idle
pick_idle-IsLeast id [] = tt
pick_idle-IsLeast id ((k, w) ∷ ws) = elim (Bool-cases (is_serving id w)) [
  | inl yes_w ↦
      let (r, e, t, le, rest) = pick_some id k w ws yes_w in rw (yes_w, e) (t, ((λ _. le), rest))
  | inr no_w ↦
      rw no_w (IsLeast-cons id k w ws (pick_idle id none ws) no_w (pick_idle-IsLeast id ws))
]

module _ {F : Type 0} where
  lookup-begin_drain :
      (m : Manager F) (wid : Str) (w : TrackedWorker)
      → lookup wid m.workers ≡ some w
      → lookup wid (begin_drain m wid wid).workers ≡ some (record w { state = draining })
  unfolding begin_drain
  lookup-begin_drain m wid w e =
      let done = lookup-update_worker wid (λ w. record w { state = draining }) m w e in
      elim (Bool-cases (set_state wid draining m).has_rdb) [ inl b ↦ rw b done | inr b ↦ rw b done ]

  lookup-end_drain :
      (m : Manager F) (id : ModelIdentity) (wid : Str) (w : TrackedWorker)
      → lookup wid m.workers ≡ some w
      → lookup wid (end_drain m id wid).workers ≡ some (record w { state = retired })
  unfolding end_drain
  lookup-end_drain m id wid w e =
      lookup-update_worker wid (λ w. record w { state = retired }) (log_call (Call.retire wid) m) w
        e

  pub calls-end_drain :
      (m : Manager F) (id : ModelIdentity) (wid : Str)
      → (end_drain m id wid).calls ≡ Call.retire wid ∷ m.calls
  unfolding end_drain
  calls-end_drain m id wid =
      calls-update_worker wid (λ w. record w { state = retired }) (log_call (Call.retire wid) m)

  -- If a worker is drained between the callback that marks it ready and the end of the wait for
  -- it, it is marked ready again, although its retirement was ordered.
  pub late_ready_revives :
      (m : Manager F) (id : ModelIdentity) (wid : Str) (w : TrackedWorker)
      → lookup wid m.workers ≡ some w
      → (lookup wid
            (wait_done (end_drain (begin_drain (on_worker_ready m wid) wid wid) id wid) wid).workers
          ≡ some (record w { state = ready }))
        × ((calls : List Call) × ((wait_done
                (end_drain (begin_drain (on_worker_ready m wid) wid wid) id wid)
                wid).calls
              ≡ Call.retire wid ∷ calls))
  unfolding wait_done on_worker_ready
  late_ready_revives m id wid w e =
      let m1 = on_worker_ready m wid in
      let m2 = begin_drain m1 wid wid in
      let m3 = end_drain m2 id wid in
      let e1 = lookup-update_worker wid (λ w. record w { state = ready }) m w e in
      let e2 = lookup-begin_drain m1 wid (record w { state = ready }) e1 in
      let e3 = lookup-end_drain m2 id wid (record w { state = draining }) e2 in
      (
        lookup-update_worker wid (λ w. record w { state = ready }) m3 (record w { state = retired })
            e3,
        (
          m2.calls,
          calls-update_worker wid (λ w. record w { state = ready }) m3 ∙ calls-end_drain m2 id wid,
        ),
      )
