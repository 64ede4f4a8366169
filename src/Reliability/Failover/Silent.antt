-- ===== src/Reliability/Failover/Silent.antt =====
-- `Do` when the first worker's probes are used up and the retry budget is spent.
use forge_labs.Base.{
  ℕ, suc, ◌≡◌, refl, sym, subst, ◌∙◌, Bool, true, false, none, some, List, [], ◌∷◌, arith,
  if◌then◌else◌, Bool-cases, lt→ltb, pos, ◌<ℤ◌, ltb, length, ◌≢◌, Str, Float, inl, inr,
}
use forge_labs.Reliability.Breaker.{
  State, closed, half_open, open_, state_eq, BreakerMap, entry, allow, state_of,
}
use forge_labs.Reliability.Breaker.Views.{Same, Same-trans, state_of-Same, allow_spent, allow_keeps}
use forge_labs.Reliability.Classify.{Errors}
use forge_labs.Reliability.Failover.Rounds.{attempt_continues, attempt_returns}
use forge_labs.Reliability.Failover.Panic.{turn_refused}
use forge_labs.Reliability.Failover.{
  Worker, zero_worker, Failover, Env, Run, Turn, turn, do_, try_all, order, is_shut, budget_refuses,
  start,
}

ne_open : (s : State) → state_eq s open_ ≡ false → s ≢ open_
ne_open s e p = ground arith

module _ {F E : Type 0} ⦃f : Float F⦄ ⦃errors : Errors E⦄ where
  is_shut_keeps :
      (env : Env E) (i : ℕ) (u : Worker) (b : BreakerMap F) (id : Str)
      → (entry b id).state ≢ open_
      → entry (is_shut env i u b).1 id ≡ entry b id
  unfolding is_shut
  is_shut_keeps env i u b id n =
      let (s, same) = state_of-Same b u.id in
      elim (Bool-cases (state_eq (entry b u.id).state open_)) [
        | inl o ↦
            rw (s, o)
              (allow_keeps (state_of b u.id).1 u.id id (env.order_now i)
                  (rw (same.entries u.id) (state_eq→eq (entry b u.id).state o))
                  (rw (same.entries id) n)
                ∙ same.entries id)
        | inr c ↦ rw (s, c) (same.entries id)
      ]
    where
      state_eq→eq : (t : State) → state_eq t open_ ≡ true → t ≡ open_
      state_eq→eq t e = ground arith

  order_keeps :
      (env : Env E) (i : ℕ) (ws : List Worker) (b : BreakerMap F) (id : Str)
      → (entry b id).state ≢ open_
      → (b' : BreakerMap F) × ((order env i ws (some b)).2 ≡ some b') × (entry b' id ≡ entry b id)
  unfolding order
  order_keeps env i [] b id n = (b, refl, refl)
  order_keeps env i (u ∷ ws) b id n =
      let b1 = (is_shut env i u b).1 in
      let kept = is_shut_keeps env i u b id n in
      let (b2, e, kept') = order_keeps env (suc i) ws b1 id (rw kept n) in
      (b2, pick (is_shut env i u b).0 _ _ e e, kept' ∙ kept)
    where
      pick :
          {A B C : Type 0} {c : C} (t : Bool) (p q : A × B × C)
          → p.2 ≡ c
          → q.2 ≡ c
          → (if t then p else q).2 ≡ c
      pick true p q e e' = e
      pick false p q e e' = e'

  is_shut_ready :
      (env : Env E) (i : ℕ) (w : Worker) (b : BreakerMap F)
      → state_eq (entry b w.id).state open_ ≡ false
      → ((is_shut env i w b).0 ≡ false) × Same b (is_shut env i w b).1
  unfolding is_shut
  is_shut_ready env i w b n = let (s, same) = state_of-Same b w.id in rw (s, n) (refl, same)

  order_ready :
      (env : Env E) (w v : Worker) (ws : List Worker) (b : BreakerMap F)
      → state_eq (entry b w.id).state open_ ≡ false
      → state_eq (entry b v.id).state open_ ≡ false
      → (vs : List Worker) × (open' : List Worker) × (b' : BreakerMap F) × (order env 0
            (w ∷ v ∷ ws)
            (some b)
          ≡ (w ∷ v ∷ vs, open', some b'))
        × (entry b' w.id ≡ entry b w.id)
  unfolding order
  order_ready env w v ws b p q =
      let (s, same) = is_shut_ready env 0 w b p in
      let b1 = (is_shut env 0 w b).1 in
      let (s', same') = is_shut_ready env 1 v b1 (rw (same.entries v.id) q) in
      let b2 = (is_shut env 1 v b1).1 in
      let both = Same-trans b b1 b2 same same' in
      let (b3, e, kept) = order_keeps env 2 ws b2 w.id (rw (both.entries w.id) (ne_open _ p)) in
      (
        (order env 2 ws (some b2)).0,
        (order env 2 ws (some b2)).1,
        b3,
        rw (s, s', e),
        kept ∙ both.entries w.id,
      )

  turn_spent :
      (fo : Failover F) (env : Env E) (many : Bool) (i : ℕ) (w : Worker) (next : List Worker)
      (r : Run F)
      → pos 0 <ℤ fo.max
      → budget_refuses r ≡ true
      → turn fo env many (suc i) 0 none w next r ≡ Turn.returns zero_worker none r
  unfolding turn
  turn_spent fo env many i w next r h e = ground arith

  -- A run that calls no one may report success: the first worker's breaker is half open with its
  -- probes used up, the second's is closed, and the budget refuses retries. Then `Do` makes no
  -- call and returns the zero worker with a nil error.
  pub nil_without_call :
      (fo : Failover F) (env : Env E) (w v : Worker) (ws : List Worker) (b : BreakerMap F)
      → pos 0 <ℤ fo.max
      → fo.breaker ≡ some b
      → (entry b w.id).state ≡ half_open
      → (entry b w.id).half_open_left ≡ 0
      → (entry b v.id).state ≡ closed
      → budget_refuses (start fo fo.breaker) ≡ true
      → let (used, e, r) = do_ fo env (w ∷ v ∷ ws) in
        (used ≡ zero_worker) × (e ≡ none) × (r.calls ≡ [])
  unfolding do_ budget_refuses
  nil_without_call fo env w v ws b h e half left ready refuses =
      let (vs, open', b', o, kept) = order_ready env w v ws b (rw half) (rw ready) in
      let o' : order env 0 (w ∷ v ∷ ws) fo.breaker ≡ (w ∷ v ∷ vs, open', some b') =
        subst (λ m. order env 0 (w ∷ v ∷ ws) m ≡ (w ∷ v ∷ vs, open', some b')) (sym e) o in
      let many : ltb 1 (length (w ∷ v ∷ vs)) ≡ true = lt→ltb _ _ (omega arith) in
      let (refused, _) = allow_spent b' w.id (env.allow_now 0) (rw kept half) (rw kept left) in
      let first = turn_refused fo env 0 w (v ∷ vs) (start fo (some b')) b' h refl refused in
      let r1 = record (start fo (some b')) { breaker = some (allow b' w.id (env.allow_now 0)).0 } in
      let second = turn_spent fo env true 0 v vs r1 h refuses in
      rw (o', try_all, many)
        (rw (attempt_continues fo env true 0 0 0 none none w (v ∷ vs) (start fo (some b')) r1 first)
          (rw (attempt_returns fo env true 1 0 none none v zero_worker vs r1 r1 second)
            (refl, refl, refl)))
