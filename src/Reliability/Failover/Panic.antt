-- ===== src/Reliability/Failover/Panic.antt =====
-- `Do` when the breaker of every worker is open, which the source calls panic mode.
use forge_labs.Base.{
  ℕ, suc, ◌≡◌, refl, sym, subst, ◌∙◌, Bool, true, false, ◌&&◌, Option, none, some, List, [], ◌∷◌,
  All, arith, if◌then◌else◌, lt→ltb, pos, ◌<ℤ◌, ltb, length, Float,
}
use forge_labs.Reliability.Breaker.{open_, err_open, BreakerMap, entry, allow, state_of}
use forge_labs.Reliability.Breaker.Recovery.{elapsed}
use forge_labs.Reliability.Breaker.Views.{Same, Same-trans, state_of-Same, allow_early}
use forge_labs.Reliability.Classify.{Errors}
use forge_labs.Reliability.Failover.Rounds.{attempt_continues}
use forge_labs.Reliability.Failover.{
  Worker, zero_worker, Failover, Env, Run, Turn, DoError, no_healthy_worker, turn, attempt, finish,
  do_, try_all, order, is_shut, budget_refuses, start,
}

module _ {F E : Type 0} where
  -- A worker whose breaker is open, with a timeout that is not over at any time of the run.
  pub record IsShut (env : Env E) (b : BreakerMap F) (w : Worker) : Type 0 where
    pub opened : (entry b w.id).state ≡ open_
    pub early_order : (i : ℕ) → elapsed b w.id (env.order_now i) ≡ false
    pub early_allow : (i : ℕ) → elapsed b w.id (env.allow_now i) ≡ false

  IsShut-Same :
      (env : Env E) (b b' : BreakerMap F) (w : Worker)
      → Same b b'
      → IsShut env b w
      → IsShut env b' w
  IsShut-Same env b b' w same shut = record {
    opened = rw (same.entries w.id) shut.opened;
    early_order = λ i. rw (same.entries w.id, same.config) (shut.early_order i);
    early_allow = λ i. rw (same.entries w.id, same.config) (shut.early_allow i);
  }

  All-Same :
      (env : Env E) (b b' : BreakerMap F) (ws : List Worker)
      → Same b b'
      → All (IsShut env b) ws
      → All (IsShut env b') ws
  All-Same env b b' [] same all = tt
  All-Same env b b' (w ∷ ws) same all =
      (IsShut-Same env b b' w same all.0, All-Same env b b' ws same all.1)

  is_shut_lem :
      (env : Env E) (i : ℕ) (w : Worker) (b : BreakerMap F)
      → IsShut env b w
      → ((is_shut env i w b).0 ≡ true) × Same b (is_shut env i w b).1
  unfolding is_shut
  is_shut_lem env i w b shut =
      let (s, same) = state_of-Same b w.id in
      let shut' = IsShut-Same env b (state_of b w.id).1 w same shut in
      let (refused, kept) =
        allow_early (state_of b w.id).1 w.id (env.order_now i) shut'.opened (shut'.early_order i) in
      rw (s, shut.opened, refused) (refl, Same-trans b (state_of b w.id).1 _ same kept)

  -- If every breaker is shut, the first loop finds no worker to try and changes no breaker.
  order_shut :
      (env : Env E) (i : ℕ) (ws : List Worker) (b : BreakerMap F)
      → All (IsShut env b) ws
      → (b' : BreakerMap F) × (order env i ws (some b) ≡ ([], ws, some b')) × Same b b'
  unfolding order
  order_shut env i [] b all = (b, refl, record { entries = λ v. refl; config = refl })
  order_shut env i (w ∷ ws) b all =
      let (shut, same) = is_shut_lem env i w b all.0 in
      let b1 = (is_shut env i w b).1 in
      let (b2, e, same') = order_shut env (suc i) ws b1 (All-Same env b b1 ws same all.1) in
      (b2, rw (shut, e), Same-trans b b1 b2 same same')

module _ {F E : Type 0} ⦃f : Float F⦄ ⦃errors : Errors E⦄ where
  -- A round in which the breaker refuses, with no call made yet.
  pub turn_refused :
      (fo : Failover F) (env : Env E) (i : ℕ) (w : Worker) (next : List Worker) (r : Run F)
      (b : BreakerMap F)
      → pos 0 <ℤ fo.max
      → r.breaker ≡ some b
      → (allow b w.id (env.allow_now i)).1 ≡ some err_open
      → turn fo env true i 0 none w next r ≡ (
          if ltb 0 i && budget_refuses r
          then Turn.returns zero_worker none r
          else Turn.continues 0 none
              (record r { breaker = some (allow b w.id (env.allow_now i)).0 }))
  unfolding turn
  turn_refused fo env i w next r b h e refused = ground arith

  -- No call is made, the error is `x` and the budget is left alone.
  abbrev Uncalled : Option (DoError E) → Run F → Worker × Option (DoError E) × Run F → Type 0
  Uncalled x r (used, e, r') =
      (used ≡ zero_worker) × (e ≡ x) × (r'.calls ≡ r.calls) × (r'.budget ≡ r.budget)

  attempt_funded :
      (fo : Failover F) (env : Env E) (i : ℕ) (ws : List Worker) (r : Run F) (b : BreakerMap F)
      → pos 0 <ℤ fo.max
      → r.breaker ≡ some b
      → budget_refuses r ≡ false
      → All (IsShut env b) ws
      → Uncalled (some no_healthy_worker) r (attempt fo env true i 0 none ws r)
  unfolding attempt finish budget_refuses
  attempt_funded fo env i [] r b h e funded all = (refl, refl, refl, refl)
  attempt_funded fo env i (w ∷ ws) r b h e funded all =
      let now = env.allow_now i in
      let (refused, same) = allow_early b w.id now (all.0).opened ((all.0).early_allow i) in
      let b' = (allow b w.id now).0 in
      let ih =
        attempt_funded fo env (suc i) ws (record r { breaker = some b' }) b' h refl funded
          (All-Same env b b' ws same all.1) in
      rw
        (attempt_continues fo env true i 0 0 none none w ws r (record r { breaker = some b' })
          (turn_refused fo env i w ws r b h e refused
            ∙ not_spent _ (ltb 0 i) (budget_refuses r) funded))
        ih
    where
      not_spent :
          {A : Type 0} (x : A) {y : A} (p q : Bool) → q ≡ false → (if p && q then x else y) ≡ y
      not_spent x true q e = rw e
      not_spent x false q e = refl

  -- Panic mode calls no one: if there are several workers and the breaker of each is open, with a
  -- timeout that is not over during the run, then `Do` makes no call and returns the zero worker
  -- with `no healthy worker`, as long as the budget does not refuse.
  pub panic_calls_no_one :
      (fo : Failover F) (env : Env E) (w v : Worker) (ws : List Worker) (b : BreakerMap F)
      → pos 0 <ℤ fo.max
      → fo.breaker ≡ some b
      → budget_refuses (start fo fo.breaker) ≡ false
      → All (IsShut env b) (w ∷ v ∷ ws)
      → let (used, e, r) = do_ fo env (w ∷ v ∷ ws) in
        (used ≡ zero_worker) × (e ≡ some no_healthy_worker) × (r.calls ≡ [])
  unfolding do_ budget_refuses
  panic_calls_no_one fo env w v ws b h e funded all =
      let (b', o, same) = order_shut env 0 (w ∷ v ∷ ws) b all in
      let (used, x, c, _) =
        attempt_funded fo env 0 (w ∷ v ∷ ws) (start fo (some b')) b' h refl funded
          (All-Same env b b' (w ∷ v ∷ ws) same all) in
      let o' : order env 0 (w ∷ v ∷ ws) fo.breaker ≡ ([], w ∷ v ∷ ws, some b') =
        subst (λ m. order env 0 (w ∷ v ∷ ws) m ≡ ([], w ∷ v ∷ ws, some b')) (sym e) o in
      let many : ltb 1 (length (w ∷ v ∷ ws)) ≡ true = lt→ltb _ _ (omega arith) in
      rw (o', try_all, many) (used, x, c)
