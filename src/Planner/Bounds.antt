-- ===== src/Planner/Bounds.antt =====
-- The weights that the planner publishes lie between 0 and 1.
use forge_labs.Base.{
  ℕ, suc, ◌≡◌, arith, Bool, true, false, Option, none, some, List, [], ◌∷◌, if◌then◌else◌, length,
  All, is_nil, Bool-cases, inl, inr, Str, str_eq, Dict, str_key, insert, map_values, Float,
  IsOrdered, IsMonotone, IsGraded, le_trans_float, lt_asymm_float,
}
use forge_labs.Routing.Snapshot.{WorkerView, RoutingSnapshot}
use forge_labs.Scheduler.Scorers.Bounds.{IsShare, pos-num, zero-IsShare, one-IsShare, div-IsShare}
use forge_labs.Planner.{
  Objective, ModelPolicy, RoutingPolicy, clamp01, worker_score, raw_from, equal_from, shares_of,
  score_workers, by_model_from, model_policy, weights_only, plan_models, plan, max_cost_from,
}

module _ {V : Type 0} where
  -- A predicate on every value of a map.
  abbrev pub AllValues : (V → Type 0) → Dict Str V → Type 0
  AllValues P d = All (λ e. P e.1) d

  insert-AllValues :
      (P : V → Type 0) (k : Str) (v : V) (d : Dict Str V)
      → P v
      → AllValues P d
      → AllValues P (insert k v d)
  unfolding insert
  insert-AllValues P k v [] p t = (p, tt)
  insert-AllValues P k v ((j, w) ∷ d) p (q, t) = go (insert-AllValues P k v d p t) (str_eq j k)
    where
      go :
          AllValues P (insert k v d)
          → (b : Bool) → AllValues P (if b then (k, v) ∷ d else (j, w) ∷ insert k v d)
      go ih true = (p, t)
      go ih false = (q, ih)

  map-AllValues :
      {W : Type 0} (P : V → Type 0) (Q : W → Type 0) (g : V → W) (d : Dict Str V)
      → ((v : V) → P v → Q (g v))
      → AllValues P d
      → All (λ e. Q e.1) (map_values g d)
  map-AllValues P Q g [] ok t = tt
  map-AllValues P Q g ((k, v) ∷ d) ok (p, t) = (ok v p, map-AllValues P Q g d ok t)

module _ {F : Type 0} ⦃f : Float F⦄ where
  -- 0 ≤ x ≤ sum
  abbrev IsWithin : F → F → Type 0
  IsWithin sum x = (f.lt x (f.num 0) ≡ false) × (f.lt sum x ≡ false)

  abbrev pub Shares : Dict Str F → Type 0
  Shares = AllValues IsShare

  -- The four weights, and the weights of the workers of every model.
  abbrev pub IsWeighted : RoutingPolicy F → Type 0
  IsWeighted p =
      IsShare p.weight_load
      × IsShare p.weight_latency
      × IsShare p.weight_cost
      × IsShare p.weight_affinity
      × AllValues (λ mp. Shares mp.weights) p.models

  module _ (o : IsOrdered f) (m : IsMonotone f) (g : IsGraded f) where
    one_is_most : (v : F) → f.lt (f.num 1) (if f.lt v (f.num 1) then v else f.num 1) ≡ false
    one_is_most v = ground (arith, lt_asymm_float f o v (f.num 1), o.lt_irrefl (f.num 1))

    from_zero-IsShare :
        (x : F) → f.lt (f.num 1) x ≡ false → IsShare (if f.lt (f.num 0) x then x else f.num 0)
    from_zero-IsShare x h = ground (arith, lt_asymm_float f o (f.num 0) x, zero-IsShare o m g)

    clamp01-IsShare : (v : F) → IsShare (clamp01 v)
    unfolding clamp01
    clamp01-IsShare v = from_zero-IsShare (if f.lt v (f.num 1) then v else f.num 1) (one_is_most v)

    either-IsShare : (b : Bool) (x y : F) → IsShare x → IsShare y → IsShare (if b then x else y)
    either-IsShare true x y h k = h
    either-IsShare false x y h k = k

    at_least :
        (sc least : F)
        → f.lt least (f.num 0) ≡ false
        → f.lt (if f.lt sc least then least else sc) (f.num 0) ≡ false
    at_least sc least h = ground (arith, le_trans_float f o (f.num 0) least sc)

    fraction-IsShare : (n : ℕ) → IsShare (f.div (f.num 1) (f.num (suc n)))
    fraction-IsShare n =
        div-IsShare o m g (f.num 1) (f.num (suc n)) (one-IsShare o m g).0
          (g.num_mono 1 (suc n) (omega arith)) (pos-num o m g n)

    worker_score_nonneg :
        (obj : Objective F) (most : F) (w : WorkerView F)
        → f.lt (worker_score obj most w) (f.num 0) ≡ false
    unfolding worker_score
    worker_score_nonneg obj most w =
        at_least _ (f.div (f.num 1) (f.num 100)) (fraction-IsShare 99).0

    IsWithin-more :
        (sum sc : F) (d : Dict Str F)
        → f.lt sc (f.num 0) ≡ false
        → AllValues (IsWithin sum) d
        → AllValues (IsWithin (f.add sum sc)) d
    IsWithin-more sum sc [] h t = tt
    IsWithin-more sum sc ((k, x) ∷ d) h ((low, high), t) = (
      (low, le_trans_float f o x sum (f.add sum sc) high (m.le_add sum sc h)),
      IsWithin-more sum sc d h t,
    )

    raw_from-IsWithin :
        (obj : Objective F) (most : F) (raw : Dict Str F) (sum : F) (ws : List (WorkerView F))
        → f.lt sum (f.num 0) ≡ false
        → AllValues (IsWithin sum) raw
        → AllValues (IsWithin (raw_from obj most raw sum ws).1) (raw_from obj most raw sum ws).0
    unfolding raw_from
    raw_from-IsWithin obj most raw sum [] h t = t
    raw_from-IsWithin obj most raw sum (w ∷ ws) h t =
        let sc = worker_score obj most w in
        let n = worker_score_nonneg obj most w in
        raw_from-IsWithin obj most (insert w.id sc raw) (f.add sum sc) ws (g.add_nonneg sum sc h n)
          (insert-AllValues (IsWithin (f.add sum sc)) w.id sc raw (n, m.le_add_left sum sc h)
            (IsWithin-more sum sc raw n t))

    equal_from-Shares :
        (eq : F) (out : Dict Str F) (ws : List (WorkerView F))
        → IsShare eq
        → Shares out
        → Shares (equal_from eq out ws)
    unfolding equal_from
    equal_from-Shares eq out [] h t = t
    equal_from-Shares eq out (w ∷ ws) h t =
        equal_from-Shares eq (insert w.id eq out) ws h (insert-AllValues IsShare w.id eq out h t)

    equal-Shares :
        (ws : List (WorkerView F)) → Shares (equal_from (f.div (f.num 1) (f.num (length ws))) [] ws)
    unfolding equal_from
    equal-Shares [] = tt
    equal-Shares (w ∷ ws) =
        equal_from-Shares (f.div (f.num 1) (f.num (length (w ∷ ws)))) [] (w ∷ ws)
          (fraction-IsShare (length ws)) tt

    shares_of-Shares :
        (ws : List (WorkerView F)) (raw : Dict Str F) (sum : F)
        → AllValues (IsWithin sum) raw
        → Shares (shares_of ws (raw, sum))
    unfolding shares_of
    shares_of-Shares ws raw sum t = elim (Bool-cases (f.lt (f.num 0) sum)) [
      | inr nothing ↦ rw nothing (equal-Shares ws)
      | inl some_score ↦ rw some_score (
          map-AllValues (IsWithin sum) IsShare (λ sc. f.div sc sum) raw
            (λ sc within. div-IsShare o m g sc sum within.0 within.1 some_score) t)
    ]

    score_workers-Shares :
        (obj : Objective F) (ws : List (WorkerView F)) → Shares (score_workers obj ws)
    unfolding score_workers
    score_workers-Shares obj ws =
        let most = max_cost_from (f.num 0) ws in
        let (raw, sum) = raw_from obj most [] (f.num 0) ws in
        shares_of-Shares ws raw sum
          (raw_from-IsWithin obj most [] (f.num 0) ws (o.lt_irrefl (f.num 0)) tt)

    plan_models-Shares :
        (obj : Objective F) (d : Dict Str (List (WorkerView F)))
        → All (λ e. Shares e.1.weights) (map_values (model_policy obj) d)
    unfolding model_policy
    plan_models-Shares obj [] = tt
    plan_models-Shares obj ((k, ws) ∷ d) = (score_workers-Shares obj ws, plan_models-Shares obj d)

    weights_only-IsWeighted :
        (obj : Objective F) (models : Dict Str (ModelPolicy F))
        → AllValues (λ mp. Shares mp.weights) models
        → IsWeighted (record (weights_only obj) { models = models })
    unfolding weights_only
    weights_only-IsWeighted obj models t = (
      either-IsShare _ _ _ (fraction-IsShare 1) (clamp01-IsShare obj.weight_load),
      either-IsShare _ _ _ (fraction-IsShare 4) (clamp01-IsShare obj.weight_latency),
      either-IsShare _ _ _ (fraction-IsShare 4) (clamp01-IsShare obj.weight_cost),
      either-IsShare _ _ _ (fraction-IsShare 9) (clamp01-IsShare obj.weight_affinity),
      t,
    )

    -- Every weight of a plan lies between 0 and 1, those of the objective and those of the workers of
    -- every model, whatever the objective and the snapshot are. Floats are ordered, and rounding is
    -- monotone and keeps signs and the bounds 0 and 1.
    pub plan-IsWeighted :
        (obj : Objective F) (snap : Option (RoutingSnapshot F)) → IsWeighted (plan obj snap)
    unfolding plan plan_models
    plan-IsWeighted obj none = weights_only-IsWeighted obj [] tt
    plan-IsWeighted obj (some snap) = elim (Bool-cases (is_nil snap.workers)) [
      | inl none_there ↦ rw none_there (weights_only-IsWeighted obj [] tt)
      | inr some_there ↦ rw some_there (
          weights_only-IsWeighted obj (plan_models obj snap.workers)
            (plan_models-Shares obj (by_model_from obj [] snap.workers)))
    ]
