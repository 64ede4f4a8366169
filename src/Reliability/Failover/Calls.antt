-- ===== src/Reliability/Failover/Calls.antt =====
-- How many calls a run of `Do` makes.
use forge_labs.Base.{
  ℕ, ◌≡◌, refl, Bool, Option, none, List, [], ◌∷◌, arith, pos, ◌≤ℤ◌, length, Float,
}
use forge_labs.Reliability.Breaker.{BreakerMap}
use forge_labs.Reliability.Classify.{Errors}
use forge_labs.Reliability.Failover.Rounds.{Result, After, attempt_rule}
use forge_labs.Reliability.Failover.{Worker, Failover, Env, Run, turn, finish, do_, order, try_all}

module _ {F E : Type 0} ⦃f : Float F⦄ ⦃errors : Errors E⦄ where
  -- `attempts` counts the calls, and a round makes a call only while it is below the maximum.
  abbrev Counted : Failover F → ℕ → ℕ → Option E → Run F → Type 0
  Counted fo i attempts last r = (length r.calls ≡ attempts) × (pos (length r.calls) ≤ℤ fo.max)

  abbrev Bounded : Failover F → Result F E → Type 0
  Bounded fo (used, e, r) = pos (length r.calls) ≤ℤ fo.max

  turn-Bounded :
      (fo : Failover F) (env : Env E) (many : Bool) (i attempts : ℕ) (last : Option E) (w : Worker)
      (next : List Worker) (r : Run F)
      → Counted fo i attempts last r
      → After (Bounded fo) (Counted fo) i last (turn fo env many i attempts last w next r)
  unfolding turn finish
  turn-Bounded fo env many i attempts last w next r h = ground arith

  finish-Bounded :
      (fo : Failover F) (i attempts : ℕ) (last : Option E) (r : Run F)
      → Counted fo i attempts last r
      → Bounded fo (finish last r)
  unfolding finish
  finish-Bounded fo i attempts last r h = h.1

  -- `Do` makes at most `max` calls, whatever the callback, the breakers and the clock answer, if
  -- `max` is not negative (`NewFailover` makes it positive).
  pub calls-le-max :
      (fo : Failover F) (env : Env E) (ws : List Worker)
      → pos 0 ≤ℤ fo.max
      → pos (length (do_ fo env ws).2.calls) ≤ℤ fo.max
  unfolding do_
  calls-le-max fo env [] h = h
  calls-le-max fo env (w ∷ ws) h = go (order env 0 (w ∷ ws) fo.breaker)
    where
      go : (o : List Worker × List Worker × Option (BreakerMap F)) → Bounded fo (try_all fo env o)
      go ([], open', b) =
          attempt_rule (Bounded fo) (Counted fo) fo env _ (turn-Bounded fo env _)
            (finish-Bounded fo) _ 0 0 none _ (refl, h)
      go (v ∷ vs, open', b) =
          attempt_rule (Bounded fo) (Counted fo) fo env _ (turn-Bounded fo env _)
            (finish-Bounded fo) _ 0 0 none _ (refl, h)
