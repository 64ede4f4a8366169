-- ===== src/Reliability/Failover/Outcomes.antt =====
-- What `Do` returns, against what the callback answered.
use mathlib.Core.Option
use forge_labs.Base.{
  ℕ, suc, ◌≡◌, refl, ◌⊎◌, inl, inr, Bool, Option, none, some, List, [], ◌∷◌, arith, not, ◌&&◌, ◌∙◌,
  ltb, pos, leb_ℤ, Bool-cases, Float,
}
use forge_labs.Reliability.Breaker.{BreakerMap}
use forge_labs.Reliability.Classify.{Errors, retryable, is_excluded}
use forge_labs.Reliability.Failover.Rounds.{Result, After, attempt_rule}
use forge_labs.Reliability.Failover.{
  Worker, zero_worker, Failover, Env, Run, call_error, turn, finish, do_, order, try_all, answered,
  ask, budget_refuses,
}

module _ {F E : Type 0} ⦃f : Float F⦄ ⦃errors : Errors E⦄ where
  -- The last call was made to `w` and answered `e`.
  abbrev pub Answered : Env E → Worker → Option E → Run F → Type 0
  Answered env w e r =
      (i : ℕ) × (rest : List (ℕ × Worker)) × (r.calls ≡ (i, w) ∷ rest) × (env.call i w ≡ e)

  -- Before a round: `last` is the answer of the last call, and nil only if no call was made.
  abbrev Tracked : Env E → ℕ → ℕ → Option E → Run F → Type 0
  Tracked env i attempts none r = r.calls ≡ []
  Tracked env i attempts (some e) r = (w : Worker) × Answered env w (some e) r

  -- Nil is returned for a worker whose call, the last one, answered nil, or with the zero worker
  -- when no call was made. An error of a call is the answer of the last call.
  abbrev pub Honest : Env E → Result F E → Type 0
  Honest env (used, none, r) = Answered env used none r ⊎ ((r.calls ≡ []) × (used ≡ zero_worker))
  Honest env (used, some (call_error e), r) = (w : Worker) × Answered env w (some e) r
  Honest env (used, some _, r) = (r.calls ≡ []) × (used ≡ zero_worker)

  finish-Honest :
      (env : Env E) (i attempts : ℕ) (last : Option E) (r : Run F)
      → Tracked env i attempts last r
      → Honest env (finish last r)
  unfolding finish
  finish-Honest env i attempts none r h = (h, refl)
  finish-Honest env i attempts (some e) r h = h

  answered-Honest :
      (fo : Failover F) (env : Env E) (i attempts : ℕ) (last : Option E) (w : Worker)
      (next : List Worker) (r : Run F) (rest : List (ℕ × Worker)) (a : Option E)
      → r.calls ≡ (i, w) ∷ rest
      → env.call i w ≡ a
      → After (Honest env) (Tracked env) i last (answered fo env i attempts w next r a)
  unfolding answered
  answered-Honest fo env i attempts last w next r rest none e c = inl (i, rest, e, c)
  answered-Honest fo env i attempts last w next r rest (some x) e c =
      elim (Bool-cases (is_excluded x)) [
        | inl excluded ↦ rw excluded (w, (i, rest, e, c))
        | inr kept ↦ elim (Bool-cases (retryable (some x))) [
          | inl again ↦ rw (kept, again) (w, (i, rest, e, c))
          | inr fatal ↦ rw (kept, fatal) (w, (i, rest, e, c))
        ]
      ]

  -- Asking the breaker makes no call.
  ask-calls : (env : Env E) (i : ℕ) (w : Worker) (r : Run F) → (ask env i w r).1.calls ≡ r.calls
  unfolding ask
  ask-calls env i w r = ground arith

  refused-Honest :
      (env : Env E) (i attempts : ℕ) (last : Option E) (r : Run F)
      → Tracked env i attempts last r
      → Honest env (zero_worker, Option.map call_error last, r)
  refused-Honest env i attempts none r h = inr (h, refl)
  refused-Honest env i attempts (some e) r h = h

  Tracked-ask :
      (env : Env E) (i attempts : ℕ) (last : Option E) (w : Worker) (r : Run F)
      → Tracked env i attempts last r
      → Tracked env (suc i) attempts last (ask env i w r).1
  Tracked-ask env i attempts none w r h = ask-calls env i w r ∙ h
  Tracked-ask env i attempts (some e) w r (v, (j, rest, c, a)) =
      (v, (j, rest, ask-calls env i w r ∙ c, a))

  turn-Honest :
      (fo : Failover F) (env : Env E) (many : Bool) (i attempts : ℕ) (last : Option E) (w : Worker)
      (next : List Worker) (r : Run F)
      → Tracked env i attempts last r
      → After (Honest env) (Tracked env) i last (turn fo env many i attempts last w next r)
  unfolding turn
  turn-Honest fo env many i attempts last w next r h =
      elim (Bool-cases (leb_ℤ fo.max (pos attempts))) [
        | inl full ↦ rw full (finish-Honest env i attempts last r h)
        | inr room ↦ elim (Bool-cases (ltb 0 i && budget_refuses r)) [
          | inl refused ↦ rw (room, refused) (refused-Honest env i attempts last r h)
          | inr funded ↦ elim (Bool-cases (not (ask env i w r).0 && many)) [
            | inl shut ↦ rw (room, funded, shut) (Tracked-ask env i attempts last w r h)
            | inr let_in ↦
                rw (room, funded, let_in)
                  (answered-Honest fo env i (suc attempts) last w next _ _ (env.call i w) refl refl)
          ]
        ]
      ]

  -- What `Do` returns is what happened: nil comes with the worker whose call, the last one, was
  -- answered by nil, or else with the zero worker and without any call; an error of a call is the
  -- answer of the last call; and its own errors come with the zero worker and without any call.
  pub do_-Honest : (fo : Failover F) (env : Env E) (ws : List Worker) → Honest env (do_ fo env ws)
  unfolding do_
  do_-Honest fo env [] = (refl, refl)
  do_-Honest fo env (w ∷ ws) = go (order env 0 (w ∷ ws) fo.breaker)
    where
      go : (o : List Worker × List Worker × Option (BreakerMap F)) → Honest env (try_all fo env o)
      go ([], open', b) =
          attempt_rule (Honest env) (Tracked env) fo env _ (turn-Honest fo env _)
            (finish-Honest env) _ 0 0 none _ refl
      go (v ∷ vs, open', b) =
          attempt_rule (Honest env) (Tracked env) fo env _ (turn-Honest fo env _)
            (finish-Honest env) _ 0 0 none _ refl
