-- ===== src/Reliability/Failover/Rounds.antt =====
-- The invariant rule for the second loop of `Do`.
use forge_labs.Base.{ℕ, suc, ◌≡◌, Bool, Option, List, [], ◌∷◌, Float}
use forge_labs.Reliability.Classify.{Errors}
use forge_labs.Reliability.Failover.{
  Worker, Failover, Env, Run, Turn, returns, breaks, continues, DoError, turn, attempt, finish,
}

abbrev pub Result : Type 0 → Type 0 → Type 0
Result F E = Worker × Option (DoError E) × Run F

module _ {F E : Type 0} ⦃f : Float F⦄ ⦃errors : Errors E⦄ where
  -- A round ends the loop with `P`, or keeps the invariant `I` of the next position.
  abbrev pub After :
      (Result F E → Type 0) → (ℕ → ℕ → Option E → Run F → Type 0) → ℕ → Option E → Turn F E → Type 0
  After P I i last (returns used e r) = P (used, e, r)
  After P I i last (breaks r) = P (finish last r)
  After P I i last (continues attempts last' r) = I (suc i) attempts last' r

  pub attempt_rule :
      (P : Result F E → Type 0) (I : ℕ → ℕ → Option E → Run F → Type 0) (fo : Failover F)
      (env : Env E) (many : Bool)
      → ((i attempts : ℕ) (last : Option E) (w : Worker) (next : List Worker) (r : Run F)
          → I i attempts last r
          → After P I i last (turn fo env many i attempts last w next r))
      → ((i attempts : ℕ) (last : Option E) (r : Run F) → I i attempts last r → P (finish last r))
      → (ws : List Worker) (i attempts : ℕ) (last : Option E) (r : Run F) → I i attempts last r
      → P (attempt fo env many i attempts last ws r)
  unfolding attempt
  attempt_rule P I fo env many round end [] i attempts last r h = end i attempts last r h
  attempt_rule P I fo env many round end (w ∷ ws) i attempts last r h =
      go (turn fo env many i attempts last w ws r) (round i attempts last w ws r h)
        (attempt_rule P I fo env many round end ws (suc i))
    where
      go :
          (t : Turn F E)
          → After P I i last t
          → ((n : ℕ) (l : Option E) (r' : Run F)
              → I (suc i) n l r'
              → P (attempt fo env many (suc i) n l ws r'))
          → P (elim t as (λ _. Result F E) [
            | returns used x r' ↦ (used, x, r')
            | breaks r' ↦ finish last r'
            | continues n l r' ↦ attempt fo env many (suc i) n l ws r'
          ])
      go (returns used x r') b k = b
      go (breaks r') b k = b
      go (continues n l r') b k = k n l r' b

  pub attempt_continues :
      (fo : Failover F) (env : Env E) (many : Bool) (i attempts n : ℕ) (last l : Option E)
      (w : Worker) (ws : List Worker) (r r' : Run F)
      → turn fo env many i attempts last w ws r ≡ continues n l r'
      → attempt fo env many i attempts last (w ∷ ws) r ≡ attempt fo env many (suc i) n l ws r'
  unfolding attempt
  attempt_continues fo env many i attempts n last l w ws r r' e = rw (e, attempt)

  pub attempt_returns :
      (fo : Failover F) (env : Env E) (many : Bool) (i attempts : ℕ) (last : Option E)
      (x : Option (DoError E)) (w used : Worker) (ws : List Worker) (r r' : Run F)
      → turn fo env many i attempts last w ws r ≡ returns used x r'
      → attempt fo env many i attempts last (w ∷ ws) r ≡ (used, x, r')
  unfolding attempt
  attempt_returns fo env many i attempts last x w used ws r r' e = rw (e, attempt)
