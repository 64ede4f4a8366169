-- ===== src/Gateway/Dispatch/First.antt =====
-- What `streamFirstToken` returns comes from the worker that it names.
use forge_labs.Base.{
  ℕ, suc, ◌<◌, ◌≡◌, refl, ◌⊎◌, arith, true, false, Option, none, some, List, [], ◌∷◌, length,
  get_elem?, ltb, Float,
}
use forge_labs.Reliability.Classify.{Errors}
use forge_labs.Gateway.Admission.{SelectedWorker}
use forge_labs.Gateway.Stream.{TokenChunk}
use forge_labs.Gateway.Dispatch.{
  not_opened, opened, Env, Guards, FirstToken, streams, fails, no_healthy_worker, all_nil, Round,
  ends, goes_on, no_budget, ask, first_round, first_from, stream_first_token,
}

two_or_more : (n : ℕ) → ltb 1 (suc (suc n)) ≡ true
two_or_more n = ground arith

-- The chunks of a stream whose first may have been taken.
abbrev pub with_first : Option TokenChunk → List TokenChunk → List TokenChunk
with_first none cs = cs
with_first (some c) cs = c ∷ cs

module _ {E : Type 0} where
  -- A worker of the list answered with the error, when its stream was opened or first read.
  abbrev pub Failed : Env E → List SelectedWorker → E → Type 0
  Failed env ws e =
      (i : ℕ) × (w : SelectedWorker) × (get_elem? ws i ≡ some w)
      × ((env.open_at i w ≡ not_opened e) ⊎ (env.open_at i w ≡ opened [] (some e)))

  -- A result that is what happened.
  abbrev pub Honest : Env E → List SelectedWorker → FirstToken E → Type 0
  Honest env ws (streams w first cs ending) =
      (i : ℕ) × (get_elem? ws i ≡ some w) × (env.open_at i w ≡ opened (with_first first cs) ending)
  Honest env ws (fails e) = Failed env ws e
  Honest env ws no_healthy_worker = Unit
  Honest env ws all_nil = 1 < length ws

  -- The last error before a round.
  abbrev Blamed : Env E → List SelectedWorker → ℕ → Option E → Type 0
  Blamed env ws i none = ltb 0 i ≡ true → 1 < length ws
  Blamed env ws i (some e) = Failed env ws e

module _ {F E : Type 0} ⦃f : Float F⦄ ⦃errors : Errors E⦄ where
  abbrev HonestRound : Env E → List SelectedWorker → ℕ → Round F E → Type 0
  HonestRound env ws i (ends r g) = Honest env ws r
  HonestRound env ws i (goes_on last g) = Blamed env ws (suc i) last

  -- If the breaker of the first of several workers refuses and the budget is spent, `streamFirstToken`
  -- returns nil everywhere: no stream and no error.
  pub stream_first_token-all_nil :
      (env : Env E) (w v : SelectedWorker) (ws : List SelectedWorker) (g : Guards F)
      → (ask env 0 w g).0 ≡ false
      → no_budget (ask env 0 w g).1 ≡ true
      → (stream_first_token env (w ∷ v ∷ ws) g).0 ≡ all_nil
  unfolding stream_first_token first_from first_round
  stream_first_token-all_nil env w v ws g shut spent =
      rw (stream_first_token, first_from, first_round, shut, two_or_more (length ws), spent) refl
