-- ===== src/Scheduler/Configured.antt =====
-- services/scheduler/chain.go: `NewConfiguredChain`, `DefaultChain` and `Pick`. The metrics of the
-- configuration are left out; the scorers of a policy and of an overlap are what their holders hold,
-- with `none` for a scorer that is not configured.
use forge_labs.Base.{
  ℕ, Bool, not, ◌&&◌, Option, none, some, List, [], ◌∷◌, ◌++◌, if◌then◌else◌, ℤ, pos, Float,
}
use forge_labs.Routing.Policy.{RoutingPolicy}
use forge_labs.Cache.Service.{CacheSnapshot}
use forge_labs.Scheduler.Types.{Candidate, Request, WeightedScorer}
use forge_labs.Scheduler.Filters.{configured_filters}
use forge_labs.Scheduler.Scorers.{
  Scorer, unprepared, least_loaded, latency_score, cost_scorer, overlap_score, policy_score,
  affinity_scorer,
}
use forge_labs.Scheduler.Chain.{Result, ok, err, PickResult, rank}

pub record Weights (F : Type 0) : Type 0 where
  pub load : F
  pub latency : F
  pub affinity : F
  pub cost : F
  pub policy : F

pub record ChainConfig (F : Type 0) : Type 0 where
  pub weights : Weights F
  pub latency_ref_ms : F
  pub admission_limit : ℤ
  pub affinity_window : ℤ
  pub affinity_block : ℤ
  pub policy : Option (Option (RoutingPolicy F))
  pub overlap : Option (Option (CacheSnapshot F))
  pub weight_overlap : F

module _ {F : Type 0} ⦃f : Float F⦄ where
  abbrev hundredths : ℕ → F
  hundredths n = f.div (f.num n) (f.num 100)

  abbrev is_positive : F → Bool
  is_positive x = f.lt (f.num 0) x

  -- The weights that are used: the defaults if none of those configured is positive.
  unfoldable pub weights_of : Weights F → Weights F
  weights_of w =
      if not (is_positive w.load)
        && not (is_positive w.latency)
        && not (is_positive w.affinity)
        && not (is_positive w.cost)
        && not (is_positive w.policy)
      then record {
        load = hundredths 45;
        latency = hundredths 15;
        affinity = f.div (f.num 1) (f.num 10);
        cost = hundredths 15;
        policy = hundredths 15;
      }
      else w

  abbrev weighted : F → Scorer F → WeightedScorer F
  weighted w s = record { weight = w; prepare = s }

  -- A scorer that is appended if its weight is positive and it is configured.
  abbrev if_set : {A : Type 0} → F → Option A → (A → Scorer F) → List (WeightedScorer F)
  if_set w none s = []
  if_set w (some a) s = if is_positive w then weighted w (s a) ∷ [] else []

  module _ (xxhash : List ℕ → ℕ) where
    unfoldable pub configured_scorers : ChainConfig F → List (WeightedScorer F)
    unfolding weights_of
    configured_scorers cfg =
        let w = weights_of cfg.weights in
        weighted w.load (unprepared (λ _ c. least_loaded c))
        ∷ weighted w.latency (unprepared (λ _ c. latency_score cfg.latency_ref_ms c))
        ∷ (if_set w.affinity (some tt)
              (λ _. affinity_scorer xxhash cfg.affinity_window cfg.affinity_block)
            ++ if_set w.cost (some tt) (λ _. cost_scorer)
            ++ if_set w.policy cfg.policy (λ held. unprepared (policy_score held))
            ++ if_set cfg.weight_overlap cfg.overlap (λ held. unprepared (overlap_score held)))

    abbrev pub default_config : ChainConfig F
    default_config = record {
      weights = record {
        load = hundredths 45;
        latency = hundredths 15;
        affinity = f.div (f.num 1) (f.num 10);
        cost = hundredths 15;
        policy = hundredths 15;
      };
      latency_ref_ms = f.num 100;
      admission_limit = pos 4;
      affinity_window = pos 1024;
      affinity_block = pos 64;
      policy = none;
      overlap = none;
      weight_overlap = f.num 0;
    }

    -- `Rank` of the chain that `NewConfiguredChain` makes.
    unfoldable pub configured_rank :
        ChainConfig F → Option Request → List (Candidate F) → Result (List (PickResult F))
    configured_rank cfg req cs =
        rank (configured_filters cfg.admission_limit) (configured_scorers cfg) req cs

module _ {F : Type 0} ⦃f : Float F⦄ where
  -- `Pick`. `Rank` without an error returns a pick at least, unless there are no filters and no
  -- candidates, where `ranked[0]` panics: `none`.
  pub pick_first : Result (List (PickResult F)) → Option (Result (PickResult F))
  pick_first (err e) = some (err e)
  pick_first (ok []) = none
  pick_first (ok (p ∷ ps)) = some (ok p)
