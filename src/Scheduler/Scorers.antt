-- ===== src/Scheduler/Scorers.antt =====
-- services/scheduler/scorer_leastloaded.go, scorer_latency.go, scorer_cost.go, scorer_affinity.go,
-- scorer_overlap.go and scorer_policy.go. A scorer is what its `Prepare` leaves of the request, with
-- what its `Score` answers from then on. A holder is what it holds.
pub mod Bounds
mod Tests
use forge_labs.Base.{
  ℕ, zero, suc, ◌+◌, ◌*◌, Bool, true, false, not, ◌&&◌, ◌||◌, Option, none, some, List, [], ◌∷◌,
  map, keep_if, length, if◌then◌else◌, is_empty, is_nil, ℤ, pos, ◌+ℤ◌, leb_ℤ, Str, bytes, str_eq,
  Dict, lookup, str_key, Float, of_ℤ,
}
use forge_labs.Routing.Policy.{RoutingPolicy}
use forge_labs.Cache.Blocks.{default_block_size, hash_prompt_approx, longest_consecutive_prefix}
use forge_labs.Cache.Service.{CacheSnapshot}
use forge_labs.Scheduler.Affinity.{prefix_key, hrw_pick}
use forge_labs.Scheduler.Types.{Candidate, Request}

abbrev pub Scorer : Type 0 → Type 0
Scorer F = Option Request → List (Candidate F) → Option Request × (Option Request → Candidate F → F)

-- A scorer without `Prepare`.
abbrev pub unprepared : {F : Type 0} → (Option Request → Candidate F → F) → Scorer F
unprepared score req cs = (req, score)

-- `c.Capabilities[name] == "true"`
abbrev pub flagged : {F : Type 0} → Candidate F → Str → Bool
flagged c name = elim (lookup name c.capabilities) [
  | none ↦ false
  | some v ↦ str_eq v (bytes "true")
]

module _ {F : Type 0} ⦃f : Float F⦄ where
  abbrev is_positive : F → Bool
  is_positive x = f.lt (f.num 0) x

  -- `LeastLoaded.Score`
  unfoldable pub least_loaded : Candidate F → F
  least_loaded c = f.div (f.num 1) (of_ℤ (pos 1 +ℤ c.queue_depth))

  -- `LatencyScorer.Score`, with the reference that `NewLatencyScorer` keeps.
  unfoldable pub latency_score : F → Candidate F → F
  latency_score ref c =
      let ref_ms = if is_positive ref then ref else f.num 100 in
      if is_positive c.ewma_latency_ms
      then f.div (f.num 1) (f.add (f.num 1) (f.div c.ewma_latency_ms ref_ms))
      else f.num 1

  -- `CostScorer`: the loop of `Prepare`, and `Score`.
  unfoldable pub max_cost : F → List (Candidate F) → F
  max_cost m [] = m
  max_cost m (c ∷ cs) = max_cost (if f.lt m c.cost_per_hour then c.cost_per_hour else m) cs

  unfoldable pub cost_score : F → Candidate F → F
  cost_score m c =
      let ratio = f.div c.cost_per_hour m in
      let ratio' = if f.lt ratio (f.num 0) then f.num 0 else ratio in
      let ratio'' = if f.lt (f.num 1) ratio' then f.num 1 else ratio' in
      if is_positive m then f.sub (f.num 1) ratio'' else f.num 1

  unfoldable pub cost_scorer : Scorer F
  unfolding max_cost cost_score
  cost_scorer req cs = (req, λ _ c. cost_score (max_cost (f.num 0) cs) c)

  -- `OverlapScorer.Score`, with what its holder holds; `none` also if the scorer or the holder is
  -- nil.
  unfoldable pub overlap_of : Request → Candidate F → Dict ℕ F → F
  overlap_of req c have =
      let want = hash_prompt_approx req.prompt (pos default_block_size) req.adapter in
      let found = longest_consecutive_prefix want have in
      let norm = f.div found.1 (f.num (length want * default_block_size)) in
      if is_nil want
      then f.div (f.num 1) (f.num 2)
      else elim found.0 [ zero ↦ f.num 0 | suc n ↦ if f.lt (f.num 1) norm then f.num 1 else norm ]

  -- With the blocks that the worker is listed with, if it is.
  unfoldable pub overlap_found : Request → Candidate F → Option (Dict ℕ F) → F
  unfolding overlap_of
  overlap_found req c none = f.div (f.num 1) (f.num 2)
  overlap_found req c (some []) = f.div (f.num 1) (f.num 2)
  overlap_found req c (some (b ∷ bs)) = overlap_of req c (b ∷ bs)

  unfoldable pub overlap_score : Option (CacheSnapshot F) → Option Request → Candidate F → F
  unfolding overlap_found
  overlap_score held none c = f.div (f.num 1) (f.num 2)
  overlap_score none (some req) c = f.div (f.num 1) (f.num 2)
  overlap_score (some snap) (some req) c =
      if flagged c (bytes "provider")
      then f.div (f.num 1) (f.num 2)
      else overlap_found req c (lookup c.worker_id snap.worker_blocks)

  -- `PolicyScorer.Score`, with the policy that its holder holds.
  unfoldable pub policy_score : Option (RoutingPolicy F) → Option Request → Candidate F → F
  policy_score held none c = f.num 1
  policy_score none (some req) c = f.num 1
  policy_score (some p) (some req) c =
      if is_nil p.worker_weights then f.num 1 else elim (lookup req.base_model p.worker_weights) [
        | none ↦ f.num 1
        | some by_worker ↦ elim (lookup c.worker_id by_worker) [
          | none ↦ f.div (f.num 1) (f.num 100)
          | some w ↦ w
        ]
      ]

  -- `AffinityScorer.Score`
  unfoldable pub affinity_score : Str → Candidate F → F
  affinity_score preferred c =
      if is_empty preferred
      then f.num 0
      else if str_eq c.worker_id preferred
      then f.num 1
      else f.num 0

  module _ (xxhash : List ℕ → ℕ) where
    -- The candidates whose cache can be warm.
    abbrev pub local_workers : List (Candidate F) → List Str
    local_workers cs =
        map (λ c. c.worker_id)
          (keep_if
            (λ c. not (
              flagged c (bytes "no_local_kv")
              || flagged c (bytes "provider")
              || str_eq c.runtime (bytes "provider")))
            cs)

    -- The worker that `AffinityScorer.Prepare` prefers; none is the empty string.
    unfoldable pub preferred_of : ℤ → ℤ → Request → List (Candidate F) → Str
    preferred_of window block req cs =
        let prompt = if is_empty req.affinity_key then req.prompt else req.affinity_key in
        if is_nil cs || is_empty prompt
        then []
        else hrw_pick xxhash (prefix_key xxhash prompt window block) (local_workers cs)

    -- The request is written to unless `Prepare` returns early.
    unfoldable pub affinity_scorer : ℤ → ℤ → Scorer F
    unfolding preferred_of affinity_score
    affinity_scorer window block none cs = (none, λ _ c. affinity_score [] c)
    affinity_scorer window block (some req) cs =
        let preferred = preferred_of window block req cs in
        let early = is_nil cs || (is_empty req.affinity_key && is_empty req.prompt) in
        (
          some (if early then req else record req { preferred_worker = preferred }),
          λ _ c. affinity_score preferred c,
        )
