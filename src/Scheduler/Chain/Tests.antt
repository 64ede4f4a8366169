-- ===== src/Scheduler/Chain/Tests.antt =====
-- `Rank` on three workers of which two survive, scored by their load, and the theorem on them.
use forge_labs.Base.{
  ◌≡◌, refl, true, false, some, List, [], ◌∷◌, ℤ, pos, ◌-ℤ◌, ◌*ℤ◌, bytes, str_eq, map,
}
use forge_labs.Fixed.{fixed, fixed-IsOrdered}
use mathlib.Core.List.{Permᴰ}
use forge_labs.Scheduler.Types.{Candidate, WeightedScorer}
use forge_labs.Scheduler.Models.{serves_model, serves_one}
use forge_labs.Scheduler.Filters.{configured_filters, serves, satisfies_capability}
use forge_labs.Scheduler.Filters.Tests.{candidate, request}
use forge_labs.Scheduler.Chain.{ok, PickResult, survivors, to_pick, score_all, rank}
use forge_labs.Scheduler.Chain.Order.{Sorted, MayPrecede, rank_lem}

abbrev busy : Candidate ℤ
busy = candidate (bytes "a") 3 true

abbrev idle : Candidate ℤ
idle = candidate (bytes "b") 1 true

abbrev fleet : List (Candidate ℤ)
fleet = busy ∷ candidate (bytes "c") 0 false ∷ idle ∷ []

-- 1 less the load, with a weight of 0, which counts as 1.
abbrev pub by_load : WeightedScorer ℤ
by_load = record {
  weight = pos 0;
  prepare = λ req cs. (req, λ _ c. pos 1000 -ℤ pos 100 *ℤ c.queue_depth);
}

fleet-survivors :
    survivors (configured_filters (pos 4)) (some request) fleet ≡ ok (busy ∷ idle ∷ [])
unfolding survivors configured_filters serves satisfies_capability serves_model serves_one str_eq
fleet-survivors = refl

rank_lem_example :
    (picks : List (PickResult ℤ)) × (rank
        (configured_filters (pos 4))
        (by_load ∷ [])
        (some request)
        fleet
      ≡ ok picks)
    × Permᴰ picks (map to_pick (score_all (by_load ∷ []) (some request) (busy ∷ idle ∷ [])))
    × Sorted MayPrecede picks
rank_lem_example =
    rank_lem fixed-IsOrdered (configured_filters (pos 4)) (by_load ∷ []) (some request) fleet
      (busy ∷ idle ∷ []) fleet-survivors
