-- ===== src/Scheduler/Chain.antt =====
-- services/scheduler/chain.go: `Rank`. Tracing is left out. `sort.Slice` is insertion
-- sort by the code's comparison, which orders entries of different workers in one way only.
pub mod Order
pub mod Tests
use forge_labs.Base.{
  Bool, true, false, not, ◌&&◌, Option, List, [], ◌∷◌, map, if◌then◌else◌, Str, bytes, str_eq,
  str_lt, Float,
}
use forge_labs.Scheduler.Types.{Candidate, Request, Filter, WeightedScorer}

pub data RankError : Type 0 where
  no_capacity admission_rejected : RankError

pub data Result {ℓ} (A : Type ℓ) : Type ℓ where
  ok : A → Result A
  err : RankError → Result A

pub record PickResult (F : Type 0) : Type 0 where
  pub worker_id : Str
  pub endpoint : Str
  pub score : F

-- `scored` in `Rank`.
pub record Scored (F : Type 0) : Type 0 where
  pub candidate : Candidate F
  pub total : F

module _ {F : Type 0} where
  -- The loop over the filters. The error depends on the filter that leaves no candidate.
  unfoldable pub survivors :
      List (Filter F) → Option Request → List (Candidate F) → Result (List (Candidate F))
  survivors [] req cs = ok cs
  survivors (f ∷ fs) req cs = elim (f.filter req cs) [
    | [] ↦ if str_eq f.name (bytes "admission") then err admission_rejected else err no_capacity
    | c ∷ rest ↦ survivors fs req (c ∷ rest)
  ]

  -- The loop that calls `Prepare`: the scores to be used, with their weights, and the request as
  -- the scorers leave it.
  unfoldable pub prepare_all :
      List (WeightedScorer F)
      → Option Request
      → List (Candidate F)
      → List (F × (Option Request → Candidate F → F)) × Option Request
  prepare_all [] req cs = ([], req)
  prepare_all (s ∷ ss) req cs =
      let (req', score) = s.prepare req cs in
      let (rest, req'') = prepare_all ss req' cs in ((s.weight, score) ∷ rest, req'')

module _ {F : Type 0} ⦃f : Float F⦄ where
  -- `total += w * score`, from the scorers in order; a weight of 0 counts as 1.
  unfoldable pub total_from :
      F → List (F × (Option Request → Candidate F → F)) → Option Request → Candidate F → F
  total_from acc [] req c = acc
  total_from acc ((w, score) ∷ rest) req c =
      let w' = if not (f.lt w (f.num 0)) && not (f.lt (f.num 0) w) then f.num 1 else w in
      total_from (f.add acc (f.mul w' (score req c))) rest req c

  -- The comparison that is handed to `sort.Slice`.
  unfoldable pub ranks_before : Scored F → Scored F → Bool
  ranks_before x y =
      if f.lt y.total x.total
      then true
      else if f.lt x.total y.total
      then false
      else str_lt (x.candidate).worker_id (y.candidate).worker_id

  unfoldable pub insert_sorted : Scored F → List (Scored F) → List (Scored F)
  insert_sorted x [] = x ∷ []
  insert_sorted x (y ∷ ys) = if ranks_before y x then y ∷ insert_sorted x ys else x ∷ y ∷ ys

  unfoldable pub sort_scored : List (Scored F) → List (Scored F)
  sort_scored [] = []
  sort_scored (x ∷ xs) = insert_sorted x (sort_scored xs)

  unfoldable pub to_pick : Scored F → PickResult F
  to_pick s = record {
    worker_id = (s.candidate).worker_id;
    endpoint = (s.candidate).endpoint;
    score = s.total;
  }

  -- The candidates that survive, scored.
  unfoldable pub score_all :
      List (WeightedScorer F) → Option Request → List (Candidate F) → List (Scored F)
  score_all ss req cs =
      let (scores, req') = prepare_all ss req cs in
      map (λ c. record { candidate = c; total = total_from (f.num 0) scores req' c }) cs

  unfoldable pub rank :
      List (Filter F)
      → List (WeightedScorer F)
      → Option Request
      → List (Candidate F)
      → Result (List (PickResult F))
  rank fs ss req cs = elim (survivors fs req cs) [
    | err e ↦ err e
    | ok cs' ↦ ok (map to_pick (sort_scored (score_all ss req cs')))
  ]
