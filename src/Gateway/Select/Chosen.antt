-- ===== src/Gateway/Select/Chosen.antt =====
-- Which workers `SelectWorkers` answers with.
use forge_labs.Base.{Option, none, some, List, Str}
use forge_labs.Scheduler.Types.{Candidate}
use forge_labs.Gateway.Select.{filter_by_worker_ids}

module _ {F : Type 0} where
  -- The workers that are allowed.
  abbrev pub restrict : Option (List Str) → List (Candidate F) → List (Candidate F)
  restrict none cs = cs
  restrict (some allowed) cs = filter_by_worker_ids cs allowed
