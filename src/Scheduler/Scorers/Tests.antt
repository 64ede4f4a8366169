-- ===== src/Scheduler/Scorers/Tests.antt =====
-- A loaded worker, and the theorem on it.
use forge_labs.Base.{arith, true, none, ℤ, pos, bytes}
use forge_labs.Fixed.{fixed, fixed-IsOrdered, fixed-IsMonotone, fixed-IsGraded}
use forge_labs.Scheduler.Filters.Tests.{candidate}
use forge_labs.Scheduler.Scorers.{
  least_loaded, latency_score, cost_score, overlap_score, affinity_score,
}
use forge_labs.Scheduler.Scorers.Bounds.{IsShare, scores-IsShare}

scores-IsShare_example :
    IsShare (least_loaded {F = ℤ} (candidate (bytes "a") 3 true))
    × IsShare (latency_score (pos 0) (candidate (bytes "a") 3 true))
    × IsShare (cost_score (pos 2000) (candidate (bytes "a") 3 true))
    × IsShare {F = ℤ} (affinity_score (bytes "b") (candidate (bytes "a") 3 true))
    × IsShare {F = ℤ} (overlap_score none none (candidate (bytes "a") 3 true))
scores-IsShare_example =
    scores-IsShare fixed-IsOrdered fixed-IsMonotone fixed-IsGraded (candidate (bytes "a") 3 true)
      none (pos 0) (pos 2000) (bytes "b") none (omega arith)
