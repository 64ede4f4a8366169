-- ===== src/Routing/Inflight/Tests.antt =====
-- Interleavings of requests, and the theorem at one of them.
use forge_labs.Base.{◌≡◌, refl, [], ◌∷◌, pos, ◌≤ℤ◌, ◌<ℤ◌, ◌+ℤ◌}
use forge_labs.Routing.Inflight.{act, turn, run, refused, holding}
use forge_labs.Routing.Inflight.Safety.{held, fresh, admission_safe}

-- Two requests load the same counter; the second one's swap fails, and it is refused.
race :
    (run (pos 1) (fresh 2) (0 ∷ 1 ∷ 0 ∷ 1 ∷ 0 ∷ 1 ∷ 1 ∷ 1 ∷ [])).requests ≡ holding ∷ refused ∷ []
unfolding run act turn ◌+ℤ◌
race = refl

admission_safe_example :
    let s = run (pos 1) (fresh 2) (0 ∷ 1 ∷ 0 ∷ 1 ∷ 0 ∷ 1 ∷ 1 ∷ 1 ∷ []) in
    (s.counter ≡ pos (held s.requests)) × (pos 0 <ℤ pos 1 → pos (held s.requests) ≤ℤ pos 1)
admission_safe_example = admission_safe (pos 1) 2 (0 ∷ 1 ∷ 0 ∷ 1 ∷ 0 ∷ 1 ∷ 1 ∷ 1 ∷ [])
