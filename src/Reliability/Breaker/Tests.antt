-- ===== src/Reliability/Breaker/Tests.antt =====
-- Runs of a breaker, and its theorems at concrete inputs.
use forge_labs.Fixed.{fixed}
use forge_labs.Base.{
  suc, ◌*◌, min, ◌≡◌, refl, inl, inr, Bool-cases, List, ◌-◌, [], ◌∷◌, ◌++◌, arith, second, Str,
  lookup, insert, str_eq, time_sub,
}
use forge_labs.Reliability.Samples.{config, a, b, open_a, probing_a, no_breakers}
use forge_labs.Reliability.Breaker.{
  open_, new_breaker, entry, allow, success, failure, state_of, allow_entry, failure_entry, store,
}
use forge_labs.Reliability.Breaker.Transitions.{Follows, methods-Follows}
use forge_labs.Reliability.Breaker.Recovery.{allow_all, open_then_probes}
use forge_labs.Reliability.Breaker.Unreported.{
  Method, call_allow, call_failure, call_state, asked, perform, grants, perform_all, Probing,
  Recovers, Opens, unreported_probes,
}
use forge_labs.Reliability.Breaker.Window.{
  IsCounted, Failing, fail_all, methods-IsCounted, failures_trip,
}

-- Two failures open the breaker of a new worker, and the callback is told.
opens : (failure (failure no_breakers a 7) a 9).notified ≡ (a, open_) ∷ []
unfolding failure failure_entry store entry lookup insert str_eq new_breaker
opens = refl

-- Eleven seconds later three calls of four are let in.
three_probes :
    (allow_all open_a a (second ∷ 11 * second ∷ 11 * second ∷ 11 * second ∷ 11 * second ∷ [])).1 ≡ 3
unfolding allow_all allow allow_entry store entry lookup str_eq time_sub insert
three_probes = refl

methods-Follows_example :
    Follows probing_a a (allow probing_a a 200).0
    × Follows probing_a a (success probing_a a)
    × Follows probing_a a (failure probing_a a 200)
    × Follows probing_a a (state_of probing_a a).1
methods-Follows_example = methods-Follows probing_a a 200

open_then_probes_example :
    (allow_all open_a a
      ((second ∷ []) ++ 11 * second ∷ 11 * second ∷ 12 * second ∷ 13 * second ∷ [])).1
    ≡ suc (min 2 3)
unfolding entry lookup str_eq time_sub
open_then_probes_example =
    open_then_probes (second ∷ []) (11 * second) (11 * second ∷ 12 * second ∷ 13 * second ∷ [])
      open_a a refl (refl, tt) refl

-- The only probe of `a` goes to the first of its three calls. In between, `b` is asked and fails.
abbrev silent : List Method
silent =
    call_allow a second
    ∷ call_failure b second
    ∷ call_allow b (2 * second)
    ∷ call_state a
    ∷ call_allow a (20 * second)
    ∷ call_allow a (1000 * second)
    ∷ []

one_granted : (perform_all a probing_a silent).1 ≡ 1
unfolding perform_all perform grants allow failure state_of allow_entry failure_entry store entry
    lookup str_eq insert new_breaker
one_granted = refl

unreported_probes_example :
    ((perform_all a probing_a silent).1 ≡ min (entry probing_a a).half_open_left (asked a silent))
    × Probing
        ((entry probing_a a).half_open_left - asked a silent)
        (entry (perform_all a probing_a silent).0 a)
    × Recovers (perform_all a probing_a silent).0 a (1001 * second)
    × Opens config (perform_all a probing_a silent).0 a (1000 * second) (1001 * second)
unfolding entry lookup str_eq
unreported_probes_example =
    unreported_probes silent probing_a a (1000 * second) (1001 * second) refl
      (refl, (refl, (refl, (refl, (refl, (refl, tt))))))

-- Every entry of the sample map has consistent counters.
probing_IsCounted : (w : Str) → IsCounted config (entry probing_a w)
unfolding entry lookup new_breaker
probing_IsCounted w = elim (Bool-cases (str_eq a w)) [
  | inl e ↦ rw (entry, lookup, e) (record { outcomes = omega arith; quota = λ _. omega arith })
  | inr e ↦ rw (entry, lookup, e) (record { outcomes = omega arith; quota = λ h. absurd (cc) })
]

methods-IsCounted_example :
    ((w : Str) → IsCounted config (entry (allow probing_a a 7).0 w))
    × ((w : Str) → IsCounted config (entry (success probing_a a) w))
    × ((w : Str) → IsCounted config (entry (failure probing_a a 7) w))
unfolding entry lookup str_eq
methods-IsCounted_example = methods-IsCounted probing_a a 7 (omega arith) probing_IsCounted

failures_trip_example :
    Failing 1 (entry (fail_all no_breakers b (7 ∷ [])) b)
    × ((entry (fail_all no_breakers b ((7 ∷ []) ++ 9 ∷ [])) b).state ≡ open_)
    × ((entry (fail_all no_breakers b ((7 ∷ []) ++ 9 ∷ [])) b).opened_at ≡ 9)
unfolding entry lookup str_eq
failures_trip_example = failures_trip (7 ∷ []) 9 no_breakers b refl refl (omega arith) refl
