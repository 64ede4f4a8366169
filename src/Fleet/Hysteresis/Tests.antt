-- ===== src/Fleet/Hysteresis/Tests.antt =====
-- A model that wants four replicas fewer than it has, and the theorem on it.
use forge_labs.Base.{
  false, ◌*◌, ◌∷◌, arith, second, wrap_int64, time_sub, str_eq, lookup, insert, ◌+ℤ◌, ◌-ℤ◌, ◌*ℤ◌,
  ◌≡◌, refl, [], ℤ, pos, bytes,
}
use forge_labs.Fleet.Hysteresis.{
  ScalingPolicy, Hysteresis, apply_entry, cooled, sampled, window_of, max_desired, min_desired,
  new_hysteresis, entry, apply,
}
use forge_labs.Fleet.Hysteresis.Step.{stepped, moves, due, Left, apply_lem}

abbrev policy : ScalingPolicy ℤ
policy = record {
  base_model = bytes "m";
  adapter = [];
  min_replicas = pos 0;
  max_replicas = pos 8;
  target_concurrency = pos 4;
  scale_up_utilization = pos 700;
  scale_down_delay_seconds = pos 900;
  stabilization_window_seconds = pos 60;
}

-- One step was made, a second after the zero time.
abbrev stepped_once : Hysteresis
stepped_once = record new_hysteresis {
  by = (bytes "m", record { samples = []; last_action = second; pending = false }) ∷ [];
}

abbrev endless : ScalingPolicy ℤ
endless = record policy { scale_down_delay_seconds = pos 10_000_000_000 }

-- A delay of 317 years wraps to a negative one, so that a step down is made at once.
wraps : (apply stepped_once (bytes "m") (pos 1) (pos 5) endless second).1 ≡ pos 4
unfolding apply apply_entry cooled entry lookup insert sampled window_of wrap_int64 max_desired
    min_desired time_sub str_eq ◌+ℤ◌ ◌-ℤ◌ ◌*ℤ◌
wraps = refl

-- A step down, in the first nanosecond in which it is due.
apply_lem_example :
    ((apply stepped_once (bytes "m") (pos 1) (pos 5) policy (901 * second)).1
      ≡ stepped
          (entry stepped_once (bytes "m"))
          (due (entry stepped_once (bytes "m")) policy (901 * second))
          (pos 1)
          (pos 5))
    × Left
        (entry stepped_once (bytes "m"))
        (entry (apply stepped_once (bytes "m") (pos 1) (pos 5) policy (901 * second)).0 (bytes "m"))
        (moves
          (entry stepped_once (bytes "m"))
          (due (entry stepped_once (bytes "m")) policy (901 * second))
          (pos 1)
          (pos 5))
        (901 * second)
    × ((apply stepped_once (bytes "m") (pos 1) (pos 5) policy (901 * second)).0.step ≡ pos 1)
apply_lem_example =
    apply_lem stepped_once (bytes "m") (pos 1) (pos 5) policy (901 * second) refl (omega arith)
