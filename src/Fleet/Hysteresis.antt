-- ===== src/Fleet/Hysteresis.antt =====
-- services/fleet/hysteresis.go and the `ScalingPolicy` of policy.go. The mutex is left out: a
-- method is one step. The fields of the policy that only the database uses are left out.
pub mod Step
mod Tests
use forge_labs.Base.{
  ℕ, ◌*◌, Bool, true, false, ◌&&◌, ◌||◌, Option, none, some, List, [], ◌∷◌, ◌++◌, keep_if, not,
  if◌then◌else◌, ℤ, pos, ◌+ℤ◌, ◌-ℤ◌, ◌*ℤ◌, ltb_ℤ, leb_ℤ, eqb_ℤ, time_sub, second, seconds, Str,
  Dict, lookup, insert, str_key,
}

pub record ScalingPolicy (F : Type 0) : Type 0 where
  pub base_model : Str
  pub adapter : Str
  pub min_replicas : ℤ
  pub max_replicas : ℤ
  pub target_concurrency : ℤ
  pub scale_up_utilization : F
  pub scale_down_delay_seconds : ℤ
  pub stabilization_window_seconds : ℤ

pub record Sample : Type 0 where
  pub at : ℕ
  pub desired : ℤ

pub record HysteresisState : Type 0 where
  pub samples : List Sample
  pub last_action : ℕ
  pub pending : Bool

pub record Hysteresis : Type 0 where
  pub by : Dict Str HysteresisState
  pub step : ℤ

abbrev pub new_hysteresis : Hysteresis
new_hysteresis = record { by = []; step = pos 1 }

abbrev new_state : HysteresisState
new_state = record { samples = []; last_action = 0; pending = false }

pub entry : Hysteresis → Str → HysteresisState
entry h key = elim (lookup key h.by) [ none ↦ new_state | some st ↦ st ]

-- `maxD` and `minD` after the loop over the samples.
unfoldable pub max_desired : ℤ → List Sample → ℤ
max_desired m [] = m
max_desired m (s ∷ ss) = max_desired (if ltb_ℤ m s.desired then s.desired else m) ss

unfoldable pub min_desired : ℤ → List Sample → ℤ
min_desired m [] = m
min_desired m (s ∷ ss) = min_desired (if ltb_ℤ s.desired m then s.desired else m) ss

abbrev pub acted : HysteresisState → ℕ → HysteresisState
acted st now = record st { pending = true; last_action = now }

module _ {F : Type 0} where
  window_of : ScalingPolicy F → ℤ
  window_of policy =
      let window = seconds policy.stabilization_window_seconds in
      if leb_ℤ window (pos 0) then pos (60 * second) else window

  -- The samples that are kept, the new one included.
  pub sampled : List Sample → ℤ → ScalingPolicy F → ℕ → List Sample
  sampled samples desired policy now =
      keep_if (λ s. ltb_ℤ (pos now -ℤ window_of policy) (pos s.at))
        (samples ++ record { at = now; desired = desired } ∷ [])

  -- `cooldown == 0 || now.Sub(st.lastAction) >= cooldown`
  pub cooled : HysteresisState → ScalingPolicy F → ℕ → Bool
  cooled st policy now =
      let cooldown =
        if ltb_ℤ policy.scale_down_delay_seconds (pos 0)
        then pos (900 * second)
        else seconds policy.scale_down_delay_seconds in
      eqb_ℤ cooldown (pos 0) || leb_ℤ cooldown (time_sub now st.last_action)

  -- `Apply` on the entry of its key, with the entry left.
  unfoldable pub apply_entry :
      ℤ → HysteresisState → ℤ → ℤ → ScalingPolicy F → ℕ → HysteresisState × ℤ
  apply_entry step st0 desired current policy now =
      let st = record st0 { samples = sampled st0.samples desired policy now } in
      let up = current +ℤ step in
      let down = current -ℤ step in
      let most = max_desired desired st.samples in
      let least = min_desired desired st.samples in
      if st.pending
      then (st, current)
      else if ltb_ℤ current desired
      then (acted st now, if ltb_ℤ most up then most else up)
      else if ltb_ℤ desired current && cooled st policy now
      then (acted st now, if ltb_ℤ down least then least else down)
      else (st, current)

  unfoldable pub apply : Hysteresis → Str → ℤ → ℤ → ScalingPolicy F → ℕ → Hysteresis × ℤ
  apply h key desired current policy now =
      let (st, out) = apply_entry h.step (entry h key) desired current policy now in
      (record h { by = insert key st h.by }, out)

pub clear_pending : Hysteresis → Str → Hysteresis
clear_pending h key = elim (lookup key h.by) [
  | none ↦ h
  | some st ↦ record h { by = insert key (record st { pending = false }) h.by }
]
