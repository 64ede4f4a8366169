-- ===== src/Fleet/Hysteresis/Step.antt =====
-- What `Apply` answers: one step towards the desired number, whatever was sampled.
use forge_labs.Base.{
  ℕ, ◌≡◌, ◌∙◌, ap, subst, ◌*◌, ◌+◌, ◌<◌, ◌^◌, ◌==◌, leb, eqb_ℤ, leb_ℤ, negsuc, ◌*ℤ◌, time_sub,
  seconds, wrap_int64, second, not, ◌||◌, Bool, lookup-insert_self, str_key, insert, lookup, some,
  Dict, refl, ◌&&◌, List, [], ◌∷◌, arith, if◌then◌else◌, ℤ, pos, ◌+ℤ◌, ◌-ℤ◌, ◌≤ℤ◌, ltb_ℤ, +ℤ_parts,
  -ℤ_parts, Str,
}
use forge_labs.Fleet.Hysteresis.{
  ScalingPolicy, Sample, HysteresisState, Hysteresis, entry, max_desired, min_desired, sampled,
  cooled, apply_entry, apply,
}

max_desired-ge : (m : ℤ) (ss : List Sample) → m ≤ℤ max_desired m ss
unfolding max_desired
max_desired-ge m [] = omega arith
max_desired-ge m (s ∷ ss) =
    ground (arith, max_desired-ge (if ltb_ℤ m s.desired then s.desired else m) ss)

min_desired-le : (m : ℤ) (ss : List Sample) → min_desired m ss ≤ℤ m
unfolding min_desired
min_desired-le m [] = omega arith
min_desired-le m (s ∷ ss) =
    ground (arith, min_desired-le (if ltb_ℤ s.desired m then s.desired else m) ss)

-- One step towards the desired number, down only if that is due, and none while one is pending.
abbrev pub stepped : HysteresisState → Bool → ℤ → ℤ → ℤ
stepped st due desired current =
    if st.pending
    then current
    else if ltb_ℤ current desired
    then current +ℤ pos 1
    else if ltb_ℤ desired current && due
    then current -ℤ pos 1
    else current

-- Whether a step is made.
abbrev pub moves : HysteresisState → Bool → ℤ → ℤ → Bool
moves st due desired current =
    not st.pending && (ltb_ℤ current desired || (ltb_ℤ desired current && due))

-- A delay in seconds as nanoseconds: 15 minutes if it is negative.
abbrev delay_from : ℤ → ℕ
delay_from (pos n) = n * second
delay_from (negsuc _) = 900 * second

seconds_lem : (n : ℕ) → n * second < 2 ^ 63 → seconds (pos n) ≡ pos (n * second)
unfolding wrap_int64 ◌*ℤ◌
seconds_lem n h = ground arith

elapsed_lem :
    (m now last : ℕ)
    → m < 2 ^ 63
    → (eqb_ℤ (pos m) (pos 0) || leb_ℤ (pos m) (time_sub now last)) ≡ (m == 0 || leb (last + m) now)
unfolding time_sub ◌-ℤ◌
elapsed_lem m now last h = ground arith

cooldown_lem :
    (d : ℤ)
    → delay_from d < 2 ^ 63
    → (if ltb_ℤ d (pos 0) then pos (900 * second) else seconds d) ≡ pos (delay_from d)
cooldown_lem (pos n) h = rw (seconds_lem n h) (ground arith)
cooldown_lem (negsuc n) h = ground arith

-- What `Apply` leaves of an entry, beside its samples.
abbrev pub Left : HysteresisState → HysteresisState → Bool → ℕ → Type 0
Left st st' moved now =
    (st'.pending ≡ (st.pending || moved))
    × (st'.last_action ≡ (if moved then now else st.last_action))

entry_found :
    (by : Dict Str HysteresisState) (step : ℤ) (key : Str) (st : HysteresisState)
    → lookup key by ≡ some st
    → entry (record { by = by; step = step }) key ≡ st
unfolding entry
entry_found by step key st e = rw (entry, e) refl

module _ {F : Type 0} where
  -- Whichever way the delay is computed.
  pub apply_step :
      (h : Hysteresis) (key : Str) (desired current : ℤ) (policy : ScalingPolicy F) (now : ℕ)
      → h.step ≡ pos 1
      → (apply h key desired current policy now).1
        ≡ stepped (entry h key) (cooled (entry h key) policy now) desired current
  unfolding apply apply_entry cooled
  apply_step h key desired current policy now one =
      let ss = sampled (entry h key).samples desired policy now in
      rw one (
        ground (
          arith,
          max_desired-ge desired ss,
          min_desired-le desired ss,
          +ℤ_parts current (pos 1),
          -ℤ_parts current (pos 1),
        ))

  step-apply :
      (h : Hysteresis) (key : Str) (desired current : ℤ) (policy : ScalingPolicy F) (now : ℕ)
      → h.step ≡ pos 1
      → (apply h key desired current policy now).0.step ≡ pos 1
  unfolding apply
  step-apply h key desired current policy now one = one

  -- The delay before a step down.
  abbrev pub delay_of : ScalingPolicy F → ℕ
  delay_of policy = delay_from policy.scale_down_delay_seconds

  -- There is no delay, or it has passed since the last step.
  abbrev pub due : HysteresisState → ScalingPolicy F → ℕ → Bool
  due st policy now = delay_of policy == 0 || leb (st.last_action + delay_of policy) now

  cooled_lem :
      (st : HysteresisState) (policy : ScalingPolicy F) (now : ℕ)
      → delay_of policy < 2 ^ 63
      → cooled st policy now ≡ due st policy now
  unfolding cooled
  cooled_lem st policy now h =
      ap (λ c. eqb_ℤ c (pos 0) || leb_ℤ c (time_sub now st.last_action))
        (cooldown_lem policy.scale_down_delay_seconds h)
      ∙ elapsed_lem (delay_of policy) now st.last_action h

  apply_entry-Left :
      (step : ℤ) (st : HysteresisState) (desired current : ℤ) (policy : ScalingPolicy F) (now : ℕ)
      → Left st
          (apply_entry step st desired current policy now).0
          (moves st (cooled st policy now) desired current)
          now
  unfolding apply_entry cooled
  apply_entry-Left step st desired current policy now = ground arith

  apply-Left :
      (h : Hysteresis) (key : Str) (desired current : ℤ) (policy : ScalingPolicy F) (now : ℕ)
      → Left
          (entry h key)
          (entry (apply h key desired current policy now).0 key)
          (moves (entry h key) (cooled (entry h key) policy now) desired current)
          now
  unfolding apply
  apply-Left h key desired current policy now =
      let st = (apply_entry h.step (entry h key) desired current policy now).0 in
      rw (entry_found (insert key st h.by) h.step key st (lookup-insert_self key st h.by))
        (apply_entry-Left h.step (entry h key) desired current policy now)

  -- With the step 1, which `NewHysteresis` sets, and a delay of less than 2^63 nanoseconds, `Apply`
  -- answers one step towards the desired number, up at once and down only if there is no delay or it
  -- has passed since the last step, and the current number while a step is pending. Afterwards a step
  -- is pending if one was or is made now, the time of the last step is now if one is made, and the step
  -- is as it was. The samples of the stabilization window have no effect.
  pub apply_lem :
      (h : Hysteresis) (key : Str) (desired current : ℤ) (policy : ScalingPolicy F) (now : ℕ)
      → h.step ≡ pos 1
      → delay_of policy < 2 ^ 63
      → ((apply h key desired current policy now).1
          ≡ stepped (entry h key) (due (entry h key) policy now) desired current)
        × Left
            (entry h key)
            (entry (apply h key desired current policy now).0 key)
            (moves (entry h key) (due (entry h key) policy now) desired current)
            now
        × ((apply h key desired current policy now).0.step ≡ pos 1)
  apply_lem h key desired current policy now one short =
      let e = cooled_lem (entry h key) policy now short in
      (
        apply_step h key desired current policy now one
            ∙ ap (λ b. stepped (entry h key) b desired current) e,
        subst
            (λ b.
              Left (entry h key) (entry (apply h key desired current policy now).0 key)
                (moves (entry h key) b desired current) now)
            e (apply-Left h key desired current policy now),
        step-apply h key desired current policy now one,
      )
