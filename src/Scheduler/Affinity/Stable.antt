-- ===== src/Scheduler/Affinity/Stable.antt =====
-- The pick of a worker does not depend on the workers that are not picked.
use forge_labs.Base.{
  ℕ, ◌≡◌, refl, sym, ◌∙◌, ap, Bool, true, false, List, [], ◌∷◌, All, arith, if◌then◌else◌,
  Bool-cases, inl, inr, Str, str_eq, str_eq→eq, str_eq_refl, str_lt_irrefl, str_lt_trans,
  str_lt_total, is_member,
}
use forge_labs.Scheduler.Affinity.{hrw_beats, hrw_from, hrw_pick}

All-is_member :
    (v : Str) (vs ws : List Str)
    → All (λ u. is_member ws u ≡ true) vs
    → is_member vs v ≡ true
    → is_member ws v ≡ true
unfolding is_member
All-is_member v [] ws t m = absurd (cc)
All-is_member v (u ∷ us) ws (h, t) m = elim (Bool-cases (str_eq u v)) [
  | inl same ↦ ap (is_member ws) (sym (str_eq→eq u v same)) ∙ h
  | inr other ↦ All-is_member v us ws t (rw other at m)
]

module _ (xxhash : List ℕ → ℕ) (key : ℕ) where
  beats_total :
      (x y : Str) → hrw_beats xxhash key x y ≡ false → hrw_beats xxhash key y x ≡ false → x ≡ y
  unfolding hrw_beats
  beats_total x y h k = ground (arith, str_lt_total x y)

  not_beats_trans :
      (x y z : Str)
      → hrw_beats xxhash key x y ≡ false
      → hrw_beats xxhash key y z ≡ false
      → hrw_beats xxhash key x z ≡ false
  unfolding hrw_beats
  not_beats_trans x y z h k = ground (
    arith,
    str_lt_total x y,
    str_lt_total y z,
    str_lt_trans y x z,
    str_lt_trans x z y,
    str_lt_trans z y x,
  )

  beats_irrefl : (x : Str) → hrw_beats xxhash key x x ≡ false
  unfolding hrw_beats
  beats_irrefl x = ground (arith, str_lt_irrefl x)

  beats_asym : (x y : Str) → hrw_beats xxhash key x y ≡ true → hrw_beats xxhash key y x ≡ false
  unfolding hrw_beats
  beats_asym x y h = ground (arith, str_lt_irrefl x, str_lt_trans x y x)

  -- No worker of a list beats `r`.
  abbrev Unbeaten : Str → List Str → Type 0
  Unbeaten r ws = All (λ w. hrw_beats xxhash key w r ≡ false) ws

  Unbeaten-is_member :
      (r v : Str) (ws : List Str)
      → Unbeaten r ws
      → is_member ws v ≡ true
      → hrw_beats xxhash key v r ≡ false
  unfolding is_member
  Unbeaten-is_member r v [] u m = absurd (cc)
  Unbeaten-is_member r v (w ∷ ws) (b, u) m = elim (Bool-cases (str_eq w v)) [
    | inl same ↦ ap (λ x. hrw_beats xxhash key x r) (sym (str_eq→eq w v same)) ∙ b
    | inr other ↦ Unbeaten-is_member r v ws u (rw other at m)
  ]

  -- A worker of the list that no other beats.
  abbrev Best : Str → List Str → Str → Type 0
  Best best ws r = (is_member (best ∷ ws) r ≡ true) × Unbeaten r (best ∷ ws)

  Best-cons :
      (best w r : Str) (ws : List Str) (b : Bool)
      → hrw_beats xxhash key w best ≡ b
      → Best (if b then w else best) ws r
      → Best best (w ∷ ws) r
  unfolding is_member
  Best-cons best w r ws true e (m, (b, u)) =
      (ground (arith, m), (not_beats_trans best w r (beats_asym w best e) b, (b, u)))
  Best-cons best w r ws false e (m, (b, u)) =
      (ground (arith, m), (b, (not_beats_trans w best r e b, u)))

  -- The loop ends with such a worker.
  hrw_from-Best : (best : Str) (ws : List Str) → Best best ws (hrw_from xxhash key best ws)
  unfolding hrw_from is_member
  hrw_from-Best best [] = (ground (arith, str_eq_refl best), (beats_irrefl best, tt))
  hrw_from-Best best (w ∷ ws) =
      Best-cons best w (hrw_from xxhash key best (w ∷ ws)) ws (hrw_beats xxhash key w best) refl
        (hrw_from-Best (if hrw_beats xxhash key w best then w else best) ws)

  hrw_pick-Unbeaten :
      (ws : List Str) (v : Str)
      → is_member ws v ≡ true
      → (is_member ws (hrw_pick xxhash key ws) ≡ true) × Unbeaten (hrw_pick xxhash key ws) ws
  unfolding hrw_pick is_member
  hrw_pick-Unbeaten [] v m = absurd (cc)
  hrw_pick-Unbeaten (w ∷ ws) v m = hrw_from-Best w ws

  Unbeaten-subset :
      (r : Str) (vs ws : List Str)
      → Unbeaten r ws
      → All (λ v. is_member ws v ≡ true) vs
      → Unbeaten r vs
  Unbeaten-subset r [] ws u t = tt
  Unbeaten-subset r (v ∷ vs) ws u (m, t) =
      (Unbeaten-is_member r v ws u m, Unbeaten-subset r vs ws u t)

  -- If all workers of a list are among those of another, and the worker that is picked from the
  -- other is in it, then the same worker is picked from both: the order of the workers, repetitions,
  -- and the loss of workers that were not picked make no difference.
  pub hrw_pick_lem :
      (vs ws : List Str)
      → All (λ v. is_member ws v ≡ true) vs
      → is_member vs (hrw_pick xxhash key ws) ≡ true
      → hrw_pick xxhash key vs ≡ hrw_pick xxhash key ws
  hrw_pick_lem vs ws t m =
      let p = hrw_pick xxhash key ws in
      let q = hrw_pick xxhash key vs in
      let (mq, uq) = hrw_pick-Unbeaten vs p m in
      let mq' = All-is_member q vs ws t mq in
      let (mp, up) = hrw_pick-Unbeaten ws q mq' in
      beats_total q p (Unbeaten-is_member p q ws up mq') (Unbeaten-is_member q p vs uq m)
