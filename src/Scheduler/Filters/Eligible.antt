-- ===== src/Scheduler/Filters/Eligible.antt =====
-- The configured filters together: which candidates survive, and which error is returned if none
-- does.
use forge_labs.Base.{
  ◌≡◌, refl, ◌∙◌, Bool, false, ◌&&◌, Option, some, List, [], ◌∷◌, keep_if, arith, if◌then◌else◌,
  is_empty, ℤ, pos, leb_ℤ, str_eq, bytes,
}
use forge_labs.Scheduler.Types.{Candidate, Request, Filter}
use forge_labs.Scheduler.Filters.{
  is_healthy, serves, satisfies_capability, has_room, configured_filters, health_filter,
  model_filter, capability_filter,
}
use forge_labs.Scheduler.Chain.{
  Result, ok, err, RankError, no_capacity, admission_rejected, survivors,
}

keep_if_twice :
    {A : Type 0} (p q : A → Bool) (xs : List A)
    → keep_if q (keep_if p xs) ≡ keep_if (λ x. p x && q x) xs
keep_if_twice p q [] = refl
keep_if_twice p q (x ∷ xs) = ground (arith, keep_if_twice p q xs)

-- A list of candidates, or the error if it is empty.
abbrev pub or_error {ℓ} : {A : Type ℓ} → RankError → List A → Result (List A)
or_error e [] = err e
or_error e (c ∷ cs) = ok (c ∷ cs)

-- `no_capacity` if no candidate can serve, `admission_rejected` if none of those has room.
abbrev pub admitted {ℓ} : {A : Type ℓ} → (A → Bool) → List A → Result (List A)
admitted room [] = err no_capacity
admitted room (c ∷ cs) = or_error admission_rejected (keep_if room (c ∷ cs))

module _ {F : Type 0} where
  -- A candidate that may serve the request, its load aside.
  abbrev pub can_serve : Request → Candidate F → Bool
  can_serve req c = is_healthy c && (serves req c && satisfies_capability req c)

  survivors_nil :
      (fl : Filter F) (fs : List (Filter F)) (req : Option Request) (cs : List (Candidate F))
      → fl.filter req cs ≡ []
      → survivors (fl ∷ fs) req cs
        ≡ (if str_eq fl.name (bytes "admission") then err admission_rejected else err no_capacity)
  unfolding survivors
  survivors_nil fl fs req cs e = rw (e, survivors)

  survivors_cons :
      (fl : Filter F) (fs : List (Filter F)) (req : Option Request) (cs rest : List (Candidate F))
      (c : Candidate F)
      → fl.filter req cs ≡ c ∷ rest
      → survivors (fl ∷ fs) req cs ≡ survivors fs req (c ∷ rest)
  unfolding survivors
  survivors_cons fl fs req cs rest c e = rw (e, survivors)

  -- One filter that keeps by a test, before filters whose result is known.
  stage :
      (fl : Filter F) (fs : List (Filter F)) (req : Option Request) (p : Candidate F → Bool)
      (X : List (Candidate F) → Result (List (Candidate F)))
      → ((d : Candidate F) (ds : List (Candidate F)) → survivors fs req (d ∷ ds) ≡ X (d ∷ ds))
      → (if str_eq fl.name (bytes "admission") then err admission_rejected else err no_capacity)
        ≡ X []
      → (cs : List (Candidate F)) → fl.filter req cs ≡ keep_if p cs
      → survivors (fl ∷ fs) req cs ≡ X (keep_if p cs)
  stage fl fs req p X next none_left cs e = go (keep_if p cs) e
    where
      go : (k : List (Candidate F)) → fl.filter req cs ≡ k → survivors (fl ∷ fs) req cs ≡ X k
      go [] e' = survivors_nil fl fs req cs e' ∙ none_left
      go (d ∷ ds) e' = survivors_cons fl fs req cs ds d e' ∙ next d ds

  -- The admission filter under a positive limit.
  abbrev room_filter : ℤ → Filter F
  room_filter limit = record {
    name = bytes "admission";
    filter = λ _ cs. keep_if (has_room limit) cs;
  }

  -- With a positive limit and a model named by the request, the configured filters keep exactly
  -- the candidates that can serve the request and have room, in their order. If none can serve,
  -- the error is `no_capacity`; if some can but none of them has room, `admission_rejected`.
  pub configured_filters_lem :
      (limit : ℤ) (req : Request) (cs : List (Candidate F))
      → leb_ℤ limit (pos 0) ≡ false
      → is_empty req.base_model ≡ false
      → survivors (configured_filters limit) (some req) cs
        ≡ admitted (has_room limit) (keep_if (can_serve req) cs)
  unfolding configured_filters str_eq survivors
  configured_filters_lem limit req cs l b =
      rw
        (
          l,
          ← keep_if_twice is_healthy (λ c. serves req c && satisfies_capability req c) cs,
          ← keep_if_twice (serves req) (satisfies_capability req) (keep_if is_healthy cs),
        )
        (stage health_filter (model_filter ∷ capability_filter ∷ room_filter limit ∷ []) (some req)
          is_healthy
          (λ h.
            admitted (has_room limit) (keep_if (satisfies_capability req) (keep_if (serves req) h)))
          (λ c h.
            stage model_filter (capability_filter ∷ room_filter limit ∷ []) (some req) (serves req)
              (λ m. admitted (has_room limit) (keep_if (satisfies_capability req) m))
              (λ c' m.
                stage capability_filter (room_filter limit ∷ []) (some req)
                  (satisfies_capability req) (admitted (has_room limit))
                  (λ d k.
                    stage (room_filter limit) [] (some req) (has_room limit)
                      (or_error admission_rejected) (λ _ _. refl) refl (d ∷ k) refl)
                  refl (c' ∷ m) refl)
              refl (c ∷ h) (rw b))
          refl cs refl)
