-- ===== src/Reliability/Breaker/Views.antt =====
-- Methods that leave every breaker as it was: what they answer, and that nothing else changes.
use forge_labs.Base.{
  ℕ, ◌≡◌, refl, ap, ◌∙◌, ◌≢◌, inl, inr, Bool-cases, Bool, true, false, some, [], arith,
  if◌then◌else◌, Str, str_eq, str_eq→eq,
}
use forge_labs.Reliability.Breaker.{
  half_open, open_, err_open, WorkerBreaker, BreakerMap, allow_entry, entry, store, allow, state_of,
}
use forge_labs.Reliability.Breaker.Transitions.{entry-store}
use forge_labs.Reliability.Breaker.Recovery.{elapsed}

module _ {F : Type 0} where
  -- Two maps with the same entry for every worker and the same configuration.
  pub record Same (b b' : BreakerMap F) : Type 0 where
    pub entries : (v : Str) → entry b' v ≡ entry b v
    pub config : b'.cfg ≡ b.cfg

  pub Same-trans : (a b c : BreakerMap F) → Same a b → Same b c → Same a c
  Same-trans a b c p q = record {
    entries = λ v. q.entries v ∙ p.entries v;
    config = q.config ∙ p.config;
  }

  store-Same :
      (b : BreakerMap F) (id : Str) (wb : WorkerBreaker)
      → wb ≡ entry b id
      → Same b (store b id wb [])
  unfolding store
  store-Same b id wb e = record {
    entries = λ v. entry-store b id v wb [] ∙ pick v (str_eq id v) refl;
    config = refl;
  }
    where
      pick : (v : Str) (t : Bool) → str_eq id v ≡ t → (if t then wb else entry b v) ≡ entry b v
      pick v true p = e ∙ ap (entry b) (str_eq→eq id v p)
      pick v false p = refl

  pub state_of-Same :
      (b : BreakerMap F) (id : Str)
      → ((state_of b id).0 ≡ (entry b id).state) × Same b (state_of b id).1
  unfolding state_of
  state_of-Same b id = (refl, store-Same b id (entry b id) refl)

  -- A refusal by `Allow` changes no breaker.
  Refused : BreakerMap F → Str → ℕ → Type 0
  Refused b id now = ((allow b id now).1 ≡ some err_open) × Same b (allow b id now).0

  allow_refuses :
      (b : BreakerMap F) (id : Str) (now : ℕ)
      → allow_entry b.cfg now (entry b id) ≡ (entry b id, [], some err_open)
      → Refused b id now
  unfolding allow Refused
  allow_refuses b id now e = rw e (refl, store-Same b id (entry b id) refl)

  pub allow_early :
      (b : BreakerMap F) (id : Str) (now : ℕ)
      → (entry b id).state ≡ open_
      → elapsed b id now ≡ false
      → ((allow b id now).1 ≡ some err_open) × Same b (allow b id now).0
  unfolding allow_entry Refused
  allow_early b id now h e = allow_refuses b id now (ground arith)

  pub allow_spent :
      (b : BreakerMap F) (id : Str) (now : ℕ)
      → (entry b id).state ≡ half_open
      → (entry b id).half_open_left ≡ 0
      → ((allow b id now).1 ≡ some err_open) × Same b (allow b id now).0
  unfolding allow_entry Refused
  allow_spent b id now h e = allow_refuses b id now (ground arith)

  -- `Allow` for a worker whose breaker is open leaves every breaker that is not open as it was.
  pub allow_keeps :
      (b : BreakerMap F) (id v : Str) (now : ℕ)
      → (entry b id).state ≡ open_
      → (entry b v).state ≢ open_
      → entry (allow b id now).0 v ≡ entry b v
  unfolding allow
  allow_keeps b id v now o n = elim (Bool-cases (str_eq id v)) [
    | inl e ↦ absurd (n (rw (← (str_eq→eq id v e)) o))
    | inr e ↦ rw (entry-store b id v _ _, e)
  ]
