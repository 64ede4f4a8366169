-- ===== src/Gateway/Dispatch/Reaches.antt =====
-- Without a failover a stream that can be had is had.
use forge_labs.Base.{
  ℕ, suc, ◌+◌, ◌≡◌, refl, ap, subst, arith, Bool, true, false, if◌then◌else◌, Option, none, some,
  List, [], ◌∷◌, ◌++◌, length, ltb, Float,
}
use forge_labs.Reliability.Classify.{Errors, retryable, is_excluded}
use forge_labs.Reliability.Budget.{on_failure}
use mathlib.Core.Option
use forge_labs.Gateway.Admission.{SelectedWorker}
use forge_labs.Gateway.Stream.{TokenChunk}
use forge_labs.Gateway.Dispatch.{
  Opened, not_opened, opened, Env, Guards, streams, goes_on, record_fail, after_error, after_open,
  first_round, first_from, stream_first_token,
}

add_zero : (n : ℕ) → n + 0 ≡ n
add_zero n = omega arith

zero_add : (n : ℕ) → n ≡ 0 + n
zero_add n = omega arith

add_suc : (n k : ℕ) → n + suc k ≡ suc n + k
add_suc n k = omega arith

-- No failover is set.
abbrev pub unguarded : {F : Type 0} → Guards F
unguarded = record { budget = none; breaker = none }

module _ {E : Type 0} ⦃errors : Errors E⦄ where
  -- An error that another worker is tried after.
  abbrev pub IsRetryable : Opened E → Type 0
  IsRetryable (not_opened e) = retryable (some e) ≡ true
  IsRetryable (opened [] (some e)) = retryable (some e) ≡ true
  IsRetryable (opened [] none) = ⊥
  IsRetryable (opened (_ ∷ _) _) = ⊥

  -- The workers answer so, the first of them at the position.
  abbrev pub AllRetryable : Env E → ℕ → List SelectedWorker → Type 0
  AllRetryable env i [] = Unit
  AllRetryable env i (w ∷ ws) = IsRetryable (env.open_at i w) × AllRetryable env (suc i) ws

module _ {F E : Type 0} ⦃f : Float F⦄ ⦃errors : Errors E⦄ where
  record_fail-unguarded :
      (env : Env E) (i : ℕ) (w : SelectedWorker) (e : E)
      → record_fail {F = F} env i w (some e) unguarded ≡ unguarded
  record_fail-unguarded env i w e = go (is_excluded e)
    where
      go : (b : Bool) → ◌≡◌ {A = Guards F} (if b then unguarded else unguarded) unguarded
      go true = refl
      go false = refl

  after_error-unguarded :
      (env : Env E) (i : ℕ) (w : SelectedWorker) (e : E)
      → retryable (some e) ≡ true
      → after_error {F = F} env i w e unguarded ≡ goes_on (some e) unguarded
  unfolding after_error
  after_error-unguarded env i w e h = rw (h) (
      ap (λ g. goes_on (some e) (record g { budget = Option.map on_failure g.budget }))
        (record_fail-unguarded env i w e))

  after_open-unguarded :
      (env : Env E) (i : ℕ) (w : SelectedWorker) (o : Opened E)
      → IsRetryable o
      → (e : E) × (after_open {F = F} env i w unguarded o ≡ goes_on (some e) unguarded)
  unfolding after_open
  after_open-unguarded env i w (not_opened e) h = (e, after_error-unguarded env i w e h)
  after_open-unguarded env i w (opened [] (some e)) h = (e, after_error-unguarded env i w e h)
  after_open-unguarded env i w (opened [] none) h = elim h [ ]
  after_open-unguarded env i w (opened (_ ∷ _) _) h = elim h [ ]

  first_round-unguarded :
      (env : Env E) (many : Bool) (i : ℕ) (last : Option E) (w : SelectedWorker)
      → first_round {F = F} env many i last w unguarded
        ≡ after_open env i w unguarded (env.open_at i w)
  unfolding first_round
  first_round-unguarded env many i last w = ground arith

  first_from-unguarded :
      (env : Env E) (many : Bool) (i : ℕ) (last : Option E) (before : List SelectedWorker)
      (w : SelectedWorker) (after : List SelectedWorker) (c : TokenChunk) (cs : List TokenChunk)
      (ending : Option E)
      → AllRetryable env i before
      → env.open_at (i + length before) w ≡ opened (c ∷ cs) ending
      → first_from {F = F} env many i last (before ++ w ∷ after) unguarded
        ≡ (streams w (some c) cs ending, unguarded)
  unfolding first_from after_open
  first_from-unguarded env many i last [] w after c cs ending t h =
      rw
        (
          first_from,
          first_round-unguarded env many i last w,
          subst (λ k. env.open_at k w ≡ opened (c ∷ cs) ending) (add_zero i) h,
        )
        refl
  first_from-unguarded env many i last (v ∷ before) w after c cs ending (r, t) h =
      let (e, goes) = after_open-unguarded env i v (env.open_at i v) r in
      rw (first_from, first_round-unguarded env many i last v, goes)
        (first_from-unguarded env many (suc i) (some e) before w after c cs ending t
          (subst (λ k. env.open_at k w ≡ opened (c ∷ cs) ending) (add_suc i (length before)) h))

  -- Without a failover, if a worker of the list sends a first chunk and all before it answer with
  -- retryable errors, `streamFirstToken` returns that worker's stream with its first chunk.
  pub stream_first_token-reaches :
      (env : Env E) (before : List SelectedWorker) (w : SelectedWorker)
      (after : List SelectedWorker) (c : TokenChunk) (cs : List TokenChunk) (ending : Option E)
      → AllRetryable env 0 before
      → env.open_at (length before) w ≡ opened (c ∷ cs) ending
      → stream_first_token {F = F} env (before ++ w ∷ after) unguarded
        ≡ (streams w (some c) cs ending, unguarded)
  unfolding stream_first_token
  stream_first_token-reaches env before w after c cs ending t h =
      first_from-unguarded env (ltb 1 (length (before ++ w ∷ after))) 0 none before w after c cs
        ending t
        (subst (λ k. env.open_at k w ≡ opened (c ∷ cs) ending) (zero_add (length before)) h)
