-- ===== src/Reliability/Breaker/Window.antt =====
-- The counters of a breaker: they stay consistent, and failures in a row open a closed breaker.
use forge_labs.Base.{
  ℕ, suc, ◌+◌, ◌^◌, ◌≤◌, ◌<◌, ◌≡◌, refl, Bool, true, false, List, [], ◌∷◌, ◌++◌, length, arith,
  if◌then◌else◌, Str, str_eq, str_eq_refl, Float,
}
use forge_labs.Reliability.Breaker.{
  State, closed, half_open, open_, BreakerConfig, WorkerBreaker, BreakerMap, new_breaker,
  allow_entry, success_entry, failure_entry, entry, store, allow, success, failure,
}
use forge_labs.Reliability.Breaker.Transitions.{entry-store}

-- Every counted failure and success is a counted request, and a half-open breaker has no more
-- probes left than are configured.
pub record IsCounted {F : Type 0} (cfg : BreakerConfig F) (wb : WorkerBreaker) : Type 0 where
  pub outcomes : wb.failures + wb.successes ≤ wb.requests
  pub quota : wb.state ≡ half_open → wb.half_open_left ≤ cfg.max_half_open

-- A closed breaker that has counted failures and nothing else.
abbrev pub Failing : ℕ → WorkerBreaker → Type 0
Failing n wb = (wb.state ≡ closed) × (wb.requests ≡ n) × (wb.failures ≡ n)

module _ {F : Type 0} ⦃f : Float F⦄ where
  allow_entry-IsCounted :
      (cfg : BreakerConfig F) (now : ℕ) (wb : WorkerBreaker)
      → IsCounted cfg wb
      → IsCounted cfg (allow_entry cfg now wb).0
  unfolding allow_entry
  allow_entry-IsCounted cfg now wb v = ground arith

  success_entry-IsCounted :
      (cfg : BreakerConfig F) (wb : WorkerBreaker)
      → wb.requests + 1 < 2 ^ 32
      → IsCounted cfg wb
      → IsCounted cfg (success_entry cfg wb).0
  unfolding success_entry
  success_entry-IsCounted cfg wb h v = ground arith

  failure_entry-IsCounted :
      (cfg : BreakerConfig F) (now : ℕ) (wb : WorkerBreaker)
      → wb.requests + 1 < 2 ^ 32
      → IsCounted cfg wb
      → IsCounted cfg (failure_entry cfg now wb).0
  unfolding failure_entry
  failure_entry-IsCounted cfg now wb h v = ground arith

  set_entry :
      (b : BreakerMap F) (id : Str) (wb : WorkerBreaker) (told : List State)
      → ((w : Str) → IsCounted b.cfg (entry b w))
      → IsCounted b.cfg wb
      → (w : Str) → IsCounted b.cfg (entry (store b id wb told) w)
  set_entry b id wb told all v w = rw entry-store (pick (str_eq id w))
    where
      pick : (test : Bool) → IsCounted b.cfg (if test then wb else entry b w)
      pick true = v
      pick false = all w

  -- For every worker, the counted outcomes never exceed the counted requests and the probes left
  -- never exceed the configured number: every method keeps this, as long as the request counter of
  -- its worker does not wrap at 2 ^ 32.
  pub methods-IsCounted :
      (b : BreakerMap F) (id : Str) (now : ℕ)
      → (entry b id).requests + 1 < 2 ^ 32
      → ((w : Str) → IsCounted b.cfg (entry b w))
      → ((w : Str) → IsCounted b.cfg (entry (allow b id now).0 w))
        × ((w : Str) → IsCounted b.cfg (entry (success b id) w))
        × ((w : Str) → IsCounted b.cfg (entry (failure b id now) w))
  unfolding allow success failure
  methods-IsCounted b id now room all = (
    set_entry b id _ _ all (allow_entry-IsCounted b.cfg now (entry b id) (all id)),
    set_entry b id _ _ all (success_entry-IsCounted b.cfg (entry b id) room (all id)),
    set_entry b id _ _ all (failure_entry-IsCounted b.cfg now (entry b id) room (all id)),
  )

  -- One `Failure` for the worker at each time.
  unfoldable pub fail_all : BreakerMap F → Str → List ℕ → BreakerMap F
  fail_all b id [] = b
  fail_all b id (now ∷ rest) = fail_all (failure b id now) id rest

  entry-failure :
      (b : BreakerMap F) (id : Str) (now : ℕ)
      → entry (failure b id now) id ≡ (failure_entry b.cfg now (entry b id)).0
  unfolding failure
  entry-failure b id now = rw (entry-store b id id _ _, str_eq_refl id)

  cfg-failure : (b : BreakerMap F) (id : Str) (now : ℕ) → (failure b id now).cfg ≡ b.cfg
  unfolding failure store
  cfg-failure b id now = refl

  fail_below :
      (cfg : BreakerConfig F) (now n : ℕ) (wb : WorkerBreaker)
      → Failing n wb
      → suc n < cfg.min_requests
      → cfg.min_requests < 2 ^ 32
      → Failing (suc n) (failure_entry cfg now wb).0
  unfolding failure_entry
  fail_below cfg now n wb v h k = ground arith

  fail_at :
      (cfg : BreakerConfig F) (now n : ℕ) (wb : WorkerBreaker)
      → Failing n wb
      → suc n ≡ cfg.min_requests
      → cfg.min_requests < 2 ^ 32
      → f.lt (f.div (f.num cfg.min_requests) (f.num cfg.min_requests)) cfg.failure_ratio ≡ false
      → ((failure_entry cfg now wb).0.state ≡ open_)
        × ((failure_entry cfg now wb).0.opened_at ≡ now)
  unfolding failure_entry
  fail_at cfg now n wb v e k r = ground arith

  fail_run :
      (ts : List ℕ) (last n : ℕ) (b : BreakerMap F) (id : Str)
      → Failing n (entry b id)
      → n + suc (length ts) ≡ b.cfg.min_requests
      → b.cfg.min_requests < 2 ^ 32
      → f.lt (f.div (f.num b.cfg.min_requests) (f.num b.cfg.min_requests)) b.cfg.failure_ratio
        ≡ false
      → Failing (n + length ts) (entry (fail_all b id ts) id)
        × ((entry (fail_all b id (ts ++ last ∷ [])) id).state ≡ open_)
        × ((entry (fail_all b id (ts ++ last ∷ [])) id).opened_at ≡ last)
  unfolding fail_all
  fail_run [] last n b id v e k r =
      ground (arith, entry-failure b id last, fail_at b.cfg last n (entry b id))
  fail_run (t ∷ ts) last n b id v e k r = ground (
    arith,
    entry-failure b id t,
    cfg-failure b id t,
    fail_below b.cfg t n (entry b id),
    fail_run ts last (suc n) (failure b id t) id,
  )

  -- A new worker whose calls all fail: the breaker stays closed for the first failures, all of
  -- them counted, and the one that makes them `min_requests` opens it, at its own time. The
  -- configured number fits its `uint32`, and the ratio 1 reaches the configured one.
  pub failures_trip :
      (ts : List ℕ) (last : ℕ) (b : BreakerMap F) (id : Str)
      → entry b id ≡ new_breaker
      → suc (length ts) ≡ b.cfg.min_requests
      → b.cfg.min_requests < 2 ^ 32
      → f.lt (f.div (f.num b.cfg.min_requests) (f.num b.cfg.min_requests)) b.cfg.failure_ratio
        ≡ false
      → Failing (length ts) (entry (fail_all b id ts) id)
        × ((entry (fail_all b id (ts ++ last ∷ [])) id).state ≡ open_)
        × ((entry (fail_all b id (ts ++ last ∷ [])) id).opened_at ≡ last)
  unfolding new_breaker
  failures_trip ts last b id new e k r =
      rw (← (zero_add (length ts)))
        (fail_run ts last 0 b id (rw new (refl, refl, refl)) (omega arith) k r)
    where
      zero_add : (n : ℕ) → 0 + n ≡ n
      zero_add n = omega arith
