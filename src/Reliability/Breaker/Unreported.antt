-- ===== src/Reliability/Breaker/Unreported.antt =====
-- A half-open breaker until the outcome of a probe is reported: histories of calls of all methods,
-- for all workers.
use forge_labs.Base.{
  ℕ, ◌+◌, ◌-◌, min, ◌≡◌, refl, ap, ◌∙◌, subst, leb_ℤ, time_sub, inl, inr, Bool, false, Bool-cases,
  none, some, List, [], ◌∷◌, All, arith, if◌then◌else◌, Str, str_eq, str_eq_refl, str_eq→eq, Float,
}
use forge_labs.Reliability.Breaker.{
  closed, half_open, open_, err_open, BreakerConfig, WorkerBreaker, BreakerMap, allow_entry,
  success_entry, failure_entry, entry, store, allow, success, failure, state_of,
}
use forge_labs.Reliability.Breaker.Transitions.{entry-store, methods-Follows}

-- A call of a method, for a worker, with the time that it reads.
pub data Method : Type 0 where
  call_allow : Str → ℕ → Method
  call_success : Str → Method
  call_failure : Str → ℕ → Method
  call_state : Str → Method

-- Whether a call reports an outcome for the worker.
abbrev pub reports : Str → Method → Bool
reports id (call_allow w now) = false
reports id (call_success w) = str_eq w id
reports id (call_failure w now) = str_eq w id
reports id (call_state w) = false

-- How many calls ask for the worker: one or none.
abbrev pub asks : Str → Method → ℕ
asks id (call_allow w now) = if str_eq w id then 1 else 0
asks id (call_success w) = 0
asks id (call_failure w now) = 0
asks id (call_state w) = 0

abbrev pub asked : Str → List Method → ℕ
asked id [] = 0
asked id (c ∷ cs) = asks id c + asked id cs

-- A worker that is half open with `n` probes left.
abbrev pub Probing : ℕ → WorkerBreaker → Type 0
Probing n wb = (wb.state ≡ half_open) × (wb.half_open_left ≡ n)

module _ {F : Type 0} ⦃f : Float F⦄ where
  unfoldable pub perform : BreakerMap F → Method → BreakerMap F
  perform b (call_allow w now) = (allow b w now).0
  perform b (call_success w) = success b w
  perform b (call_failure w now) = failure b w now
  perform b (call_state w) = (state_of b w).1

  -- How many calls are granted to the worker: one or none.
  unfoldable pub grants : Str → BreakerMap F → Method → ℕ
  grants id b (call_allow w now) =
      if str_eq w id then (elim (allow b w now).1 [ none ↦ 1 | some _ ↦ 0 ]) else 0
  grants id b (call_success w) = 0
  grants id b (call_failure w now) = 0
  grants id b (call_state w) = 0

  -- The breakers after a history, and how many of its calls were granted to the worker.
  unfoldable pub perform_all : Str → BreakerMap F → List Method → BreakerMap F × ℕ
  perform_all id b [] = (b, 0)
  perform_all id b (c ∷ cs) =
      let (b', n) = perform_all id (perform b c) cs in (b', grants id b c + n)

  allow_entry-Probing :
      (cfg : BreakerConfig F) (now n : ℕ) (wb : WorkerBreaker)
      → Probing n wb
      → Probing (n - 1) (allow_entry cfg now wb).0
        × ((elim (allow_entry cfg now wb).2 [ none ↦ 1 | some _ ↦ 0 ]) ≡ min n 1)
  unfolding allow_entry
  allow_entry-Probing cfg now n wb p = ground arith

  -- Every call but a report takes at most one probe, and is granted if there was one.
  perform-Probing :
      (n : ℕ) (id : Str) (b : BreakerMap F) (c : Method)
      → reports id c ≡ false
      → Probing n (entry b id)
      → Probing (n - asks id c) (entry (perform b c) id) × (grants id b c ≡ min n (asks id c))
  unfolding perform grants allow state_of
  perform-Probing n id b (call_allow w now) h p = elim (Bool-cases (str_eq w id)) [
    | inl e ↦
        let same : entry b w ≡ entry b id = ap (entry b) (str_eq→eq w id e) in
        rw (e, entry-store b w id _ _, e, same) (allow_entry-Probing b.cfg now n (entry b id) p)
    | inr e ↦ rw (e, entry-store b w id _ _, e) ground arith
  ]
  perform-Probing n id b (call_success w) h p =
      rw ((methods-Follows b w 0).1.others id h) ground arith
  perform-Probing n id b (call_failure w now) h p =
      rw ((methods-Follows b w now).2.others id h) ground arith
  perform-Probing n id b (call_state w) h p =
      ground (arith, entry-store b w id (entry b w) [], str_eq→eq w id, ap (entry b))

  perform-cfg : (b : BreakerMap F) (c : Method) → (perform b c).cfg ≡ b.cfg
  unfolding perform state_of store
  perform-cfg b (call_allow w now) = (methods-Follows b w now).0.same_cfg
  perform-cfg b (call_success w) = (methods-Follows b w 0).1.same_cfg
  perform-cfg b (call_failure w now) = (methods-Follows b w now).2.same_cfg
  perform-cfg b (call_state w) = refl

  -- A history without a report for the worker.
  perform_all-Probing :
      (cs : List Method) (n : ℕ) (id : Str) (b : BreakerMap F)
      → All (λ c. reports id c ≡ false) cs
      → Probing n (entry b id)
      → ((perform_all id b cs).1 ≡ min n (asked id cs))
        × Probing (n - asked id cs) (entry (perform_all id b cs).0 id)
        × ((perform_all id b cs).0.cfg ≡ b.cfg)
  unfolding perform_all
  perform_all-Probing [] n id b _ (h, left) = (omega arith, (h, omega arith), refl)
  perform_all-Probing (c ∷ cs) n id b (quiet, all) p =
      let (now, granted) = perform-Probing n id b c quiet p in
      let (total, (h, left), cfg) =
        perform_all-Probing cs (n - asks id c) id (perform b c) all now in
      (omega arith, (h, left ∙ omega arith), cfg ∙ perform-cfg b c)

  -- A reported success closes the breaker with all counters at zero, and the next call is granted.
  abbrev pub Recovers : BreakerMap F → Str → ℕ → Type 0
  Recovers b id later =
      ((entry (success b id) id).state ≡ closed)
      × ((entry (success b id) id).requests ≡ 0)
      × ((entry (success b id) id).failures ≡ 0)
      × ((entry (success b id) id).successes ≡ 0)
      × ((allow (success b id) id later).1 ≡ none)

  -- A reported failure opens the breaker at its time, and the next call waits for the timeout.
  abbrev pub Opens : BreakerConfig F → BreakerMap F → Str → ℕ → ℕ → Type 0
  Opens cfg b id now later =
      ((entry (failure b id now) id).state ≡ open_)
      × ((entry (failure b id now) id).opened_at ≡ now)
      × ((allow (failure b id now) id later).1
          ≡ (if leb_ℤ cfg.timeout (time_sub later now) then none else some err_open))

  success-Probing :
      (b : BreakerMap F) (id : Str) (later : ℕ)
      → (entry b id).state ≡ half_open
      → Recovers b id later
  unfolding success success_entry allow allow_entry
  success-Probing b id later h = rw (entry-store b id id _ _, str_eq_refl id) ground arith

  failure-Probing :
      (b : BreakerMap F) (id : Str) (now later : ℕ)
      → (entry b id).state ≡ half_open
      → Opens b.cfg b id now later
  unfolding failure failure_entry allow allow_entry store
  failure-Probing b id now later h = rw (entry-store b id id _ _, str_eq_refl id) ground arith

  -- A half-open breaker is decided by the first report for its worker, and by nothing else. In any
  -- history of calls of all methods, for all workers, that reports no outcome for the worker, at
  -- whatever times, exactly as many of its calls are granted as it has probes left, or all of them
  -- if they are fewer; it stays half open, with the rest of the probes left: with none left it
  -- refuses every call. A success then closes it with all counters at zero, and the next call is
  -- granted; a failure opens it at the time of the failure, and a call is granted next if and only
  -- if the timeout has passed since then.
  pub unreported_probes :
      (cs : List Method) (b : BreakerMap F) (id : Str) (now later : ℕ)
      → (entry b id).state ≡ half_open
      → All (λ c. reports id c ≡ false) cs
      → ((perform_all id b cs).1 ≡ min (entry b id).half_open_left (asked id cs))
        × Probing ((entry b id).half_open_left - asked id cs) (entry (perform_all id b cs).0 id)
        × Recovers (perform_all id b cs).0 id later
        × Opens b.cfg (perform_all id b cs).0 id now later
  unreported_probes cs b id now later h quiet =
      let (granted, p, cfg) =
        perform_all-Probing cs (entry b id).half_open_left id b quiet (h, refl) in
      (
        granted,
        p,
        success-Probing (perform_all id b cs).0 id later p.0,
        subst (λ k. Opens k (perform_all id b cs).0 id now later) cfg
            (failure-Probing (perform_all id b cs).0 id now later p.0),
      )
