-- ===== src/Reliability/Breaker/Recovery.antt =====
-- How an open breaker lets calls through again: sequences of `Allow` for one worker, with the
-- times at which they are made.
use forge_labs.Base.{
  ℕ, zero, suc, ◌-◌, min, ◌≡◌, refl, sym, ap, ◌∙◌, subst, Bool, true, false, none, some, List, [],
  ◌∷◌, ◌++◌, All, length, arith, leb_ℤ, time_sub, Str, str_eq_refl,
}
use forge_labs.Reliability.Breaker.{
  half_open, open_, err_open, BreakerConfig, WorkerBreaker, BreakerMap, allow_entry, entry, store,
  allow,
}
use forge_labs.Reliability.Breaker.Transitions.{entry-store}

module _ {F : Type 0} where
  -- One `Allow` for the worker at each time, and how many of them were granted.
  unfoldable pub allow_all : BreakerMap F → Str → List ℕ → BreakerMap F × ℕ
  allow_all b id [] = (b, 0)
  allow_all b id (now ∷ rest) =
      let (b', e) = allow b id now in
      let (b'', n) = allow_all b' id rest in (b'', elim e [ none ↦ suc n | some _ ↦ n ])

  pub entry-allow :
      (b : BreakerMap F) (id : Str) (now : ℕ)
      → entry (allow b id now).0 id ≡ (allow_entry b.cfg now (entry b id)).0
  unfolding allow
  entry-allow b id now = rw (entry-store b id id _ _, str_eq_refl id)

  pub cfg-allow : (b : BreakerMap F) (id : Str) (now : ℕ) → (allow b id now).0.cfg ≡ b.cfg
  unfolding allow store
  cfg-allow b id now = refl

  error-allow :
      (b : BreakerMap F) (id : Str) (now : ℕ)
      → (allow b id now).1 ≡ (allow_entry b.cfg now (entry b id)).2
  unfolding allow
  error-allow b id now = refl

  -- Half open: each `Allow` takes one of the probes that are left.
  pub probe :
      (cfg : BreakerConfig F) (now : ℕ) (wb : WorkerBreaker)
      → wb.state ≡ half_open
      → allow_entry cfg now wb ≡ (elim wb.half_open_left [
        | zero ↦ (wb, [], some err_open)
        | suc n ↦ (record wb { half_open_left = n }, [], none)
      ])
  unfolding allow_entry
  probe cfg now wb h = ground arith

  -- A half-open breaker grants as many calls as it has probes left and then none, at whatever
  -- times they come, and stays half open.
  pub half_open_quota :
      (ts : List ℕ) (b : BreakerMap F) (id : Str)
      → (entry b id).state ≡ half_open
      → ((allow_all b id ts).1 ≡ min (entry b id).half_open_left (length ts))
        × ((entry (allow_all b id ts).0 id).state ≡ half_open)
        × ((entry (allow_all b id ts).0 id).half_open_left
            ≡ (entry b id).half_open_left - length ts)
  unfolding allow_all
  half_open_quota [] b id h = (omega arith, h, omega arith)
  half_open_quota (t ∷ ts) b id h = ground (
    arith,
    error-allow b id t,
    entry-allow b id t,
    probe b.cfg t (entry b id),
    half_open_quota ts (allow b id t).0 id,
  )

  -- Whether the open period of a breaker is over at a time.
  abbrev pub elapsed : BreakerMap F → Str → ℕ → Bool
  elapsed b id now = leb_ℤ b.cfg.timeout (time_sub now (entry b id).opened_at)

  open_early :
      (b : BreakerMap F) (id : Str) (now : ℕ)
      → (entry b id).state ≡ open_
      → elapsed b id now ≡ false
      → allow_entry b.cfg now (entry b id) ≡ (entry b id, [], some err_open)
  unfolding allow_entry
  open_early b id now h e = ground arith

  open_late :
      (b : BreakerMap F) (id : Str) (now : ℕ)
      → (entry b id).state ≡ open_
      → elapsed b id now ≡ true
      → allow_entry b.cfg now (entry b id) ≡ (
        record (entry b id) { state = half_open; half_open_left = b.cfg.max_half_open },
        half_open ∷ [],
        none,
      )
  unfolding allow_entry
  open_late b id now h e = ground arith

  -- An open breaker refuses every call until its timeout has passed. The first call after that is
  -- granted, and of those that follow, before an outcome is reported, `max_half_open` are granted
  -- as well: one more than the configured number in all.
  pub open_then_probes :
      (early : List ℕ) (late : ℕ) (ts : List ℕ) (b : BreakerMap F) (id : Str)
      → (entry b id).state ≡ open_
      → All (λ t. elapsed b id t ≡ false) early
      → elapsed b id late ≡ true
      → (allow_all b id (early ++ late ∷ ts)).1 ≡ suc (min b.cfg.max_half_open (length ts))
  unfolding allow_all allow store
  open_then_probes [] late ts b id h _ e = ground (
    arith,
    error-allow b id late,
    entry-allow b id late,
    open_late b id late,
    half_open_quota ts (allow b id late).0 id,
  )
  open_then_probes (t ∷ early) late ts b id h all e =
      let same : entry (allow b id t).0 id ≡ entry b id =
        entry-allow b id t ∙ ap (λ r. r.0) (open_early b id t h all.0) in
      let refused : (allow b id t).1 ≡ some err_open =
        error-allow b id t ∙ ap (λ r. r.2) (open_early b id t h all.0) in
      let rest : (allow_all (allow b id t).0 id (early ++ late ∷ ts)).1
          ≡ suc (min b.cfg.max_half_open (length ts)) =
        open_then_probes early late ts (allow b id t).0 id (rw same h)
          (subst (λ wb. All (λ s. leb_ℤ b.cfg.timeout (time_sub s wb.opened_at) ≡ false) early)
            (sym same) all.1)
          (rw same e) in
      rw (refused, allow_all) rest
