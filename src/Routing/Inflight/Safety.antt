-- ===== src/Routing/Inflight/Safety.antt =====
-- The counter under every interleaving.
use forge_labs.Base.{
  ℕ, zero, suc, ◌+◌, ◌≤◌, ◌≡◌, refl, inl, inr, some, List, [], ◌∷◌, arith, get_elem?, set, subst,
  ap, ◌∙◌, ◌-◌, replicate, All, Option-cases, ℤ, pos, ◌+ℤ◌, ◌-ℤ◌, ◌≤ℤ◌, ◌<ℤ◌,
}
use forge_labs.Routing.Inflight.{
  Stage, idle, trying, refused, holding, releasing, zeroing, released, seen, release_seen, act,
  System, turn, run,
}

-- Whether a request holds a slot: it was let in and has not given the slot back.
abbrev pub weight : Stage → ℕ
weight holding = 1
weight releasing = 1
weight (release_seen v) = 1
weight zeroing = 1
weight _ = 0

abbrev pub held : List Stage → ℕ
held [] = 0
held (p ∷ ps) = weight p + held ps

-- `Dec` never meets a counter that is not positive, so it never stores 0.
abbrev pub Sound : Stage → Type 0
Sound (release_seen v) = pos 0 <ℤ v
Sound zeroing = ⊥
Sound _ = Unit

pub record IsCounted (limit : ℤ) (s : System) : Type 0 where
  pub exact : s.counter ≡ pos (held s.requests)
  pub sound : All Sound s.requests
  pub capped : pos 0 <ℤ limit → s.counter ≤ℤ limit

-- One action of a request that holds at most what is counted.
pub act_lem :
    (limit : ℤ) (n : ℕ) (p : Stage)
    → weight p ≤ n
    → Sound p
    → (pos 0 <ℤ limit → pos n ≤ℤ limit)
    → let (c, q) = act limit (pos n) p in
      (c ≡ pos (n + weight q - weight p)) × Sound q × (pos 0 <ℤ limit → c ≤ℤ limit)
unfolding act ◌+ℤ◌ ◌-ℤ◌
act_lem limit n idle w ok cap = ground arith
act_lem limit n trying w ok cap = ground arith
act_lem limit n refused w ok cap = ground arith
act_lem limit n holding w ok cap = ground arith
act_lem limit n releasing w ok cap = ground arith
act_lem limit n zeroing w ok cap = elim ok [ ]
act_lem limit n released w ok cap = ground arith
act_lem limit n (seen v) w ok cap = ground arith
act_lem limit n (release_seen v) w ok cap = ground arith

held-get : (ps : List Stage) (i : ℕ) {p : Stage} → get_elem? ps i ≡ some p → weight p ≤ held ps
held-get [] i h = absurd (cc)
held-get (q ∷ ps) zero h = ground arith
held-get (q ∷ ps) (suc i) {p} h = omega (arith, held-get ps i {p = p} h)

held-set :
    (ps : List Stage) (i : ℕ) (p q : Stage)
    → get_elem? ps i ≡ some p
    → held (set ps i q) + weight p ≡ held ps + weight q
held-set [] i p q h = absurd (cc)
held-set (r ∷ ps) zero p q h = ground arith
held-set (r ∷ ps) (suc i) p q h = omega (arith, held-set ps i p q h)

Sound-get : (ps : List Stage) (i : ℕ) (p : Stage) → All Sound ps → get_elem? ps i ≡ some p → Sound p
Sound-get [] i p all h = absurd (cc)
Sound-get (q ∷ ps) zero p all h = subst Sound {x = q} {y = p} (cc) all.0
Sound-get (q ∷ ps) (suc i) p all h = Sound-get ps i p all.1 h

Sound-set : (ps : List Stage) (i : ℕ) (q : Stage) → All Sound ps → Sound q → All Sound (set ps i q)
Sound-set [] i q all ok = tt
Sound-set (r ∷ ps) zero q all ok = (ok, all.1)
Sound-set (r ∷ ps) (suc i) q all ok = (all.0, Sound-set ps i q all.1 ok)

turn-IsCounted :
    (limit : ℤ) (s : System) (i : ℕ) → IsCounted limit s → IsCounted limit (turn limit s i)
unfolding turn
turn-IsCounted limit s i v = elim (Option-cases (get_elem? s.requests i)) [
  | inl e ↦ rw (e, turn) v
  | inr (p, e) ↦
      let n = held s.requests in
      let q = (act limit (pos n) p).1 in
      let w = held-get s.requests i {p = p} e in
      let (moved, ok, cap) =
        act_lem limit n p w (Sound-get s.requests i p v.sound e) (rw v.exact at v.capped) in
      rw (e, turn, v.exact)
        (record {
          exact = moved ∙ ap pos (omega (arith, held-set s.requests i p q e));
          sound = Sound-set s.requests i q v.sound ok;
          capped = cap;
        })
]

run-IsCounted :
    (limit : ℤ) (schedule : List ℕ) (s : System)
    → IsCounted limit s
    → IsCounted limit (run limit s schedule)
unfolding run
run-IsCounted limit [] s v = v
run-IsCounted limit (i ∷ schedule) s v =
    run-IsCounted limit schedule (turn limit s i) (turn-IsCounted limit s i v)

-- A number of requests that have not begun, and their worker's counter at 0.
abbrev pub fresh : ℕ → System
fresh n = record { counter = pos 0; requests = replicate n idle }

held-fresh : (n : ℕ) → held (replicate n idle) ≡ 0
held-fresh zero = refl
held-fresh (suc n) = omega (arith, held-fresh n)

Sound-fresh : (n : ℕ) → All Sound (replicate n idle)
Sound-fresh zero = tt
Sound-fresh (suc n) = (tt, Sound-fresh n)

-- Whatever the number of requests and the order of their atomic actions, the counter is the
-- number of requests that hold a slot, and if the limit is positive no more than `limit` do.
pub admission_safe :
    (limit : ℤ) (n : ℕ) (schedule : List ℕ)
    → let s = run limit (fresh n) schedule in
      (s.counter ≡ pos (held s.requests)) × (pos 0 <ℤ limit → pos (held s.requests) ≤ℤ limit)
admission_safe limit n schedule =
    let v =
      run-IsCounted limit schedule (fresh n)
        (record { exact = rw (held-fresh n); sound = Sound-fresh n; capped = λ h. omega arith }) in
    (v.exact, rw v.exact at v.capped)
