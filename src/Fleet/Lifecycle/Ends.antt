-- ===== src/Fleet/Lifecycle/Ends.antt =====
-- The wait for a worker ends, and what its end means; and which models make a pod ready.
use forge_labs.Base.{
  ltb→lt, ◌⊎◌, ℕ, zero, suc, ◌+◌, ◌*◌, ◌≤◌, ◌<◌, ◌≡◌, refl, arith, Bool, true, false, not, Option,
  none, some, List, [], ◌∷◌, ltb, if◌then◌else◌, is_nil, is_empty, Bool-cases, inl, inr, Str,
}
use forge_labs.Fleet.Lifecycle.{
  WaitEnv, Waited, ready_at, context_done, register_failed, timed_out, out_of_fuel, wait_from,
  wait_ready, reply, ProbeError, http_models_ok, names_model,
}

-- A round that waits: it begins before the deadline, the context is not done, and the look finds nothing.
abbrev pub IsWaiting : WaitEnv → ℕ → ℕ → Type 0
IsWaiting env deadline i =
    (env.now i < deadline)
    × (env.done_before i ≡ false)
    × (env.look i ≡ false)
    × (env.done_in_pause i ≡ false)

-- So do all rounds before one.
abbrev pub AllWaiting : WaitEnv → ℕ → ℕ → Type 0
AllWaiting env deadline zero = Unit
AllWaiting env deadline (suc i) = AllWaiting env deadline i × IsWaiting env deadline i

-- A round before the deadline that sees the worker ready.
abbrev pub IsSeen : WaitEnv → ℕ → ℕ → Type 0
IsSeen env deadline i = (env.now i < deadline) × (env.done_before i ≡ false) × (env.look i ≡ true)

-- A round before the deadline in which the context is found done.
abbrev pub IsDone : WaitEnv → ℕ → ℕ → Type 0
IsDone env deadline i =
    (env.now i < deadline)
    × ((env.done_before i ≡ true)
        ⊎ ((env.done_before i ≡ false) × (env.look i ≡ false) × (env.done_in_pause i ≡ true)))

-- What an end of the wait says, each of the first round that does not wait.
abbrev pub Explained : WaitEnv → ℕ → Waited → Type 0
Explained env deadline (ready_at i) =
    AllWaiting env deadline i × IsSeen env deadline i × (env.register_fails i ≡ false)
Explained env deadline context_done = (i : ℕ) × AllWaiting env deadline i × IsDone env deadline i
Explained env deadline register_failed =
    (i : ℕ) × AllWaiting env deadline i × IsSeen env deadline i × (env.register_fails i ≡ true)
Explained env deadline timed_out = (i : ℕ) × AllWaiting env deadline i × (deadline ≤ env.now i)
Explained env deadline out_of_fuel = ⊥

-- One round, given that the rest is explained if the round waits.
round-Explained :
    (fuel : ℕ) (env : WaitEnv) (deadline i : ℕ)
    → AllWaiting env deadline i
    → (IsWaiting env deadline i → Explained env deadline (wait_from fuel env deadline (suc i)))
    → Explained env deadline (wait_from (suc fuel) env deadline i)
unfolding wait_from
round-Explained fuel env deadline i before rest = elim (Bool-cases (ltb (env.now i) deadline)) [
  | inr late ↦ rw late (i, before, ground arith)
  | inl early ↦
      let in_time = ltb→lt (env.now i) deadline early in
      elim (Bool-cases (env.done_before i)) [
        | inl done ↦ rw (early, done) (i, before, (in_time, inl done))
        | inr alive ↦ elim (Bool-cases (env.look i)) [
          | inl found ↦ elim (Bool-cases (env.register_fails i)) [
            | inl bad ↦ rw (early, alive, found, bad) (i, before, (in_time, alive, found), bad)
            | inr good ↦ rw (early, alive, found, good) (before, (in_time, alive, found), good)
          ]
          | inr absent ↦ elim (Bool-cases (env.done_in_pause i)) [
            | inl done ↦
                rw (early, alive, absent, done) (i, before, (in_time, inr (alive, absent, done)))
            | inr waits ↦ rw (early, alive, absent, waits) (rest (in_time, alive, absent, waits))
          ]
        ]
      ]
]

later : (k poll : ℕ) → suc k * poll ≡ poll + k * poll
later k poll = omega arith

wait_from-Explained :
    (k poll : ℕ) (env : WaitEnv) (deadline i : ℕ)
    → ((j : ℕ) → env.now j + poll ≤ env.now (suc j))
    → AllWaiting env deadline i
    → deadline ≤ env.now i + k * poll
    → Explained env deadline (wait_from (suc k) env deadline i)
wait_from-Explained zero poll env deadline i ticks before far =
    round-Explained zero env deadline i before (λ waits. absurd (over waits.0 far))
  where
    over : env.now i < deadline → deadline ≤ env.now i + 0 * poll → ⊥
    over early far = absurd (omega arith)
wait_from-Explained (suc k) poll env deadline i ticks before far =
    round-Explained (suc k) env deadline i before (λ waits.
      wait_from-Explained k poll env deadline (suc i) ticks (before, waits)
        (reach (k * poll) (suc k * poll) (later k poll) far (ticks i)))
  where
    reach :
        (n m : ℕ)
        → m ≡ poll + n
        → deadline ≤ env.now i + m
        → env.now i + poll ≤ env.now (suc i)
        → deadline ≤ env.now (suc i) + n
    reach n m e far tick = ground arith

-- If the clock moves on by at least the poll interval from round to round, and the first round begins
-- not before the start, then the wait ends within as many rounds as poll intervals cover the timeout,
-- and one more. Its end is that of the first round that does not wait, all rounds before it having
-- begun before the deadline with the context not done and nothing found: a worker was found ready before
-- the deadline and was registered, or its registration failed, or the context was done before the look or
-- in the pause after one that found nothing, or the deadline has passed.
pub wait_ready-Explained :
    (k poll : ℕ) (env : WaitEnv) (started timeout : ℕ)
    → ((j : ℕ) → env.now j + poll ≤ env.now (suc j))
    → started ≤ env.now 0
    → timeout ≤ k * poll
    → Explained env (started + timeout) (wait_ready (suc k) env started timeout)
unfolding wait_ready
wait_ready-Explained k poll env started timeout ticks begun enough =
    wait_from-Explained k poll env (started + timeout) 0 ticks tt (covered (k * poll) enough)
  where
    covered : (n : ℕ) → timeout ≤ n → started + timeout ≤ env.now 0 + n
    covered n h = ground arith

-- A pod whose proxy answers 200 with a list of models is ready exactly if the list is not empty,
-- whichever model is wanted.
http_models_ok-any :
    (want : Str) (ids : List Str)
    → http_models_ok want (reply 200 (some ids)) ≡ (not (is_nil ids), none)
unfolding http_models_ok names_model
http_models_ok-any want [] = go (is_empty want)
  where
    go :
        (b : Bool)
        → ◌≡◌ {A = Bool × Option ProbeError}
            (if b then (false, none) else (false, none))
            (false, none)
    go true = refl
    go false = refl
http_models_ok-any want (id ∷ ids) = go (is_empty want) (names_model want (id ∷ ids))
  where
    go :
        (b c : Bool)
        → ◌≡◌ {A = Bool × Option ProbeError}
            (if b then (true, none) else if c then (true, none) else (true, none))
            (true, none)
    go true c = refl
    go false true = refl
    go false false = refl
