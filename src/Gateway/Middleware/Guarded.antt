-- ===== src/Gateway/Middleware/Guarded.antt =====
-- Who passes the middleware, and what it leaves of the counters.
use forge_labs.Base.{
  ◌≡◌, refl, ap, ◌∙◌, arith, ◌⊎◌, inl, inr, Bool, true, false, Option, none, some, if◌then◌else◌,
  Bool-cases, ℤ, pos, negsuc, ◌+ℤ◌, +ℤ_parts, eq_of_parts, leb_ℤ, ltb_ℤ, Str, str_eq, str_eq→eq,
  str_eq_refl, lookup, lookup-insert, str_key,
}
use forge_labs.Gateway.Keys.{ClientIdentity, KeyStore, lookup_key, is_required}
use forge_labs.Gateway.Middleware.{
  ConcurrencyLimiter, count_of, limit_of, set_count, acquire, release_place, HttpRequest,
  extract_api_key, is_exempt, Served, aborted, passed, with_place, with_client, guard_request,
  serve,
}

count-set_count :
    (l : ConcurrencyLimiter) (client id : Str) (n : ℤ)
    → count_of (set_count client n l) id ≡ (if str_eq client id then n else count_of l id)
unfolding count_of
count-set_count l client id n =
    ap (λ o. elim o as (λ _. ℤ) [ none ↦ pos 0 | some m ↦ m ]) (lookup-insert client id n l.by)
    ∙ go (str_eq client id)
  where
    go :
        (b : Bool)
        → (elim (if b then some n else lookup id l.by) as (λ _. ℤ) [ none ↦ pos 0 | some m ↦ m ])
          ≡ (if b then n else elim (lookup id l.by) as (λ _. ℤ) [ none ↦ pos 0 | some m ↦ m ])
    go true = refl
    go false = refl

-- The counter of every client is as it was.
abbrev pub SamePlaces : ConcurrencyLimiter → ConcurrencyLimiter → Type 0
SamePlaces l l' = (id : Str) → count_of l' id ≡ count_of l id

-- Why a request that a key is asked of is answered as it is: it passes with the client of its key, of
-- which a place was free; it is refused with 401 if there is no such client, and with 429 if the client
-- has as many requests as it may have.
abbrev pub Decided : {R : Type 0} → ConcurrencyLimiter → Option ClientIdentity → Served R → Type 0
Decided l found (passed none r) = ⊥
Decided l found (passed (some id) r) =
    (found ≡ some id) × (ltb_ℤ (count_of l id.client_id) (limit_of l id.max_concurrent) ≡ true)
Decided l found (aborted status) =
    ((status ≡ 401) × (found ≡ none))
    ⊎ ((status ≡ 429)
        × ((id : ClientIdentity) × (found ≡ some id)
            × (leb_ℤ (limit_of l id.max_concurrent) (count_of l id.client_id) ≡ true)))

back_to : (n : ℤ) → (n +ℤ pos 1) +ℤ negsuc 0 ≡ n
back_to n = ground (
  arith,
  +ℤ_parts n (pos 1),
  +ℤ_parts (n +ℤ pos 1) (negsuc 0),
  eq_of_parts ((n +ℤ pos 1) +ℤ negsuc 0) n,
)

-- A counter that is written as it was.
written-SamePlaces :
    (l : ConcurrencyLimiter) (client : Str) → SamePlaces l (set_count client (count_of l client) l)
written-SamePlaces l client id = elim (Bool-cases (str_eq client id)) [
  | inl e ↦
      count-set_count l client id (count_of l client)
      ∙ rw e (ap (count_of l) (str_eq→eq client id e))
  | inr e ↦ count-set_count l client id (count_of l client) ∙ rw e refl
]

-- A counter that was raised is lowered again.
lowered-SamePlaces :
    (l l' : ConcurrencyLimiter) (client : Str)
    → SamePlaces (set_count client (count_of l client +ℤ pos 1) l) l'
    → SamePlaces l (release_place l' client)
unfolding release_place
lowered-SamePlaces l l' client same id =
    let n = count_of l client +ℤ pos 1 in
    count-set_count l' client id (count_of l' client +ℤ negsuc 0)
    ∙ (elim (Bool-cases (str_eq client id)) [
      | inl e ↦ rw e (
          ap (λ k. k +ℤ negsuc 0)
            (same client ∙ count-set_count l client client n ∙ rw (str_eq_refl client) refl)
          ∙ back_to (count_of l client)
          ∙ ap (count_of l) (str_eq→eq client id e))
      | inr e ↦ rw e (same id ∙ count-set_count l client id n ∙ rw e refl)
    ])

module _ {R : Type 0} (next : Option ClientIdentity → ConcurrencyLimiter → ConcurrencyLimiter × R)
    (kept : (c : Option ClientIdentity) (l : ConcurrencyLimiter) → SamePlaces l (next c l).0) where
  abbrev Fair : ConcurrencyLimiter → Option ClientIdentity → ConcurrencyLimiter × Served R → Type 0
  Fair l found r = Decided l found r.1 × SamePlaces l r.0

  with_client-Fair :
      (l : ConcurrencyLimiter) (found : Option ClientIdentity)
      → Fair l found (with_client next l found)
  unfolding with_client acquire with_place
  with_client-Fair l none = (inl (refl, refl), λ id. refl)
  with_client-Fair l (some id) =
      elim (Bool-cases (leb_ℤ (limit_of l id.max_concurrent) (count_of l id.client_id))) [
        | inl full ↦ rw full (inr (refl, (id, refl, full)), written-SamePlaces l id.client_id)
        | inr free ↦ rw free (
          (refl, ground arith),
          lowered-SamePlaces l _ id.client_id
              (kept (some id) (set_count id.client_id (count_of l id.client_id +ℤ pos 1) l)),
        )
      ]

  -- Where keys are required, on a path that is not exempt: the rest of the chain runs only with the
  -- client of the request's key, and only if that client had fewer requests than it may have; the
  -- response is 401 only if no client has the key, and 429 only if the client had as many. If the rest
  -- of the chain leaves the counters as they are, then so does the middleware.
  pub serve-Guarded :
      (hash : Str → Str) (s : KeyStore) (req : HttpRequest) (l : ConcurrencyLimiter)
      → is_required s ≡ true
      → is_exempt req ≡ false
      → Decided l (lookup_key hash s (extract_api_key req)) (serve next hash (some s) req l).1
        × SamePlaces l (serve next hash (some s) req l).0
  unfolding serve guard_request
  serve-Guarded hash s req l required guarded =
      rw (guarded, required) (with_client-Fair l (lookup_key hash s (extract_api_key req)))
