-- ===== src/Gateway/Handler/Slots.antt =====
-- The slot that admission takes, given back.
use forge_labs.Base.{
  ◌≡◌, refl, sym, ◌∙◌, ap, subst, arith, Bool, true, false, Option, none, some, List, [], ◌∷◌, ◌++◌,
  if◌then◌else◌, ℤ, pos, leb_ℤ, ◌+ℤ◌, ◌-ℤ◌, Str, str_eq, str_eq_refl, str_eq→eq, Dict, str_key,
  lookup, insert, lookup-insert,
}
use forge_labs.Routing.Inflight.{get, inc, dec, try_track}
use forge_labs.Gateway.Admission.{SelectedWorker, admit_from, admit_from_ranked}
use forge_labs.Gateway.Handler.{Handler, Handled, release}
use forge_labs.Gateway.Handler.Requests.{in_slot, with_slot}

-- No counter is negative.
abbrev pub IsNonneg : Option (Dict Str ℤ) → Type 0
IsNonneg none = Unit
IsNonneg (some m) = (id : Str) → leb_ℤ (pos 0) (get m id) ≡ true

-- The same counts of all workers.
abbrev pub SameCounts : Option (Dict Str ℤ) → Option (Dict Str ℤ) → Type 0
SameCounts none none = Unit
SameCounts (some m) (some m') = (id : Str) → get m' id ≡ get m id
SameCounts _ _ = ⊥

pub SameCounts-refl : (o : Option (Dict Str ℤ)) → SameCounts o o
SameCounts-refl none = tt
SameCounts-refl (some m) = λ id. refl

pub same_of_eq : (a b : Option (Dict Str ℤ)) → b ≡ a → SameCounts a b
same_of_eq a b e = subst (SameCounts a) (sym e) (SameCounts-refl a)

-- One more request is counted for the worker.
abbrev taken : Dict Str ℤ → Str → Dict Str ℤ
taken m id = insert id (get m id +ℤ pos 1) m

add_sub_one :
    (c : ℤ)
    → leb_ℤ (pos 0) c ≡ true
    → (if leb_ℤ (c +ℤ pos 1) (pos 0) then pos 0 else (c +ℤ pos 1) -ℤ pos 1) ≡ c
unfolding ◌+ℤ◌ ◌-ℤ◌
add_sub_one c h = ground arith

get-insert :
    (id a : Str) (c : ℤ) (m : Dict Str ℤ)
    → get (insert id c m) a ≡ (if str_eq id a then c else get m a)
unfolding get
get-insert id a c m = rw (lookup-insert id a c m, get) (go (str_eq id a))
  where
    go :
        (b : Bool)
        → (elim (if b then some c else lookup a m) [ none ↦ pos 0 | some x ↦ x ])
          ≡ (if b then c else (elim (lookup a m) [ none ↦ pos 0 | some x ↦ x ]))
    go true = refl
    go false = refl

get-taken : (m : Dict Str ℤ) (id : Str) → get (taken m id) id ≡ get m id +ℤ pos 1
get-taken m id = get-insert id id (get m id +ℤ pos 1) m ∙ rw (str_eq_refl id) refl

dec-taken :
    (m : Dict Str ℤ) (id : Str)
    → leb_ℤ (pos 0) (get m id) ≡ true
    → (a : Str) → get (dec (taken m id) id) a ≡ get m a
unfolding dec
dec-taken m id h a =
    ap (λ c. get (insert id (if leb_ℤ c (pos 0) then pos 0 else c -ℤ pos 1) (taken m id)) a)
      (get-taken m id)
    ∙ ap (λ c. get (insert id c (taken m id)) a) (add_sub_one (get m id) h)
    ∙ get-insert id a (get m id) (taken m id)
    ∙ go (str_eq id a) refl
  where
    go : (b : Bool) → str_eq id a ≡ b → (if b then get m id else get (taken m id) a) ≡ get m a
    go true e = ap (get m) (str_eq→eq id a e)
    go false e = get-insert id a (get m id +ℤ pos 1) m ∙ rw e refl

-- What `tryTrack` answers: a refusal, or counters with one more request of the worker.
abbrev Tracked : Dict Str ℤ → Str → Option (Dict Str ℤ) → Type 0
Tracked m id none = Unit
Tracked m id (some m') = m' ≡ taken m id

try_track-Tracked : (m : Dict Str ℤ) (id : Str) (limit : ℤ) → Tracked m id (try_track m id limit)
unfolding try_track inc
try_track-Tracked m id limit = go (leb_ℤ limit (pos 0)) (leb_ℤ limit (get m id))
  where
    go :
        (b c : Bool)
        → Tracked m id (if b then some (inc m id) else if c then none else some (taken m id))
    go true c = refl
    go false true = tt
    go false false = refl

-- What admission answers: a refusal, or counters with one more request of the first worker.
abbrev Taken : Dict Str ℤ → Option (List SelectedWorker × Dict Str ℤ) → Type 0
Taken m none = Unit
Taken m (some ([], m')) = ⊥
Taken m (some (w ∷ ws, m')) = m' ≡ taken m w.id

admit_from-Taken :
    (m : Dict Str ℤ) (limit : ℤ) (before ws : List SelectedWorker)
    → Taken m (admit_from m limit before ws)
unfolding admit_from
admit_from-Taken m limit before [] = tt
admit_from-Taken m limit before (w ∷ ws) =
    go (try_track m w.id limit) (try_track-Tracked m w.id limit)
      (admit_from-Taken m limit (before ++ w ∷ []) ws)
  where
    go :
        (o : Option (Dict Str ℤ))
        → Tracked m w.id o
        → Taken m (admit_from m limit (before ++ w ∷ []) ws)
        → Taken m (elim o [
          | none ↦ admit_from m limit (before ++ w ∷ []) ws
          | some m' ↦ some (w ∷ (before ++ ws), m')
        ])
    go none t later = later
    go (some m') t later = t

-- The slot that admission takes, given back.
abbrev Back : Option (Dict Str ℤ) → Option (List SelectedWorker × Option (Dict Str ℤ)) → Type 0
Back counters none = Unit
Back counters (some (ws, counters')) = SameCounts counters (release ws counters')

admit_from_ranked-Back :
    (counters : Option (Dict Str ℤ)) (limit : ℤ) (ws : List SelectedWorker)
    → IsNonneg counters
    → Back counters (admit_from_ranked counters limit ws)
unfolding admit_from_ranked
admit_from_ranked-Back counters limit [] h = tt
admit_from_ranked-Back none limit (w ∷ ws) h = tt
admit_from_ranked-Back (some m) limit (w ∷ ws) h =
    go (admit_from m limit [] (w ∷ ws)) (admit_from-Taken m limit [] (w ∷ ws))
  where
    go :
        (o : Option (List SelectedWorker × Dict Str ℤ))
        → Taken m o
        → Back (some m) (elim o [ none ↦ none | some (ordered, m') ↦ some (ordered, some m') ])
    go none t = tt
    go (some ([], m')) t = absurd t
    go (some (v ∷ vs, m')) t = λ id. ap (λ d. get (dec d v.id) id) t ∙ dec-taken m v.id (h v.id) id

module _ {F E : Type 0} where
  in_slot-SameCounts :
      (h : Handler F) (run : Handler F → List SelectedWorker → Handled F E)
      (o : Option (List SelectedWorker × Option (Dict Str ℤ)))
      → ((h' : Handler F) (vs : List SelectedWorker) → ((run h' vs).handler).inflight ≡ h'.inflight)
      → Back h.inflight o
      → SameCounts h.inflight ((in_slot h run o).handler).inflight
  unfolding in_slot
  in_slot-SameCounts h run none keeps t = SameCounts-refl h.inflight
  in_slot-SameCounts h run (some (ordered, counters)) keeps t =
      subst (λ c. SameCounts h.inflight (release ordered c))
        (sym (keeps (record h { inflight = counters }) ordered)) t

  pub with_slot-SameCounts :
      (h : Handler F) (ws : List SelectedWorker)
      (run : Handler F → List SelectedWorker → Handled F E)
      → ((h' : Handler F) (vs : List SelectedWorker) → ((run h' vs).handler).inflight ≡ h'.inflight)
      → IsNonneg h.inflight
      → SameCounts h.inflight ((with_slot h ws run).handler).inflight
  unfolding with_slot
  with_slot-SameCounts h ws run keeps n =
      in_slot-SameCounts h run (admit_from_ranked h.inflight h.admission_limit ws) keeps
        (admit_from_ranked-Back h.inflight h.admission_limit ws n)
