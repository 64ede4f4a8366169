-- ===== src/Gateway/Admission/Order.antt =====
-- Which worker is admitted, and in which order the workers are tried.
use forge_labs.Base.{
  ◌≡◌, refl, sym, subst, ◌∙◌, ap, true, false, Option, none, some, List, [], ◌∷◌, ◌++◌, All, leb_ℤ,
  ℤ, pos, ◌+ℤ◌, Str, Dict, insert, str_key, Bool-cases, inl, inr,
}
use forge_labs.Routing.Inflight.{get, try_track}
use forge_labs.Gateway.Admission.{SelectedWorker, admit_from, admit_from_ranked}

-- A worker without a free slot.
abbrev pub IsFull : Dict Str ℤ → ℤ → SelectedWorker → Type 0
IsFull m limit w = leb_ℤ limit (get m w.id) ≡ true

-- The first worker with a free slot, those before it, those after it, and the counters with one
-- slot taken; or the workers, if all are full.
pub data Admitted (m : Dict Str ℤ) (limit : ℤ) (ws : List SelectedWorker)
    : Option (List SelectedWorker × Option (Dict Str ℤ)) → Type 0 where
  refused : All (IsFull m limit) ws → Admitted m limit ws none
  admitted :
      (before : List SelectedWorker) (w : SelectedWorker) (after : List SelectedWorker)
      → ws ≡ before ++ w ∷ after
      → All (IsFull m limit) before
      → leb_ℤ limit (get m w.id) ≡ false
      → Admitted m limit ws
          (some (w ∷ (before ++ after), some (insert w.id (get m w.id +ℤ pos 1) m)))

All-snoc :
    (P : SelectedWorker → Type 0) (xs : List SelectedWorker) (x : SelectedWorker)
    → All P xs
    → P x
    → All P (xs ++ x ∷ [])
All-snoc P [] x h p = (p, tt)
All-snoc P (y ∷ xs) x (q, h) p = (q, All-snoc P xs x h p)

snoc-append :
    (xs ys : List SelectedWorker) (y : SelectedWorker) → (xs ++ y ∷ []) ++ ys ≡ xs ++ y ∷ ys
snoc-append [] ys y = refl
snoc-append (x ∷ xs) ys y = ap (λ l. x ∷ l) (snoc-append xs ys y)

append_nil : (xs : List SelectedWorker) → xs ++ [] ≡ xs
append_nil [] = refl
append_nil (x ∷ xs) = ap (λ l. x ∷ l) (append_nil xs)

-- The result of the loop as that of the function.
abbrev with_counters :
    Option (List SelectedWorker × Dict Str ℤ) → Option (List SelectedWorker × Option (Dict Str ℤ))
with_counters none = none
with_counters (some (ordered, m')) = some (ordered, some m')

try_track-full :
    (m : Dict Str ℤ) (id : Str) (limit : ℤ)
    → leb_ℤ limit (pos 0) ≡ false
    → leb_ℤ limit (get m id) ≡ true
    → try_track m id limit ≡ none
unfolding try_track
try_track-full m id limit p full = rw (p, full) refl

try_track-free :
    (m : Dict Str ℤ) (id : Str) (limit : ℤ)
    → leb_ℤ limit (pos 0) ≡ false
    → leb_ℤ limit (get m id) ≡ false
    → try_track m id limit ≡ some (insert id (get m id +ℤ pos 1) m)
unfolding try_track
try_track-free m id limit p free = rw (p, free) refl

admit_from-Admitted :
    (m : Dict Str ℤ) (limit : ℤ) (ws before rest : List SelectedWorker)
    → leb_ℤ limit (pos 0) ≡ false
    → ws ≡ before ++ rest
    → All (IsFull m limit) before
    → Admitted m limit ws (with_counters (admit_from m limit before rest))
unfolding admit_from
admit_from-Admitted m limit ws before [] p e h =
    refused (subst (All (IsFull m limit)) (sym (e ∙ append_nil before)) h)
admit_from-Admitted m limit ws before (w ∷ rest) p e h =
    elim (Bool-cases (leb_ℤ limit (get m w.id))) [
      | inl full ↦
          rw (try_track-full m w.id limit p full, admit_from)
            (admit_from-Admitted m limit ws (before ++ w ∷ []) rest p
              (e ∙ sym (snoc-append before rest w)) (All-snoc (IsFull m limit) before w h full))
      | inr free ↦
          rw (try_track-free m w.id limit p free, admit_from) (admitted before w rest e h free)
    ]

-- With a positive limit the first worker with a free slot is admitted: it takes one slot and comes
-- first, and the others follow in their order; if no worker has a free slot, nothing is admitted.
pub admit_from_ranked-Admitted :
    (m : Dict Str ℤ) (limit : ℤ) (ws : List SelectedWorker)
    → leb_ℤ limit (pos 0) ≡ false
    → Admitted m limit ws (admit_from_ranked (some m) limit ws)
unfolding admit_from_ranked
admit_from_ranked-Admitted m limit [] p = refused tt
admit_from_ranked-Admitted m limit (w ∷ ws) p =
    subst (Admitted m limit (w ∷ ws)) (sym (same (admit_from m limit [] (w ∷ ws))))
      (admit_from-Admitted m limit (w ∷ ws) [] (w ∷ ws) p refl tt)
  where
    same :
        (o : Option (List SelectedWorker × Dict Str ℤ))
        → ◌≡◌ {A = Option (List SelectedWorker × Option (Dict Str ℤ))}
            (elim o [ none ↦ none | some (ordered, m') ↦ some (ordered, some m') ])
            (with_counters o)
    same none = refl
    same (some r) = refl
