-- ===== src/Scheduler/Models/Identity.antt =====
-- What `servesModel` decides, by the base and the adapter that a model's name consists of.
use forge_labs.Base.{
  ◌≡◌, refl, ap, Bool, true, false, ◌&&◌, ◌||◌, none, some, List, [], ◌∷◌, ◌++◌, is_empty, arith,
  if◌then◌else◌, Bool-cases, inl, inr, Option-cases, Str, bytes, str_eq, str_eq_refl, str_eq→eq,
  has_prefix, cut,
}
use forge_labs.Routing.Snapshot.{full_name}
use forge_labs.Scheduler.Models.{split_model, serves_one, serves_model}

-- A worker's model serves a request if it has the same base and, where both name an adapter, the
-- same adapter. A name without `#` names no adapter.
abbrev pub is_match : Str → Str → Str → Bool
is_match base adapter m = elim (cut b'#' m) [
  | none ↦ str_eq m base
  | some (mb, ma) ↦ str_eq mb base && (is_empty adapter || str_eq ma adapter)
]

abbrev pub any_matches : Str → Str → List Str → Bool
any_matches base adapter [] = false
any_matches base adapter (m ∷ ms) = is_match base adapter m || any_matches base adapter ms

-- A base without `#` is what stands before the first `#` of a full name.
cut-full :
    (base adapter : Str)
    → cut b'#' base ≡ none
    → cut b'#' (base ++ bytes "#" ++ adapter) ≡ some (base, adapter)
unfolding cut
cut-full [] adapter h = refl
cut-full (c ∷ base) adapter h = ground (arith, cut-full base adapter)

cut_prefix :
    (base m : Str)
    → cut b'#' base ≡ none
    → has_prefix (base ++ bytes "#") m ≡ true
    → (rest : Str) × (cut b'#' m ≡ some (base, rest))
unfolding cut has_prefix
cut_prefix [] [] h p = absurd (cc)
cut_prefix [] (d ∷ m) h p = (m, ground arith)
cut_prefix (c ∷ base) [] h p = absurd (cc)
cut_prefix (c ∷ base) (d ∷ m) h p =
    let (rest, e) = cut_prefix base m (ground arith) (ground arith) in (rest, ground arith)

split_some : (m : Str) {p : Str × Str} → cut b'#' m ≡ some p → split_model m ≡ some p
unfolding split_model cut
split_some [] h = absurd (cc)
split_some (c ∷ m) h = rw (h, split_model)

split_none :
    (m : Str) → cut b'#' m ≡ none → split_model m ≡ (if is_empty m then none else some (m, []))
unfolding split_model
split_none [] h = refl
split_none (c ∷ m) h = rw (h, split_model)

base_of_eq : (base m : Str) → cut b'#' base ≡ none → str_eq m base ≡ true → cut b'#' m ≡ none
base_of_eq base m h e = rw (str_eq→eq m base e) h

full_of_eq :
    (base adapter m : Str)
    → cut b'#' base ≡ none
    → str_eq m (base ++ bytes "#" ++ adapter) ≡ true
    → cut b'#' m ≡ some (base, adapter)
full_of_eq base adapter m h e = rw (str_eq→eq m _ e) (cut-full base adapter h)

prefix_plain :
    (base m : Str)
    → cut b'#' base ≡ none
    → cut b'#' m ≡ none
    → has_prefix (base ++ bytes "#") m ≡ false
prefix_plain base m h e = elim (Bool-cases (has_prefix (base ++ bytes "#") m)) [
  | inl p ↦ let (rest, found) = cut_prefix base m h p in absurd (cc)
  | inr p ↦ p
]

prefix_named :
    (base m : Str) {mb ma : Str}
    → cut b'#' base ≡ none
    → cut b'#' m ≡ some (mb, ma)
    → has_prefix (base ++ bytes "#") m ≡ true
    → mb ≡ base
prefix_named base m h e p = let (rest, found) = cut_prefix base m h p in ground arith

serves_plain :
    (base adapter m : Str)
    → cut b'#' base ≡ none
    → cut b'#' m ≡ none
    → serves_one (full_name base adapter) base adapter m ≡ str_eq m base
unfolding serves_one
serves_plain base adapter m h e =
    ground (arith, split_none m e, full_of_eq base adapter m h, prefix_plain base m h e)

serves_named :
    (base adapter m mb ma : Str)
    → cut b'#' base ≡ none
    → cut b'#' m ≡ some (mb, ma)
    → serves_one (full_name base adapter) base adapter m
      ≡ (str_eq mb base && (is_empty adapter || str_eq ma adapter))
unfolding serves_one
serves_named base adapter m mb ma h e = ground (
  arith,
  split_some m e,
  base_of_eq base m h,
  full_of_eq base adapter m h,
  str_eq_refl base,
  str_eq_refl adapter,
  prefix_named base m h e,
)

-- For a base without `#`, `servesModel` finds exactly the workers one of whose models has that
-- base and, where the request and the model both name an adapter, the same adapter.
pub serves_model-any_matches :
    (ms : List Str) (base adapter : Str)
    → cut b'#' base ≡ none
    → serves_model ms (full_name base adapter) base adapter ≡ any_matches base adapter ms
unfolding serves_model
serves_model-any_matches [] base adapter h = refl
serves_model-any_matches (m ∷ ms) base adapter h =
    rw serves_one-is_match
      (ap (λ t. is_match base adapter m || t) (serves_model-any_matches ms base adapter h))
  where
    serves_one-is_match :
        serves_one (full_name base adapter) base adapter m ≡ is_match base adapter m
    serves_one-is_match = elim (Option-cases (cut b'#' m)) [
      | inl e ↦ rw (e, is_match) (serves_plain base adapter m h e)
      | inr ((mb, ma), e) ↦ rw (e, is_match) (serves_named base adapter m mb ma h e)
    ]
