-- ===== src/Gateway/Translate/Names.antt =====
-- `ParseModelID` takes apart the names that the control plane builds.
use forge_labs.Base.{
  ◌≡◌, refl, ap, false, none, some, [], ◌∷◌, ◌++◌, arith, is_empty, cut, Str, bytes,
}
use forge_labs.Routing.Snapshot.{full_name}
use forge_labs.Gateway.Translate.{trim_space, parse_model_id}

cut-append :
    (base adapter : Str)
    → cut b'#' base ≡ none
    → cut b'#' (base ++ bytes "#" ++ adapter) ≡ some (base, adapter)
unfolding cut
cut-append [] adapter h = refl
cut-append (c ∷ base) adapter h = ground (arith, cut-append base adapter)

is_empty-append : (base s : Str) → is_empty base ≡ false → is_empty (base ++ s) ≡ false
is_empty-append [] s h = absurd (cc)
is_empty-append (c ∷ base) s h = refl

parse_model_id-cut :
    (s base adapter : Str)
    → trim_space s ≡ s
    → is_empty s ≡ false
    → cut b'#' s ≡ some (base, adapter)
    → parse_model_id s ≡ (base, adapter)
unfolding parse_model_id
parse_model_id-cut s base adapter t e h = rw (t, parse_model_id, e, h) refl

-- If the base is not empty and has no `#`, and the name has no white space at its ends, parsing the
-- name of a base and an adapter gives the two back.
pub parse_model_id-full_name :
    (base adapter : Str)
    → is_empty base ≡ false
    → cut b'#' base ≡ none
    → trim_space (full_name base adapter) ≡ full_name base adapter
    → parse_model_id (full_name base adapter) ≡ (base, adapter)
unfolding parse_model_id
parse_model_id-full_name base [] e h t = rw (t, parse_model_id, e, h) (ap (λ s. (s, [])) t)
parse_model_id-full_name base (a ∷ adapter) e h t =
    parse_model_id-cut (full_name base (a ∷ adapter)) base (a ∷ adapter) t
      (is_empty-append (base ++ bytes "#") (a ∷ adapter) (is_empty-append base (bytes "#") e))
      (cut-append base (a ∷ adapter) h)
