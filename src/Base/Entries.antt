-- ===== src/Base/Entries.antt =====
-- Maps in which every key stands once, as in every Go map.
use mathlib.Core.Path.{◌≡◌, refl, sym, ◌∙◌}
use mathlib.Core.Bool.{Bool, true, false}
use mathlib.Core.Option.{none}
use mathlib.Core.List.{[], ◌∷◌}
use native.Mathlib.Omega.{arith}
use forge_labs.Base.Tests.{if◌then◌else◌}
use forge_labs.Base.Text.{Str, str_eq, str_eq→eq, str_eq_refl}
use forge_labs.Base.Maps.{Dict, str_key, lookup, insert, lookup-insert, lookup_same}

module _ {V : Type 0} where
  abbrev pub Distinct : Dict Str V → Type 0
  Distinct [] = Unit
  Distinct ((h, v) ∷ d) = (lookup h d ≡ none) × Distinct d

  pub insert-Distinct : (h : Str) (v : V) (d : Dict Str V) → Distinct d → Distinct (insert h v d)
  unfolding lookup insert
  insert-Distinct h v [] t = (refl, tt)
  insert-Distinct h v ((k, w) ∷ d) (n, t) = go (insert-Distinct h v d t) (str_eq k h) refl
    where
      go :
          Distinct (insert h v d)
          → (b : Bool) → str_eq k h ≡ b
          → Distinct (if b then (h, v) ∷ d else (k, w) ∷ insert h v d)
      go ih true e = (sym (lookup_same k h d e) ∙ n, t)
      go ih false e =
          (ground (arith, lookup-insert h k v d, str_eq→eq h k, str_eq_refl k, e, n), ih)
