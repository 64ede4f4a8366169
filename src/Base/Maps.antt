-- ===== src/Base/Maps.antt =====
-- Go maps as association lists. A missing key reads as `none`, a write replaces or adds one
-- entry, and a deletion takes every entry of the key.
use mathlib.Core.Path.{◌≡◌, refl, ap}
use mathlib.Core.Bool.{Bool, true}
use mathlib.Core.Option.{Option, none, some}
use mathlib.Core.List.{List, [], ◌∷◌}
use native.Mathlib.Omega.{arith}
use Prim.Native.Nat.{ℕ}
use forge_labs.Base.Tests.{◌==◌, if◌then◌else◌}
use forge_labs.Base.Text.{Str, str_eq, str_eq_refl, str_eq→eq}

pub eq_self : (a : ℕ) → (a == a) ≡ true
eq_self a = ground arith

pub eq_of_test : (a b : ℕ) → (a == b) ≡ true → a ≡ b
eq_of_test a b h = ground arith

-- A type of map keys with its comparison.
pub record Key {ℓ} (K : Type ℓ) : Type ℓ where
  pub eqb : K → K → Bool
  pub eqb_refl : (a : K) → eqb a a ≡ true
  pub eqb→eq : (a b : K) → eqb a b ≡ true → a ≡ b

instance abbrev pub str_key : Key Str
str_key = record { eqb = str_eq; eqb_refl = str_eq_refl; eqb→eq = str_eq→eq }

instance abbrev pub nat_key : Key ℕ
nat_key = record { eqb = ◌==◌; eqb_refl = eq_self; eqb→eq = eq_of_test }

abbrev pub Dict : Type 0 → Type 0 → Type 0
Dict K V = List (K × V)

module _ {K : Type 0} ⦃k : Key K⦄ where
  pub eqb_sym : (a b : K) → k.eqb a b ≡ k.eqb b a
  eqb_sym a b = ground (arith, k.eqb→eq a b, k.eqb→eq b a, k.eqb_refl a, k.eqb_refl b)

module _ {K V : Type 0} ⦃k : Key K⦄ where
  unfoldable pub lookup : K → Dict K V → Option V
  lookup a [] = none
  lookup a ((b, v) ∷ m) = if k.eqb b a then some v else lookup a m

  unfoldable pub insert : K → V → Dict K V → Dict K V
  insert a v [] = (a, v) ∷ []
  insert a v ((b, w) ∷ m) = if k.eqb b a then (a, v) ∷ m else (b, w) ∷ insert a v m

  unfoldable pub delete : K → Dict K V → Dict K V
  delete a [] = []
  delete a ((b, w) ∷ m) = if k.eqb b a then delete a m else (b, w) ∷ delete a m

  pub lookup-insert :
      (a b : K) (v : V) (m : Dict K V)
      → lookup b (insert a v m) ≡ (if k.eqb a b then some v else lookup b m)
  unfolding lookup insert
  lookup-insert a b v [] = refl
  lookup-insert a b v ((c, w) ∷ m) = ground (
    arith,
    lookup-insert a b v m,
    k.eqb→eq c a,
    k.eqb→eq a b,
    k.eqb→eq c b,
    k.eqb_refl c,
    k.eqb_refl b,
    k.eqb_refl a,
  )

  -- Keys that the comparison takes for equal.
  pub lookup_same : (a b : K) (m : Dict K V) → k.eqb a b ≡ true → lookup a m ≡ lookup b m
  lookup_same a b m h = ap (λ c. lookup c m) (k.eqb→eq a b h)

  pub lookup-delete :
      (a b : K) (m : Dict K V) → lookup b (delete a m) ≡ (if k.eqb a b then none else lookup b m)
  unfolding lookup delete
  lookup-delete a b [] = ground arith
  lookup-delete a b ((c, w) ∷ m) = ground (
    arith,
    lookup-delete a b m,
    k.eqb→eq c a,
    k.eqb→eq a b,
    k.eqb→eq c b,
    k.eqb_refl c,
    k.eqb_refl b,
    k.eqb_refl a,
  )

  pub lookup-insert_self : (a : K) (v : V) (m : Dict K V) → lookup a (insert a v m) ≡ some v
  lookup-insert_self a v m = rw (lookup-insert a a v m, k.eqb_refl a)

-- Every value is changed.
abbrev pub map_values : {K V W : Type 0} → (V → W) → Dict K V → Dict K W
map_values g [] = []
map_values g ((a, v) ∷ m) = (a, g v) ∷ map_values g m

module _ {K V : Type 0} ⦃k : Key K⦄ where
  pub lookup-map_values :
      (g : V → V) (a : K) (m : Dict K V)
      → lookup a (map_values g m) ≡ (elim (lookup a m) [ none ↦ none | some v ↦ some (g v) ])
  unfolding lookup
  lookup-map_values g a [] = refl
  lookup-map_values g a ((b, v) ∷ m) = ground (arith, lookup-map_values g a m)
