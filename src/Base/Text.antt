-- ===== src/Base/Text.antt =====
-- Go strings as sequences of bytes, and what the program uses of the package `strings`.
use Prim.Native.Nat.{ℕ}
use Prim.Native.Char.{code}
use Prim.Native.String.{String}
use mathlib.Core.Path.{◌≡◌, refl}
use mathlib.Core.Logic.{◌⊎◌, inl, inr}
use mathlib.Core.Bool.{Bool, true, false, ◌&&◌, ◌||◌}
use mathlib.Core.Option.{Option, none, some}
use mathlib.Core.List.{List, [], ◌∷◌}
use native.Mathlib.Omega.{arith}
use forge_labs.Base.Tests.{ltb, ◌==◌, if◌then◌else◌}

abbrev pub Str : Type 0
Str = List ℕ

-- The bytes of a literal, which is ASCII throughout the source.
abbrev pub bytes : String → Str
bytes String.[] = []
bytes (String.◌∷◌ c s) = code c ∷ bytes s

-- `a == b`
unfoldable pub str_eq : Str → Str → Bool
str_eq [] [] = true
str_eq [] (b ∷ t) = false
str_eq (a ∷ s) [] = false
str_eq (a ∷ s) (b ∷ t) = a == b && str_eq s t

-- `a < b`, byte by byte.
unfoldable pub str_lt : Str → Str → Bool
str_lt [] [] = false
str_lt [] (b ∷ t) = true
str_lt (a ∷ s) [] = false
str_lt (a ∷ s) (b ∷ t) = if a == b then str_lt s t else ltb a b

abbrev pub is_empty : Str → Bool
is_empty [] = true
is_empty (_ ∷ _) = false

-- `strings.HasPrefix(s, p)`, with the prefix first.
unfoldable pub has_prefix : Str → Str → Bool
has_prefix [] s = true
has_prefix (a ∷ p) [] = false
has_prefix (a ∷ p) (b ∷ s) = a == b && has_prefix p s

-- `strings.Contains(s, part)`, with the part first.
unfoldable pub has_part : Str → Str → Bool
has_part part [] = is_empty part
has_part part (a ∷ s) = let later = has_part part s in has_prefix part (a ∷ s) || later

-- `strings.Index(s, sep)` for a separator of one byte, with the two halves around it.
unfoldable pub cut : ℕ → Str → Option (Str × Str)
cut c [] = none
cut c (a ∷ s) =
    if a == c
    then some ([], s)
    else (elim (cut c s) [ none ↦ none | some (p, q) ↦ some (a ∷ p, q) ])

pub str_eq_refl : (s : Str) → str_eq s s ≡ true
unfolding str_eq
str_eq_refl [] = refl
str_eq_refl (a ∷ s) = ground (arith, str_eq_refl s)

pub str_eq→eq : (s t : Str) → str_eq s t ≡ true → s ≡ t
unfolding str_eq
str_eq→eq [] [] h = refl
str_eq→eq [] (b ∷ t) h = cc
str_eq→eq (a ∷ s) [] h = cc
str_eq→eq (a ∷ s) (b ∷ t) h = ground (arith, str_eq→eq s t)

pub str_eq_of_eq : (s t : Str) → s ≡ t → str_eq s t ≡ true
str_eq_of_eq s t e = rw e (str_eq_refl t)

pub str_lt_irrefl : (s : Str) → str_lt s s ≡ false
unfolding str_lt
str_lt_irrefl [] = refl
str_lt_irrefl (a ∷ s) = ground (arith, str_lt_irrefl s)

pub str_lt_trans : (s t u : Str) → str_lt s t ≡ true → str_lt t u ≡ true → str_lt s u ≡ true
unfolding str_lt
str_lt_trans s t [] h k = lt_empty t k
  where
    lt_empty : {P : Type 0} (t : Str) → str_lt t [] ≡ true → P
    lt_empty [] k = absurd (cc)
    lt_empty (b ∷ t) k = absurd (cc)
str_lt_trans [] t (c ∷ u) h k = refl
str_lt_trans (a ∷ s) [] (c ∷ u) h k = absurd (cc)
str_lt_trans (a ∷ s) (b ∷ t) (c ∷ u) h k = ground (arith, str_lt_trans s t u)

pub str_lt_total : (s t : Str) → (str_lt s t ≡ true) ⊎ (s ≡ t) ⊎ (str_lt t s ≡ true)
unfolding str_lt
str_lt_total [] [] = inr (inl refl)
str_lt_total [] (b ∷ t) = inl refl
str_lt_total (a ∷ s) [] = inr (inr refl)
str_lt_total (a ∷ s) (b ∷ t) = ground (arith, str_lt_total s t)

unfoldable pub is_member : List Str → Str → Bool
is_member [] a = false
is_member (b ∷ s) a = str_eq b a || is_member s a
