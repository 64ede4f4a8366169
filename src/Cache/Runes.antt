-- ===== src/Cache/Runes.antt =====
-- How Go ranges over a string: its code points, by UTF-8, and U+FFFD for a byte that begins none.
use forge_labs.Base.{
  ◌≡◌, refl, ℕ, zero, suc, ◌+◌, ◌-◌, ◌*◌, Bool, ◌&&◌, List, [], ◌∷◌, leb, ltb, ◌==◌, if◌then◌else◌,
}

abbrev in_range : ℕ → ℕ → ℕ → Bool
in_range lo hi b = leb lo b && leb b hi

-- A code point, and the bytes that it takes beyond the first.
abbrev bad : ℕ × ℕ
bad = (0xFFFD, 0)

two : ℕ → List ℕ → ℕ × ℕ
two a [] = bad
two a (b ∷ _) = if in_range 0x80 0xBF b then ((a - 0xC0) * 64 + (b - 0x80), 1) else bad

three : ℕ → List ℕ → ℕ × ℕ
three a [] = bad
three a (b ∷ []) = bad
three a (b ∷ c ∷ _) =
    if in_range (if a == 0xE0 then 0xA0 else 0x80) (if a == 0xED then 0x9F else 0xBF) b
      && in_range 0x80 0xBF c
    then ((a - 0xE0) * 4096 + (b - 0x80) * 64 + (c - 0x80), 2)
    else bad

four : ℕ → List ℕ → ℕ × ℕ
four a [] = bad
four a (b ∷ []) = bad
four a (b ∷ c ∷ []) = bad
four a (b ∷ c ∷ d ∷ _) =
    if in_range (if a == 0xF0 then 0x90 else 0x80) (if a == 0xF4 then 0x8F else 0xBF) b
      && in_range 0x80 0xBF c
      && in_range 0x80 0xBF d
    then ((a - 0xF0) * 262144 + (b - 0x80) * 4096 + (c - 0x80) * 64 + (d - 0x80), 3)
    else bad

rune_at : ℕ → List ℕ → ℕ × ℕ
rune_at a rest =
    if ltb a 0x80
    then (a, 0)
    else if in_range 0xC2 0xDF a
    then two a rest
    else if in_range 0xE0 0xEF a
    then three a rest
    else if in_range 0xF0 0xF4 a
    then four a rest
    else bad

-- With the bytes of a code point that are still to be passed over.
runes_from : ℕ → List ℕ → List ℕ
runes_from skip [] = []
runes_from (suc skip) (a ∷ rest) = runes_from skip rest
runes_from zero (a ∷ rest) = let (r, more) = rune_at a rest in r ∷ runes_from more rest

unfoldable pub runes : List ℕ → List ℕ
unfolding runes_from rune_at two three four
runes s = runes_from 0 s

-- An e with an acute accent, and a byte that is no beginning.
accent : runes (0x63 ∷ 0xC3 ∷ 0xA9 ∷ 0xBF ∷ []) ≡ 0x63 ∷ 0xE9 ∷ 0xFFFD ∷ []
unfolding runes
accent = refl
