-- ===== src/Cache/Blocks/Chunks.antt =====
-- How `ChunkTokens` cuts.
use mathlib.Core.List.{flatten}
use native.Mathlib.Nat.{suc-mul}
use forge_labs.Base.{
  take-append-drop, length-drop, length-take, take-append, drop-append, ℕ, zero, suc, ◌*◌, ◌≤◌, ◌<◌,
  ◌≡◌, ◌≢◌, refl, ap, List, [], ◌∷◌, ◌++◌, arith, length, take, drop, length-append, ℤ,
}
use forge_labs.Cache.Blocks.{chunks_of, block_size, chunk_tokens}

module _ {ℓ} {A : Type ℓ} where
  -- Chunks of a size: all are full but the last, which has a token at least.
  abbrev pub IsCut : ℕ → List (List A) → Type 0
  IsCut size [] = Unit
  IsCut size (c ∷ []) = (0 < length c) × (length c ≤ size)
  IsCut size (c ∷ d ∷ cs) = (length c ≡ size) × IsCut size (d ∷ cs)

  flatten-chunks_of :
      (fuel size : ℕ) (ts : List A)
      → 0 < size
      → length ts ≤ fuel
      → flatten (chunks_of fuel size ts) ≡ ts
  unfolding chunks_of flatten
  flatten-chunks_of zero size [] p h = refl
  flatten-chunks_of zero size (t ∷ ts) p h = absurd (omega arith)
  flatten-chunks_of (suc fuel) size [] p h = refl
  flatten-chunks_of (suc fuel) size (t ∷ ts) p h =
      rw
        (flatten-chunks_of fuel size (drop size (t ∷ ts)) p
          (omega (arith, length-drop size (t ∷ ts))))
        (take-append-drop size (t ∷ ts))

  IsCut-cons :
      (size : ℕ) (t : A) (ts : List A) (cs : List (List A))
      → 0 < size
      → (cs ≢ [] → size < length (t ∷ ts))
      → IsCut size cs
      → IsCut size (take size (t ∷ ts) ∷ cs)
  IsCut-cons size t ts [] p h k = omega (arith, length-take size (t ∷ ts))
  IsCut-cons size t ts (c ∷ cs) p h k =
      let long = h (λ e. cc) in (omega (arith, length-take size (t ∷ ts)), k)

  chunks_of-ne-nil : (fuel size : ℕ) (ts : List A) → chunks_of fuel size ts ≢ [] → 0 < length ts
  unfolding chunks_of
  chunks_of-ne-nil zero size ts h = absurd (h refl)
  chunks_of-ne-nil (suc fuel) size [] h = absurd (h refl)
  chunks_of-ne-nil (suc fuel) size (t ∷ ts) h = omega arith

  chunks_of-IsCut : (fuel size : ℕ) (ts : List A) → 0 < size → IsCut size (chunks_of fuel size ts)
  unfolding chunks_of
  chunks_of-IsCut zero size ts p = tt
  chunks_of-IsCut (suc fuel) size [] p = tt
  chunks_of-IsCut (suc fuel) size (t ∷ ts) p =
      IsCut-cons size t ts (chunks_of fuel size (drop size (t ∷ ts))) p
        (λ ne.
          let q = chunks_of-ne-nil fuel size (drop size (t ∷ ts)) ne in
          omega (arith, q, length-drop size (t ∷ ts)))
        (chunks_of-IsCut fuel size (drop size (t ∷ ts)) p)

pub block_size_pos : (n : ℤ) → 0 < block_size n
block_size_pos n = ground arith

-- The chunks put together are the tokens, and all chunks have the block size but the last, which
-- is not empty and not larger.
pub chunk_tokens_lem :
    (ts : List ℕ) (n : ℤ)
    → (flatten (chunk_tokens ts n) ≡ ts) × IsCut (block_size n) (chunk_tokens ts n)
unfolding chunk_tokens
chunk_tokens_lem ts n = (
  flatten-chunks_of (length ts) (block_size n) ts (block_size_pos n) (omega arith),
  chunks_of-IsCut (length ts) (block_size n) ts (block_size_pos n),
)

-- More fuel than needed changes nothing.
chunks_of_fuel {ℓ} :
    {A : Type ℓ} (f g size : ℕ) (ts : List A)
    → 0 < size
    → length ts ≤ f
    → length ts ≤ g
    → chunks_of f size ts ≡ chunks_of g size ts
unfolding chunks_of
chunks_of_fuel zero zero size ts p h k = refl
chunks_of_fuel zero (suc g) size [] p h k = refl
chunks_of_fuel zero (suc g) size (t ∷ ts) p h k = absurd (omega arith)
chunks_of_fuel (suc f) zero size [] p h k = refl
chunks_of_fuel (suc f) zero size (t ∷ ts) p h k = absurd (omega arith)
chunks_of_fuel (suc f) (suc g) size [] p h k = refl
chunks_of_fuel (suc f) (suc g) size (t ∷ ts) p h k =
    ap (λ l. take size (t ∷ ts) ∷ l)
      (chunks_of_fuel f g size (drop size (t ∷ ts)) p (omega (arith, length-drop size (t ∷ ts)))
        (omega (arith, length-drop size (t ∷ ts))))

-- Tokens that fill `k` chunks are cut apart from those that follow.
pub chunks_of-append {ℓ} :
    {A : Type ℓ} (k f size : ℕ) (xs ys : List A)
    → 0 < size
    → length xs ≡ k * size
    → length (xs ++ ys) ≤ f
    → chunks_of f size (xs ++ ys) ≡ chunks_of (length xs) size xs ++ chunks_of (length ys) size ys
unfolding chunks_of
chunks_of-append zero f size [] ys p e h = chunks_of_fuel f (length ys) size ys p h (omega arith)
chunks_of-append zero f size (x ∷ xs) ys p e h = absurd (omega arith)
chunks_of-append (suc k) f size [] ys p e h = absurd (omega (arith, suc-mul k size))
chunks_of-append (suc k) zero size (x ∷ xs) ys p e h = absurd (omega arith)
chunks_of-append (suc k) (suc f) size (x ∷ xs) ys p e h =
    let z = x ∷ xs in
    let d = drop size z in
    let grow = suc-mul k size in
    let le : size ≤ length z = omega (arith, grow) in
    let cut : length d ≡ k * size = omega (arith, grow, length-drop size z) in
    let total = length-append z ys in
    let total' = length-append d ys in
    let fits : length (d ++ ys) ≤ f = omega (arith, total, total', length-drop size z) in
    let held : length d ≤ length xs = omega (arith, length-drop size z) in
    rw
      (
        take-append size z ys le,
        drop-append size z ys le,
        chunks_of-append k f size d ys p cut fits,
        chunks_of_fuel (length d) (length xs) size d p (omega arith) held,
      )
      refl
