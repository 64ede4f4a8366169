-- ===== src/Cache/Blocks/Prefix.antt =====
-- Prompts that begin alike have the same first keys, and are found in the caches.
use forge_labs.Base.{
  ℕ, suc, ◌+◌, ◌*◌, ◌≤◌, ◌≡◌, refl, ap, true, List, [], ◌∷◌, ◌++◌, All, arith, length, is_some,
  Option-cases, inl, inr, ℤ, Str, Dict, lookup, nat_key, Float,
}
use forge_labs.Cache.Blocks.{
  chunks_of, block_size, chunk_tokens, block_key, hash_chunks, hash_blocks, add_block, prefix_from,
  longest_consecutive_prefix,
}
use forge_labs.Cache.Blocks.Chunks.{chunks_of-append, block_size_pos}

hash_chunks-append :
    (adapter : Str) (parent : ℕ) (cs ds : List (List ℕ))
    → (more : List ℕ) × (hash_chunks adapter parent (cs ++ ds)
        ≡ hash_chunks adapter parent cs ++ more)
unfolding hash_chunks
hash_chunks-append adapter parent [] ds = (hash_chunks adapter parent ds, refl)
hash_chunks-append adapter parent (c ∷ cs) ds =
    let (more, e) = hash_chunks-append adapter (block_key adapter parent c) cs ds in
    (more, ap (λ l. block_key adapter parent c ∷ l) e)

-- If the tokens fill a number of blocks exactly, the keys of any longer sequence that begins with
-- them begin with their keys.
pub hash_blocks-append :
    (xs ys : List ℕ) (n : ℤ) (k : ℕ) (adapter : Str)
    → length xs ≡ k * block_size n
    → (more : List ℕ) × (hash_blocks (xs ++ ys) n adapter ≡ hash_blocks xs n adapter ++ more)
unfolding hash_blocks chunk_tokens
hash_blocks-append xs ys n k adapter e =
    rw
      (chunks_of-append k (length (xs ++ ys)) (block_size n) xs ys (block_size_pos n) e
        (omega arith))
      (hash_chunks-append adapter 0 (chunks_of (length xs) (block_size n) xs)
        (chunks_of (length ys) (block_size n) ys))

module _ {F : Type 0} ⦃f : Float F⦄ where
  abbrev pub HeldIn : Dict ℕ F → List ℕ → Type 0
  HeldIn have hs = All (λ h. is_some (lookup h have) ≡ true) hs

  prefix_from-grows :
      (want : List ℕ) (have : Dict ℕ F) (blocks : ℕ) (score : F)
      → blocks ≤ (prefix_from blocks score want have).0
  unfolding prefix_from
  prefix_from-grows [] have blocks score = omega arith
  prefix_from-grows (h ∷ want) have blocks score = elim (Option-cases (lookup h have)) [
    | inl e ↦ rw (e, prefix_from) (omega arith)
    | inr (w, e) ↦
        let rest = prefix_from-grows want have (suc blocks) (add_block score w) in
        rw (e, prefix_from) (omega arith)
  ]

  prefix_from-held :
      (want more : List ℕ) (have : Dict ℕ F) (blocks : ℕ) (score : F)
      → HeldIn have want
      → blocks + length want ≤ (prefix_from blocks score (want ++ more) have).0
  unfolding prefix_from
  prefix_from-held [] more have blocks score t =
      let le = prefix_from-grows more have blocks score in omega arith
  prefix_from-held (h ∷ want) more have blocks score (s, t) = elim (Option-cases (lookup h have)) [
    | inl e ↦ absurd (cc)
    | inr (w, e) ↦
        let rest = prefix_from-held want more have (suc blocks) (add_block score w) t in
        rw (e, prefix_from) (omega arith)
  ]

  -- A worker that holds the blocks of a prompt which fills `k` blocks exactly is found to hold at
  -- least those of every prompt that begins with it.
  pub longest_consecutive_prefix-hash_blocks :
      (xs ys : List ℕ) (n : ℤ) (k : ℕ) (adapter : Str) (have : Dict ℕ F)
      → length xs ≡ k * block_size n
      → HeldIn have (hash_blocks xs n adapter)
      → length (hash_blocks xs n adapter)
        ≤ (longest_consecutive_prefix (hash_blocks (xs ++ ys) n adapter) have).0
  unfolding longest_consecutive_prefix
  longest_consecutive_prefix-hash_blocks xs ys n k adapter have e t =
      let (more, d) = hash_blocks-append xs ys n k adapter e in
      let le = prefix_from-held (hash_blocks xs n adapter) more have 0 (f.num 0) t in
      rw d (omega arith)
