-- ===== src/Cache/Blocks.antt =====
-- services/cacheregistry/blockkey.go. `hash/fnv` and the little-endian writes of
-- `encoding/binary` are written out on bytes.
pub mod Chunks
pub mod Prefix
use Prim.Native.Nat.{bit_xor}
use mathlib.Core.List.{flatten}
use forge_labs.Cache.Runes.{runes}
use forge_labs.Base.{
  is_empty, ℕ, zero, suc, ◌*◌, ◌/◌, ◌%◌, ◌^◌, ◌+◌, Bool, true, false, Option, none, some, List, [],
  ◌∷◌, ◌++◌, map, length, take, drop, if◌then◌else◌, ℤ, pos, pos_part, leb_ℤ, Str, Dict, lookup,
  nat_key, Float,
}

abbrev pub default_block_size : ℕ
default_block_size = 256

-- The loop of `ChunkTokens`, with fuel for each chunk.
unfoldable pub chunks_of {ℓ} : {A : Type ℓ} → ℕ → ℕ → List A → List (List A)
chunks_of zero size ts = []
chunks_of (suc fuel) size [] = []
chunks_of (suc fuel) size (t ∷ ts) = take size (t ∷ ts) ∷ chunks_of fuel size (drop size (t ∷ ts))

-- The block size that is used.
abbrev pub block_size : ℤ → ℕ
block_size n = if leb_ℤ n (pos 0) then default_block_size else pos_part n

-- Every chunk takes a token at least, so the number of tokens is enough fuel.
unfoldable pub chunk_tokens : List ℕ → ℤ → List (List ℕ)
unfolding chunks_of
chunk_tokens ts n = chunks_of (length ts) (block_size n) ts

-- `fnv.New64a`, from the state `h`.
fnv64a : ℕ → List ℕ → ℕ
fnv64a h [] = h
fnv64a h (b ∷ bs) = fnv64a ((bit_xor h b * 1_099_511_628_211) % 2 ^ 64) bs

-- The `k` bytes of a number, the lowest first.
le_bytes : ℕ → ℕ → List ℕ
le_bytes zero n = []
le_bytes (suc k) n = (n % 256) ∷ le_bytes k (n / 256)

-- The key of a chunk.
unfoldable pub block_key : Str → ℕ → List ℕ → ℕ
unfolding fnv64a le_bytes
block_key adapter parent chunk =
    fnv64a 14_695_981_039_346_656_037 (
      adapter ++ le_bytes 8 parent ++ le_bytes 4 (length chunk) ++ flatten (map (le_bytes 4) chunk))

-- The loop of `HashBlocks`.
unfoldable pub hash_chunks : Str → ℕ → List (List ℕ) → List ℕ
hash_chunks adapter parent [] = []
hash_chunks adapter parent (c ∷ cs) =
    let key = block_key adapter parent c in key ∷ hash_chunks adapter key cs

unfoldable pub hash_blocks : List ℕ → ℤ → Str → List ℕ
unfolding chunk_tokens hash_chunks
hash_blocks ts n adapter = hash_chunks adapter 0 (chunk_tokens ts n)

-- `HashPromptApprox`, whose tokens are the code points of the prompt.
unfoldable pub hash_prompt_approx : Str → ℤ → Str → List ℕ
hash_prompt_approx prompt n adapter =
    if is_empty prompt then [] else hash_blocks (runes prompt) n adapter

module _ {F : Type 0} ⦃f : Float F⦄ where
  -- The score with one more block of a weight, which is 1 if it is not positive.
  unfoldable pub add_block : F → F → F
  add_block score w =
      f.add score (f.mul (f.num default_block_size) (if f.lt (f.num 0) w then w else f.num 1))

  -- The loop of `LongestConsecutivePrefix`, from the blocks and the score so far.
  unfoldable pub prefix_from : ℕ → F → List ℕ → Dict ℕ F → ℕ × F
  prefix_from blocks score [] have = (blocks, score)
  prefix_from blocks score (h ∷ want) have = elim (lookup h have) [
    | none ↦ (blocks, score)
    | some w ↦ prefix_from (suc blocks) (add_block score w) want have
  ]

  unfoldable pub longest_consecutive_prefix : List ℕ → Dict ℕ F → ℕ × F
  unfolding prefix_from
  longest_consecutive_prefix want have = prefix_from 0 (f.num 0) want have
