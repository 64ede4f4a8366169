-- ===== src/Cache/Service/Tests.antt =====
-- Events of two workers, and the theorems on them.
use forge_labs.Base.{
  ◌≤◌, ◌≡◌, refl, List, [], ◌∷◌, ◌++◌, length, ℤ, pos, Str, bytes, nat_key, str_key,
}
use mathlib.Core.List.{flatten}
use forge_labs.Fixed.{fixed}
use forge_labs.Cache.Blocks.{block_size, chunk_tokens, hash_blocks, longest_consecutive_prefix}
use forge_labs.Cache.Blocks.Chunks.{IsCut, chunk_tokens_lem}
use forge_labs.Cache.Index.{Index, new_index, worker_blocks, store_in}
use forge_labs.Cache.Index.Consistent.{IsConsistent}
use forge_labs.Cache.Service.{Event}
use forge_labs.Cache.Service.Found.{apply_all, apply_all-IsConsistent, store_in-found}

abbrev event : Str → Str → Event
event kind worker = record {
  kind = kind;
  worker_id = worker;
  base_model = bytes "m";
  adapter = [];
  tier = bytes "gpu";
  hashes = 7 ∷ 8 ∷ [];
}

abbrev events : List Event
events = event (bytes "stored") (bytes "a") ∷ event (bytes "stored") (bytes "b") ∷ []

abbrev index : Index ℤ
index = apply_all new_index events

chunk_tokens_lem_example :
    (flatten (chunk_tokens (1 ∷ 2 ∷ 3 ∷ []) (pos 2)) ≡ 1 ∷ 2 ∷ 3 ∷ [])
    × IsCut (block_size (pos 2)) (chunk_tokens (1 ∷ 2 ∷ 3 ∷ []) (pos 2))
chunk_tokens_lem_example = chunk_tokens_lem (1 ∷ 2 ∷ 3 ∷ []) (pos 2)

apply_all-IsConsistent_example : IsConsistent index
apply_all-IsConsistent_example = apply_all-IsConsistent fixed events

store_in-found_example :
    length (hash_blocks (1 ∷ 2 ∷ []) (pos 2) [])
    ≤ (longest_consecutive_prefix (hash_blocks ((1 ∷ 2 ∷ []) ++ (3 ∷ [])) (pos 2) []) (
        worker_blocks
          (store_in index (bytes "m") [] (bytes "a") [] (hash_blocks (1 ∷ 2 ∷ []) (pos 2) []))
          (bytes "a"))).0
store_in-found_example =
    store_in-found index (bytes "m") [] (bytes "a") [] (1 ∷ 2 ∷ []) (3 ∷ []) (pos 2) 1 refl refl
