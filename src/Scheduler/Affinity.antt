-- ===== src/Scheduler/Affinity.antt =====
-- services/scheduler/affinity.go. The hash of github.com/cespare/xxhash is a parameter, a function
-- of the bytes that are written.
mod Stable
mod Tests
use forge_labs.Base.{
  ℕ, zero, suc, ◌-◌, ◌/◌, ◌%◌, ◌<◌, min, Bool, true, false, ◌&&◌, ◌||◌, List, [], ◌∷◌, ◌++◌, length,
  take, ltb, ◌==◌, if◌then◌else◌, is_empty, ℤ, pos, pos_part, leb_ℤ, Str, str_lt,
}

-- The bytes of a `uint64`, the lowest first.
bytes_of : ℕ → ℕ → List ℕ
bytes_of zero n = []
bytes_of (suc k) n = (n % 256) ∷ bytes_of k (n / 256)

module _ (xxhash : List ℕ → ℕ) where
  -- `PrefixKey`
  pub prefix_key : Str → ℤ → ℤ → ℕ
  prefix_key prompt window block_bytes =
      let block = if leb_ℤ block_bytes (pos 0) then 64 else pos_part block_bytes in
      let n0 = min (if leb_ℤ window (pos 0) then 1024 else pos_part window) (length prompt) in
      let n = n0 - n0 % block in
      if n == 0 then (if is_empty prompt then 0 else xxhash prompt) else xxhash (take n prompt)

  -- The score of a worker under a key.
  unfoldable pub hrw_score : ℕ → Str → ℕ
  unfolding bytes_of
  hrw_score key w = xxhash (bytes_of 8 key ++ w)

  -- `s > bestScore || (s == bestScore && w < best)`
  unfoldable pub hrw_beats : ℕ → Str → Str → Bool
  hrw_beats key w best =
      ltb (hrw_score key best) (hrw_score key w)
      || (hrw_score key w == hrw_score key best && str_lt w best)

  -- The loop of `HRWPick` from its second round on.
  unfoldable pub hrw_from : ℕ → Str → List Str → Str
  hrw_from key best [] = best
  hrw_from key best (w ∷ ws) = hrw_from key (if hrw_beats key w best then w else best) ws

  unfoldable pub hrw_pick : ℕ → List Str → Str
  unfolding hrw_from
  hrw_pick key [] = []
  hrw_pick key (w ∷ ws) = hrw_from key w ws
