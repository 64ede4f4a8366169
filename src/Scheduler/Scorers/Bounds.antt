-- ===== src/Scheduler/Scorers/Bounds.antt =====
-- The scores that need no configuration lie between 0 and 1.
use forge_labs.Base.{
  ℕ, zero, suc, ◌*◌, ◌<◌, ◌≡◌, true, false, Option, none, some, List, [], ◌∷◌, arith, length,
  if◌then◌else◌, is_nil, Bool-cases, inl, inr, Option-cases, ℤ, pos, negsuc, ◌+ℤ◌, ◌≤ℤ◌, +ℤ_parts,
  Str, Dict, lookup, str_key, nat_key, Float, of_ℤ, IsOrdered, IsGraded, IsMonotone,
  lt_le_trans_float, lt_asymm_float,
}
use forge_labs.Cache.Blocks.{
  default_block_size, add_block, prefix_from, longest_consecutive_prefix, hash_prompt_approx,
}
use forge_labs.Cache.Service.{CacheSnapshot}
use forge_labs.Scheduler.Types.{Candidate, Request}
use forge_labs.Scheduler.Scorers.{
  least_loaded, latency_score, cost_score, overlap_of, overlap_found, overlap_score, affinity_score,
}

length-pos : (xs : List ℕ) → is_nil xs ≡ false → 0 < length xs * default_block_size
length-pos [] h = absurd (cc)
length-pos (x ∷ xs) h = omega arith

module _ {F : Type 0} ⦃f : Float F⦄ where
  -- 0 ≤ x ≤ 1
  abbrev pub IsShare : F → Type 0
  IsShare x = (f.lt x (f.num 0) ≡ false) × (f.lt (f.num 1) x ≡ false)

  module _ (o : IsOrdered f) (m : IsMonotone f) (g : IsGraded f) where
    pub pos-num : (n : ℕ) → f.lt (f.num 0) (f.num (suc n)) ≡ true
    pos-num n =
        lt_le_trans_float f o (f.num 0) (f.num 1) (f.num (suc n)) g.zero-lt-one
          (g.num_mono 1 (suc n) (omega arith))

    pub zero-IsShare : IsShare (f.num 0)
    zero-IsShare = (o.lt_irrefl (f.num 0), lt_asymm_float f o (f.num 0) (f.num 1) g.zero-lt-one)

    pub one-IsShare : IsShare (f.num 1)
    one-IsShare = (lt_asymm_float f o (f.num 0) (f.num 1) g.zero-lt-one, o.lt_irrefl (f.num 1))

    -- A quotient of 1 by what is at least 1.
    pub div-IsShare :
        (a b : F)
        → f.lt a (f.num 0) ≡ false
        → f.lt b a ≡ false
        → f.lt (f.num 0) b ≡ true
        → IsShare (f.div a b)
    div-IsShare a b h k p = (g.div_nonneg a b h p, g.div-le-one a b k p)

    of_ℤ-IsShare : (q : ℤ) → pos 0 ≤ℤ q → IsShare (f.div (f.num 1) (of_ℤ (pos 1 +ℤ q)))
    of_ℤ-IsShare (pos n) h =
        let e : pos 1 +ℤ pos n ≡ pos (suc n) = ground (arith, +ℤ_parts (pos 1) (pos n)) in
        rw e (
          div-IsShare (f.num 1) (f.num (suc n)) one-IsShare.0 (g.num_mono 1 (suc n) (omega arith))
            (pos-num n))
    of_ℤ-IsShare (negsuc n) h = absurd (omega arith)

    latency_score-IsShare : (ref : F) (c : Candidate F) → IsShare (latency_score ref c)
    unfolding latency_score
    latency_score-IsShare ref c = elim (Bool-cases (f.lt (f.num 0) c.ewma_latency_ms)) [
      | inl some_latency ↦
          let r = if f.lt (f.num 0) ref then ref else f.num 100 in
          let pos_r : f.lt (f.num 0) r ≡ true = ground (arith, pos-num 99) in
          let d = f.div c.ewma_latency_ms r in
          let d_nonneg =
            g.div_nonneg c.ewma_latency_ms r
              (lt_asymm_float f o (f.num 0) c.ewma_latency_ms some_latency) pos_r in
          let grown = m.le_add (f.num 1) d d_nonneg in
          rw some_latency (
            div-IsShare (f.num 1) (f.add (f.num 1) d) one-IsShare.0 grown
              (lt_le_trans_float f o (f.num 0) (f.num 1) (f.add (f.num 1) d) g.zero-lt-one grown))
      | inr none_yet ↦ rw none_yet one-IsShare
    ]

    -- What is left of 1.
    rest-IsShare : (x : F) → IsShare x → IsShare (f.sub (f.num 1) x)
    rest-IsShare x s = (g.sub_nonneg x (f.num 1) s.1, g.sub_le x (f.num 1) s.0)

    cut-IsShare :
        (x : F)
        → let y = if f.lt x (f.num 0) then f.num 0 else x in
          IsShare (if f.lt (f.num 1) y then f.num 1 else y)
    cut-IsShare x = ground (arith, zero-IsShare, one-IsShare)

    cost_score-IsShare : (m : F) (c : Candidate F) → IsShare (cost_score m c)
    unfolding cost_score
    cost_score-IsShare m c =
        let ratio = f.div c.cost_per_hour m in
        let y = if f.lt ratio (f.num 0) then f.num 0 else ratio in
        let z = if f.lt (f.num 1) y then f.num 1 else y in
        ground (arith, one-IsShare, rest-IsShare z (cut-IsShare ratio))

    affinity_score-IsShare :
        (preferred : Str) (c : Candidate F) → IsShare (affinity_score preferred c)
    unfolding affinity_score
    affinity_score-IsShare preferred c = ground (arith, zero-IsShare, one-IsShare)

    add_block_nonneg :
        (score w : F) → f.lt score (f.num 0) ≡ false → f.lt (add_block score w) (f.num 0) ≡ false
    unfolding add_block
    add_block_nonneg score w h =
        let v = if f.lt (f.num 0) w then w else f.num 1 in
        let v_nonneg : f.lt v (f.num 0) ≡ false =
          ground (arith, one-IsShare, lt_asymm_float f o (f.num 0) w) in
        g.add_nonneg score (f.mul (f.num default_block_size) v) h (
          g.mul_nonneg (f.num default_block_size) v (g.num_mono 0 default_block_size (omega arith))
            v_nonneg)

    prefix_from_nonneg :
        (want : List ℕ) (have : Dict ℕ F) (blocks : ℕ) (score : F)
        → f.lt score (f.num 0) ≡ false
        → f.lt (prefix_from blocks score want have).1 (f.num 0) ≡ false
    unfolding prefix_from
    prefix_from_nonneg [] have blocks score h = h
    prefix_from_nonneg (b ∷ want) have blocks score h = elim (Option-cases (lookup b have)) [
      | inl e ↦ rw (e, prefix_from) h
      | inr (w, e) ↦
          rw (e, prefix_from)
            (prefix_from_nonneg want have (suc blocks) (add_block score w)
              (add_block_nonneg score w h))
    ]

    half-IsShare : IsShare (f.div (f.num 1) (f.num 2))
    half-IsShare =
        div-IsShare (f.num 1) (f.num 2) one-IsShare.0 (g.num_mono 1 2 (omega arith)) (pos-num 1)

    -- The norm of an overlap, by the number of blocks found.
    norm-IsShare :
        (found n : ℕ) (norm : F)
        → (0 < n → f.lt norm (f.num 0) ≡ false)
        → 0 < n
        → IsShare
            (elim found [ zero ↦ f.num 0 | suc k ↦ if f.lt (f.num 1) norm then f.num 1 else norm ])
    norm-IsShare zero n norm h p = zero-IsShare
    norm-IsShare (suc k) n norm h p = ground (arith, h p, one-IsShare)

    overlap_of-IsShare :
        (req : Request) (c : Candidate F) (have : Dict ℕ F) → IsShare (overlap_of req c have)
    unfolding overlap_of longest_consecutive_prefix
    overlap_of-IsShare req c have =
        let want = hash_prompt_approx req.prompt (pos default_block_size) req.adapter in
        let found = longest_consecutive_prefix want have in
        let n = length want * default_block_size in
        let score_nonneg = prefix_from_nonneg want have 0 (f.num 0) zero-IsShare.0 in
        let whole = λ (p : 0 < n).
          lt_le_trans_float f o (f.num 0) (f.num 1) (f.num n) g.zero-lt-one (g.num_mono 1 n p) in
        elim (Bool-cases (is_nil want)) [
          | inl none_wanted ↦ rw none_wanted half-IsShare
          | inr some_wanted ↦ rw some_wanted (
              norm-IsShare found.0 n (f.div found.1 (f.num n))
                (λ p. g.div_nonneg found.1 (f.num n) score_nonneg (whole p))
                (length-pos want some_wanted))
        ]

    overlap_found-IsShare :
        (req : Request) (c : Candidate F) (found : Option (Dict ℕ F))
        → IsShare (overlap_found req c found)
    unfolding overlap_found
    overlap_found-IsShare req c none = half-IsShare
    overlap_found-IsShare req c (some []) = half-IsShare
    overlap_found-IsShare req c (some (b ∷ bs)) = overlap_of-IsShare req c (b ∷ bs)

    overlap_score-IsShare :
        (held : Option (CacheSnapshot F)) (req : Option Request) (c : Candidate F)
        → IsShare (overlap_score held req c)
    unfolding overlap_score
    overlap_score-IsShare held none c = half-IsShare
    overlap_score-IsShare none (some req) c = half-IsShare
    overlap_score-IsShare (some snap) (some req) c =
        ground
          (arith, half-IsShare, overlap_found-IsShare req c (lookup c.worker_id snap.worker_blocks))

    -- The scores of the load, if it is not negative, of the latency, the cost, the affinity and the
    -- overlap lie between 0 and 1, whatever is configured or held. Floats are ordered, and rounding
    -- keeps signs and the bounds 0 and 1.
    pub scores-IsShare :
        (c : Candidate F) (req : Option Request) (ref most : F) (preferred : Str)
        (held : Option (CacheSnapshot F))
        → pos 0 ≤ℤ c.queue_depth
        → IsShare (least_loaded c)
          × IsShare (latency_score ref c)
          × IsShare (cost_score most c)
          × IsShare (affinity_score preferred c)
          × IsShare (overlap_score held req c)
    unfolding least_loaded
    scores-IsShare c req ref most preferred held h = (
      of_ℤ-IsShare c.queue_depth h,
      latency_score-IsShare ref c,
      cost_score-IsShare most c,
      affinity_score-IsShare preferred c,
      overlap_score-IsShare held req c,
    )
