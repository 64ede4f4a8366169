-- ===== src/Scheduler/Chain/Order.antt =====
-- What `Rank` returns: the survivors, each scored once, the best first.
use forge_labs.Base.{
  ◌≡◌, refl, ap, Bool, true, false, ◌⊎◌, Option, List, [], ◌∷◌, map, All, arith, if◌then◌else◌, Str,
  str_lt, str_lt_irrefl, str_lt_trans, str_lt_total, Float, IsOrdered, le_trans_float,
  lt_le_trans_float, lt_asymm_float,
}
use mathlib.Core.List.{Permᴰ}
use mathlib.Core.List.Permᴰ
use forge_labs.Scheduler.Types.{Candidate, Request, Filter, WeightedScorer}
use forge_labs.Scheduler.Chain.{
  ok, PickResult, Scored, survivors, ranks_before, insert_sorted, sort_scored, to_pick, score_all,
  rank,
}

not_lt_trans : (s t u : Str) → str_lt s t ≡ false → str_lt t u ≡ false → str_lt s u ≡ false
not_lt_trans s t u h k =
    ground (arith, str_lt_total s t, str_lt_total t u, str_lt_trans t s u, str_lt_trans u t s)

-- Every element is related to all that follow it.
abbrev pub Sorted : {A : Type 0} → (A → A → Type 0) → List A → Type 0
Sorted R [] = Unit
Sorted R (x ∷ xs) = All (R x) xs × Sorted R xs

All-map :
    {A B : Type 0} (g : A → B) (P : B → Type 0) (Q : A → Type 0)
    → ((x : A) → Q x → P (g x))
    → (xs : List A) → All Q xs
    → All P (map g xs)
All-map g P Q h [] t = tt
All-map g P Q h (x ∷ xs) (q, t) = (h x q, All-map g P Q h xs t)

Sorted-map :
    {A B : Type 0} (g : A → B) (R : B → B → Type 0) (S : A → A → Type 0)
    → ((x y : A) → S x y → R (g x) (g y))
    → (xs : List A) → Sorted S xs
    → Sorted R (map g xs)
Sorted-map g R S h [] t = tt
Sorted-map g R S h (x ∷ xs) (q, t) = (All-map g (R (g x)) (S x) (h x) xs q, Sorted-map g R S h xs t)

Perm-map : {A B : Type 0} (g : A → B) {xs ys : List A} → Permᴰ xs ys → Permᴰ (map g xs) (map g ys)
Perm-map g Permᴰ.nil = Permᴰ.nil
Perm-map g (Permᴰ.cons e p) = Permᴰ.cons (ap g e) (Perm-map g p)
Perm-map g (Permᴰ.swap d e) = Permᴰ.swap (ap g d) (ap g e)
Perm-map g (Permᴰ.trans p q) = Permᴰ.trans (Perm-map g p) (Perm-map g q)

module _ {F : Type 0} ⦃f : Float F⦄ where
  -- A pick that may stand before another: its score is not lower, and if it is not higher its
  -- worker is not the later one by name.
  abbrev pub MayPrecede : PickResult F → PickResult F → Type 0
  MayPrecede p q =
      (f.lt p.score q.score ≡ false)
      × ((f.lt q.score p.score ≡ true) ⊎ (str_lt q.worker_id p.worker_id ≡ false))

  -- `y` need not stand before `x`.
  abbrev NotAfter : Scored F → Scored F → Type 0
  NotAfter x y = ranks_before y x ≡ false

  insert_sorted-perm : (x : Scored F) (ys : List (Scored F)) → Permᴰ (insert_sorted x ys) (x ∷ ys)
  unfolding insert_sorted
  insert_sorted-perm x [] = Permᴰ.refl (x ∷ [])
  insert_sorted-perm x (y ∷ ys) = go (insert_sorted-perm x ys) (ranks_before y x)
    where
      go :
          Permᴰ (insert_sorted x ys) (x ∷ ys)
          → (b : Bool) → Permᴰ (if b then y ∷ insert_sorted x ys else x ∷ y ∷ ys) (x ∷ y ∷ ys)
      go p true = Permᴰ.trans (Permᴰ.cons refl p) (Permᴰ.swap refl refl)
      go p false = Permᴰ.refl (x ∷ y ∷ ys)

  sort_scored-perm : (xs : List (Scored F)) → Permᴰ (sort_scored xs) xs
  unfolding sort_scored
  sort_scored-perm [] = Permᴰ.nil
  sort_scored-perm (x ∷ xs) =
      Permᴰ.trans (insert_sorted-perm x (sort_scored xs)) (Permᴰ.cons refl (sort_scored-perm xs))

  module _ (o : IsOrdered f) where
    NotAfter-trans : (x y z : Scored F) → NotAfter x y → NotAfter y z → NotAfter x z
    unfolding ranks_before
    NotAfter-trans x y z h k = ground (
      arith,
      le_trans_float f o z.total y.total x.total,
      lt_le_trans_float f o z.total y.total x.total,
      o.lt_total x.total y.total,
      o.lt_total y.total z.total,
      o.lt_irrefl x.total,
      o.lt_trans z.total y.total x.total,
      not_lt_trans (z.candidate).worker_id (y.candidate).worker_id (x.candidate).worker_id,
    )

    NotAfter-of_before : (x y : Scored F) → ranks_before x y ≡ true → NotAfter x y
    unfolding ranks_before
    NotAfter-of_before x y h = ground (
      arith,
      lt_asymm_float f o x.total y.total,
      lt_asymm_float f o y.total x.total,
      str_lt_irrefl (x.candidate).worker_id,
      str_lt_trans (x.candidate).worker_id (y.candidate).worker_id (x.candidate).worker_id,
    )

    MayPrecede-of_NotAfter : (x y : Scored F) → NotAfter x y → MayPrecede (to_pick x) (to_pick y)
    unfolding ranks_before to_pick
    MayPrecede-of_NotAfter x y h = ground arith

    insert-All :
        (z x : Scored F) (ys : List (Scored F))
        → NotAfter z x
        → All (NotAfter z) ys
        → All (NotAfter z) (insert_sorted x ys)
    unfolding insert_sorted
    insert-All z x [] h t = (h, tt)
    insert-All z x (y ∷ ys) h (k, t) = go (insert-All z x ys h t) (ranks_before y x)
      where
        go :
            All (NotAfter z) (insert_sorted x ys)
            → (b : Bool) → All (NotAfter z) (if b then y ∷ insert_sorted x ys else x ∷ y ∷ ys)
        go p true = (k, p)
        go p false = (h, (k, t))

    All-after :
        (x y : Scored F) (ys : List (Scored F))
        → NotAfter x y
        → All (NotAfter y) ys
        → All (NotAfter x) ys
    All-after x y [] h t = tt
    All-after x y (z ∷ zs) h (k, t) = (NotAfter-trans x y z h k, All-after x y zs h t)

    insert_sorted-Sorted :
        (x : Scored F) (ys : List (Scored F))
        → Sorted NotAfter ys
        → Sorted NotAfter (insert_sorted x ys)
    unfolding insert_sorted
    insert_sorted-Sorted x [] t = (tt, tt)
    insert_sorted-Sorted x (y ∷ ys) (k, t) =
        go (insert_sorted-Sorted x ys t) (ranks_before y x) refl
      where
        go :
            Sorted NotAfter (insert_sorted x ys)
            → (b : Bool) → ranks_before y x ≡ b
            → Sorted NotAfter (if b then y ∷ insert_sorted x ys else x ∷ y ∷ ys)
        go p true e = (insert-All y x ys (NotAfter-of_before y x e) k, p)
        go p false e = ((e, All-after x y ys e k), (k, t))

    sort_scored-Sorted : (xs : List (Scored F)) → Sorted NotAfter (sort_scored xs)
    unfolding sort_scored
    sort_scored-Sorted [] = tt
    sort_scored-Sorted (x ∷ xs) = insert_sorted-Sorted x (sort_scored xs) (sort_scored-Sorted xs)

    -- If candidates survive the filters, `Rank` returns a permutation of them, each with its score,
    -- in which no pick has a lower score than a later one, and of two equal scores the first is not
    -- of the later worker by name. Floats are ordered.
    pub rank_lem :
        (fs : List (Filter F)) (ss : List (WeightedScorer F)) (req : Option Request)
        (cs left : List (Candidate F))
        → survivors fs req cs ≡ ok left
        → (picks : List (PickResult F)) × (rank fs ss req cs ≡ ok picks)
          × Permᴰ picks (map to_pick (score_all ss req left))
          × Sorted MayPrecede picks
    unfolding rank
    rank_lem fs ss req cs left e =
        let scored = score_all ss req left in
        (
          map to_pick (sort_scored scored),
          rw (e, rank) refl,
          Perm-map to_pick (sort_scored-perm scored),
          Sorted-map to_pick MayPrecede NotAfter MayPrecede-of_NotAfter (sort_scored scored)
              (sort_scored-Sorted scored),
        )
