-- ===== src/Routing/Holder/Newest.antt =====
-- A holder keeps the newest value that it was given, in whatever order the values arrive.
use forge_labs.Base.{
  ℕ, suc, ◌≤◌, max, ◌≡◌, refl, ◌∙◌, ap, sym, Option, none, some, List, [], ◌∷◌, All, arith,
}
use mathlib.Core.List.{Permᴰ}
use forge_labs.Routing.Holder.{store_if_newer, deliver}

module _ {V : Type 0} (stamp : V → ℕ) where
  -- The stamp of what is held, one more, and 0 if nothing is.
  abbrev pub age : Option V → ℕ
  age none = 0
  age (some v) = suc (stamp v)

  abbrev newest : ℕ → List V → ℕ
  newest n [] = n
  newest n (v ∷ vs) = newest (max n (suc (stamp v))) vs

  age-store :
      (cur : Option V) (v : V)
      → age (store_if_newer stamp cur (some v)).0 ≡ max (age cur) (suc (stamp v))
  unfolding store_if_newer
  age-store none v = omega arith
  age-store (some c) v = ground arith

  age-deliver : (vs : List V) (cur : Option V) → age (deliver stamp cur vs) ≡ newest (age cur) vs
  unfolding deliver
  age-deliver [] cur = refl
  age-deliver (v ∷ vs) cur =
      age-deliver vs (store_if_newer stamp cur (some v)).0 ∙ ap (λ n. newest n vs) (age-store cur v)

  newest-perm : {us vs : List V} → Permᴰ us vs → (n : ℕ) → newest n us ≡ newest n vs
  newest-perm Permᴰ.nil n = refl
  newest-perm (Permᴰ.cons {b = b} e p) n = rw e (newest-perm p (max n (suc (stamp b))))
  newest-perm (Permᴰ.swap {l = l} e d) n = rw (e, d) (ap (λ k. newest k l) (omega arith))
  newest-perm (Permᴰ.trans p q) n = newest-perm p n ∙ newest-perm q n

  newest-ge : (vs : List V) (n : ℕ) → (n ≤ newest n vs) × All (λ v. suc (stamp v) ≤ newest n vs) vs
  newest-ge [] n = (omega arith, tt)
  newest-ge (v ∷ vs) n =
      let (le, rest) = newest-ge vs (max n (suc (stamp v))) in (omega arith, (omega arith, rest))

  -- After any deliveries what is held is at least as new as what was held before and as each value
  -- delivered, and its stamp is the same for every order of the deliveries, repeated ones
  -- included.
  pub deliver_newest :
      (cur : Option V) (us vs : List V)
      → Permᴰ us vs
      → (age cur ≤ age (deliver stamp cur us))
        × All (λ v. suc (stamp v) ≤ age (deliver stamp cur us)) us
        × (age (deliver stamp cur us) ≡ age (deliver stamp cur vs))
  deliver_newest cur us vs p =
      let (le, all) = newest-ge us (age cur) in
      (
        rw (age-deliver us cur) le,
        rw (age-deliver us cur) all,
        age-deliver us cur ∙ newest-perm p (age cur) ∙ sym (age-deliver vs cur),
      )
