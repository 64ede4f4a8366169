-- ===== src/Routing/Holder/Tests.antt =====
-- Late deliveries, and the theorem on them.
use forge_labs.Base.{ℕ, suc, ◌≤◌, ◌≡◌, refl, some, [], ◌∷◌, All}
use mathlib.Core.List.{Permᴰ}
use forge_labs.Routing.Holder.{store_if_newer, deliver}
use forge_labs.Routing.Holder.Newest.{age, deliver_newest}

abbrev epoch : ℕ → ℕ
epoch n = n

late : deliver epoch (some 4) (7 ∷ 6 ∷ []) ≡ some 7
unfolding deliver store_if_newer
late = refl

deliver_newest_example :
    (5 ≤ age epoch (deliver epoch (some 4) (7 ∷ 6 ∷ [])))
    × All (λ v. suc v ≤ age epoch (deliver epoch (some 4) (7 ∷ 6 ∷ []))) (7 ∷ 6 ∷ [])
    × (age epoch (deliver epoch (some 4) (7 ∷ 6 ∷ []))
        ≡ age epoch (deliver epoch (some 4) (6 ∷ 7 ∷ [])))
deliver_newest_example =
    deliver_newest epoch (some 4) (7 ∷ 6 ∷ []) (6 ∷ 7 ∷ []) (Permᴰ.swap refl refl)
