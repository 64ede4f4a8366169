-- ===== src/Scheduler/Affinity/Tests.antt =====
-- Three workers under a hash that adds the bytes up, and the theorem on them.
use forge_labs.Base.{ℕ, ◌+◌, ◌≡◌, refl, List, [], ◌∷◌, Str, bytes, is_member, str_eq}
use forge_labs.Scheduler.Affinity.{hrw_score, hrw_beats, hrw_pick}
use forge_labs.Scheduler.Affinity.Stable.{hrw_pick_lem}

abbrev sum_of : List ℕ → ℕ
sum_of [] = 0
sum_of (b ∷ bs) = b + sum_of bs

abbrev all_workers : List Str
all_workers = bytes "a" ∷ bytes "c" ∷ bytes "b" ∷ []

abbrev left_workers : List Str
left_workers = bytes "c" ∷ bytes "a" ∷ []

hrw_pick_lem_example : hrw_pick sum_of 5 left_workers ≡ hrw_pick sum_of 5 all_workers
unfolding hrw_pick hrw_score hrw_beats is_member str_eq
hrw_pick_lem_example = hrw_pick_lem sum_of 5 left_workers all_workers (refl, (refl, tt)) refl
