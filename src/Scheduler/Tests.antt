-- ===== src/Scheduler/Tests.antt =====
-- labgrid/remote/scheduler.py on concrete places and filters.
use labgrid.Prelude.{ℕ, zero, suc, [], ◌∷◌, ◌≡◌, refl, ok, nat_eq, nat_beq, if◌then◌else◌, contains}
use labgrid.Scheduler.{TagSet, Pools, schedule_overlaps}
use labgrid.Prelude.Dict.{get}
use labgrid.Scheduler.Loop.{IsPools, IsDone, schedule_overlaps_total}

-- The filters 0 (any board) and 1 (a board with HDMI), and the places 10 (plain) and 11 (with
-- HDMI).
abbrev tag_set : ℕ → TagSet
tag_set zero = record { name = "any"; tags = ("board", "imx6") ∷ [] }
tag_set (suc zero) = record { name = "video"; tags = ("board", "imx6") ∷ ("hdmi", "yes") ∷ [] }
tag_set (suc (suc n)) = if nat_beq n 8 then desk else rack
  where
    desk : TagSet
    desk = record { name = "desk"; tags = ("board", "imx6") ∷ [] }

    rack : TagSet
    rack = record { name = "rack"; tags = ("board", "imx6") ∷ ("hdmi", "yes") ∷ [] }

schedule_overlaps_total_example :
    (s : Pools) × (schedule_overlaps tag_set (11 ∷ 10 ∷ []) (0 ∷ 1 ∷ []) ≡ ok s)
    × IsPools tag_set (11 ∷ 10 ∷ []) (0 ∷ 1 ∷ []) s
    × IsDone tag_set (11 ∷ 10 ∷ []) (0 ∷ 1 ∷ []) s
unfolding contains
schedule_overlaps_total_example =
    schedule_overlaps_total tag_set (11 ∷ 10 ∷ []) (0 ∷ 1 ∷ []) (refl, (refl, tt))
      (refl, (refl, tt))

-- The filter that fits one place only gets it, and the other one is left for the rest.
scarce_place_test :
    schedule_overlaps tag_set (11 ∷ 10 ∷ []) (0 ∷ 1 ∷ [])
    ≡ ok (record { places = []; filters = []; allocation = (0, 10) ∷ (1, 11) ∷ [] })
unfolding schedule_overlaps get
scarce_place_test = refl
