-- ===== src/Coordinator/Runs/Saving.antt =====
-- labgrid/remote/coordinator.py: saving changes no place, no exporter and no resource.
use labgrid.Prelude.{refl, [], ◌∷◌, String, string_eq, nat_eq, ℕ}
use labgrid.Prelude.Dict.{Dict}
use labgrid.Coordinator.State.{ExporterSession, Groups, Heap, Coordinator}
use labgrid.Coordinator.Snapshot.{
  ResourceDicts, group_resources, get_resources, all_resources, save, poll_step_save,
}
use labgrid.Coordinator.Stable.{Stable, stable_rules, pure-Stable, >>=-Stable, lift-Stable}
use labgrid.Coordinator.Clients.Same.{SameLab, SameLab-refl, others-Same}

module _ (s : Coordinator) where
  -- Saving only takes back the flag.
  group_resources-Same : (h : Heap) (rs : Dict String ℕ) → Stable (SameLab s) (group_resources h rs)
  unfolding group_resources
  group_resources-Same h [] = pure-Stable []
  group_resources-Same h ((name, ref) ∷ rs) =
      >>=-Stable (lift-Stable _) λ r. >>=-Stable (group_resources-Same h rs) λ rest. pure-Stable _

  get_resources-Same : (h : Heap) (gs : Groups) → Stable (SameLab s) (get_resources h gs)
  unfolding get_resources
  get_resources-Same h [] = pure-Stable []
  get_resources-Same h ((group, rs) ∷ gs) =
      >>=-Stable (group_resources-Same h rs)
        λ here. >>=-Stable (get_resources-Same h gs) λ rest. pure-Stable _

  all_resources-Same :
      (h : Heap) (es : Dict String ExporterSession) (found : Dict String ResourceDicts)
      → Stable (SameLab s) (all_resources h es found)
  unfolding all_resources
  all_resources-Same h [] found = pure-Stable found
  all_resources-Same h ((_, e) ∷ es) found =
      >>=-Stable (get_resources-Same h e.groups) λ here. all_resources-Same h es _

  save-Same : Stable (SameLab s) save
  unfolding save
  save-Same =
      >>=-Stable
        (others-Same s _
          λ u. record { same_places = refl; same_exporters = refl; same_heap = refl })
        λ _. search (stable_rules, all_resources-Same)

  poll_step_save-Same : Stable (SameLab s) poll_step_save
  unfolding poll_step_save
  poll_step_save-Same = search (stable_rules, save-Same)

pub poll_step_save-SameLab : (s : Coordinator) → SameLab s (poll_step_save s).1
poll_step_save-SameLab s = (poll_step_save-Same s).keeps s (SameLab-refl s)
