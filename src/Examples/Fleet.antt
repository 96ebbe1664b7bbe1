-- ===== src/Examples/Fleet.antt =====
-- Runs of the accumulator.
use gitlab_fleet_governor.Common.{
  true, false, Option, some, none, List, [], ◌∷◌, ◌≡◌, refl, All, Distinct, keys, contains,
}
use gitlab_fleet_governor.Common.Int.{ℤ, pos}
use gitlab_fleet_governor.Common.Text.{codes, trim_space, to_lower}
use gitlab_fleet_governor.Resources.{Project}
use gitlab_fleet_governor.Discovery.Filter.{
  ProjectFilter, empty_filter, matches, evaluate, checks, check_excludes, check_includes,
  extract_project_topics, add_topics, clean_topic,
}
use gitlab_fleet_governor.Discovery.Fleet.{new_fleet_accumulator, to_fleet, filtered_out}
use gitlab_fleet_governor.Discovery.Fleet.Accumulated.{add_all, Scanned, to_fleet-Scanned}
use gitlab_fleet_governor.Examples.Samples.{widget}

abbrev active_only : Option ProjectFilter
active_only = some (record empty_filter { archived = some false; visibility = codes "any" })

-- The same project is seen in two groups, and an archived one in the second.
abbrev scan : List (Option Project × ℤ)
scan =
    (some widget, pos 1)
    ∷ (none, pos 1)
    ∷ (some widget, pos 2)
    ∷ (some (record widget { id = pos 8; archived = true }), pos 2)
    ∷ []

to_fleet-Scanned_example :
    Distinct (keys (to_fleet (add_all active_only new_fleet_accumulator scan)).projects)
    × All
        (Scanned active_only scan)
        (to_fleet (add_all active_only new_fleet_accumulator scan)).projects
to_fleet-Scanned_example = to_fleet-Scanned active_only scan

widget_passes : filtered_out active_only widget ≡ false
unfolding matches evaluate checks check_excludes check_includes extract_project_topics add_topics
    clean_topic trim_space to_lower contains
widget_passes = refl
