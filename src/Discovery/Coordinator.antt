-- ===== src/Discovery/Coordinator.antt =====
-- `DiscoverFleet` of internal/discovery/discovery.go: a fleet from the groups of a traversal and the
-- streams of their projects. A channel is the list of what is sent on it. The groups are scanned one
-- after the other, which is one of the orders that the goroutines can take; the accumulator's methods
-- are atomic. The client's streams and the context are parameters.
pub mod Streams
pub mod Found
use gitlab_fleet_governor.Common.{
  ℕ, suc, ◌+◌, Bool, true, false, Option, some, none, List, [], ◌∷◌, if◌then◌else◌,
}
use gitlab_fleet_governor.Common.Int.{ℤ, pos, int_eq}
use gitlab_fleet_governor.Common.Text.{Text, codes}
use gitlab_fleet_governor.Resources.{Project, TargetGroup, TargetFleet}
use gitlab_fleet_governor.Governance.Operation.{Error, wrapped, Reply, ok, fail, has_items}
use gitlab_fleet_governor.Gitlab.Pagination.{StreamItem, value, err}
use gitlab_fleet_governor.Discovery.Filter.{
  ProjectSelector, ProjectFilter, Regexp, FilterError, built, refused, new_project_filter,
}
use gitlab_fleet_governor.Discovery.Groups.{
  GroupSelector, DiscoveredGroup, Outcome, found, failed, out_of_fuel,
}
use gitlab_fleet_governor.Discovery.Fleet.{
  FleetAccumulator, new_fleet_accumulator, insert_new, add_project_if_matches, to_fleet,
}

-- `config.TargetSelectors`
pub record TargetSelectors : Type 0 where
  pub group_selector : Option GroupSelector
  pub project_selector : Option ProjectSelector

unfoldable pub target_of_discovered : DiscoveredGroup → TargetGroup
target_of_discovered g = record {
  id = g.id;
  name = g.name;
  path = g.path;
  full_path = g.full_path;
  parent_id = g.parent_id;
  raw = some g.raw;
}

unfoldable pub add_discovered_group : FleetAccumulator → Option DiscoveredGroup → FleetAccumulator
add_discovered_group a none = a
add_discovered_group a (some g) = record a {
  scanned_groups_count = a.scanned_groups_count + 1;
  groups = insert_new g.id (target_of_discovered g) a.groups;
}

unfoldable pub add_discovered_groups : FleetAccumulator → List DiscoveredGroup → FleetAccumulator
unfolding add_discovered_group
add_discovered_groups a [] = a
add_discovered_groups a (g ∷ gs) = add_discovered_groups (add_discovered_group a (some g)) gs

abbrev pub Stream : Type 0
Stream = List (StreamItem (Option Project))

-- The loop over one channel: the projects up to the first error, and that error.
unfoldable pub scan_stream :
    ProjectFilter → ℤ → FleetAccumulator → Stream → FleetAccumulator × Option Error
scan_stream filter parent a [] = (a, none)
scan_stream filter parent a (err e ∷ items) = (a, some e)
scan_stream filter parent a (value p ∷ items) =
    scan_stream filter parent (add_project_if_matches a p (some filter) parent).0 items

-- The first error stays in front of the channel of errors.
abbrev pub first_error : Option Error → Option Error → Option Error
first_error (some e) later = some e
first_error none later = later

abbrev pub fleet_or_error : FleetAccumulator × Option Error → Reply TargetFleet
fleet_or_error (a, none) = ok (to_fleet a)
fleet_or_error (a, some e) = fail e

module _ (group_stream : ℤ → Stream) (instance_stream : Stream) (canceled : ℕ → Option Error) where
  -- `scanGroupProjects`, from the group number `n` on: a done context ends the loop with its error, an
  -- error of a stream is returned when all groups are scanned.
  unfoldable pub scan_group_projects :
      ProjectFilter
      → ℕ
      → Option Error
      → FleetAccumulator
      → List DiscoveredGroup
      → FleetAccumulator × Option Error
  unfolding scan_stream
  scan_group_projects filter n failure a [] = (a, failure)
  scan_group_projects filter n failure a (g ∷ gs) = elim (canceled n) [
    | some e ↦ (a, some e)
    | none ↦
        let (a', e) = scan_stream filter g.id a (group_stream g.id) in
        scan_group_projects filter (n + 1)
          (first_error failure (elim e [
            | none ↦ none
            | some cause ↦ some (wrapped (codes "failed to stream projects for group") cause)
          ]))
          a' gs
  ]

  -- `scanInstanceProjects`, from the item number `n` on.
  unfoldable pub scan_instance_projects :
      ProjectFilter → ℕ → FleetAccumulator → Stream → FleetAccumulator × Option Error
  scan_instance_projects filter n a [] = (a, none)
  scan_instance_projects filter n a (item ∷ items) = elim (canceled n) [
    | some e ↦ (a, some e)
    | none ↦ elim item [
      | err e ↦ (a, some (wrapped (codes "failed to stream instance projects") e))
      | value p ↦
          scan_instance_projects filter (n + 1) (add_project_if_matches a p (some filter) (pos 0)).0
            items
    ]
  ]

  -- `Execute` of the coordinator; `traversed` is what the group traverser answers, `bad_filter` the
  -- error of a pattern that does not compile. `none` is a traversal that was cut off.
  unfoldable pub discover_fleet :
      (compile : Text → Option Regexp) (bad_filter : FilterError → Error)
      → (GroupSelector → Outcome)
      → TargetSelectors
      → Option (Reply TargetFleet)
  unfolding scan_group_projects scan_instance_projects add_discovered_groups
  discover_fleet compile bad_filter traversed targets =
      elim (new_project_filter compile targets.project_selector) [
        | refused e ↦
            some (fail (wrapped (codes "failed to initialize project filter") (bad_filter e)))
        | built filter ↦ elim targets.group_selector [
          | none ↦ some (
              fleet_or_error
                (scan_instance_projects filter 0 new_fleet_accumulator instance_stream))
          | some sel ↦ elim (traversed sel) [
            | out_of_fuel ↦ none
            | failed e ↦ some (fail (wrapped (codes "group discovery failed") e))
            | found groups ↦ some (
                fleet_or_error (
                  scan_group_projects filter 0 none
                    (add_discovered_groups new_fleet_accumulator groups) groups))
          ]
        ]
      ]
