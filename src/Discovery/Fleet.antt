-- ===== src/Discovery/Fleet.antt =====
-- internal/discovery/discovery.go: the accumulator that the scans fill, and the fleet made of it. Its
-- lock makes each method atomic; the maps from identifiers are association lists.
pub mod Accumulated
pub mod Lists
use gitlab_fleet_governor.Common.{
  ℕ, ◌+◌, Bool, true, false, Option, some, none, List, [], ◌∷◌, not, if◌then◌else◌, length, lookup,
  insert,
}
use gitlab_fleet_governor.Common.Int.{ℤ, int_eq}
use gitlab_fleet_governor.Resources.{Project, Group, TargetProject, TargetGroup, TargetFleet}
use gitlab_fleet_governor.Engine.Results.{is_some}
use gitlab_fleet_governor.Discovery.Filter.{
  ProjectFilter, matches, extract_project_topics, extract_project_namespace,
}

pub record FleetAccumulator : Type 0 where
  pub projects : List (ℤ × TargetProject)
  pub groups : List (ℤ × TargetGroup)
  pub scanned_projects_count : ℕ
  pub scanned_groups_count : ℕ

unfoldable pub new_fleet_accumulator : FleetAccumulator
new_fleet_accumulator = record {
  projects = [];
  groups = [];
  scanned_projects_count = 0;
  scanned_groups_count = 0;
}

-- `m[k] = v` where the key is new.
unfoldable pub insert_new : {V : Type 0} → ℤ → V → List (ℤ × V) → List (ℤ × V)
insert_new k v m = if is_some (lookup k m) then m else insert k v m

unfoldable pub target_of_group : Group → TargetGroup
target_of_group g = record {
  id = g.id;
  name = g.name;
  path = g.path;
  full_path = g.full_path;
  parent_id = g.parent_id;
  raw = some g;
}

unfoldable pub add_group : FleetAccumulator → Option Group → FleetAccumulator
add_group a none = a
add_group a (some g) = record a {
  scanned_groups_count = a.scanned_groups_count + 1;
  groups = insert_new g.id (target_of_group g) a.groups;
}

unfoldable pub target_of_project : Project → ℤ → TargetProject
target_of_project p parent = record {
  id = p.id;
  name = p.name;
  path = p.path;
  path_with_namespace = p.path_with_namespace;
  default_branch = p.default_branch;
  visibility = p.visibility;
  archived = p.archived;
  marked_for_deletion = is_some p.marked_for_deletion_at;
  marked_for_deletion_at = p.marked_for_deletion_at;
  topics = extract_project_topics p;
  namespace_full_path = extract_project_namespace p;
  parent_group_id = parent;
  raw = some p;
}

-- `filter != nil && !filter.Matches(p)`
abbrev pub filtered_out : Option ProjectFilter → Project → Bool
filtered_out none p = false
filtered_out (some f) p = not (matches (some f) (some p))

unfoldable pub add_project_if_matches :
    FleetAccumulator → Option Project → Option ProjectFilter → ℤ → FleetAccumulator × Bool
add_project_if_matches a none filter parent = (a, false)
add_project_if_matches a (some p) filter parent =
    let scanned : FleetAccumulator = record a {
      scanned_projects_count = a.scanned_projects_count + 1;
    } in
    if filtered_out filter p then (scanned, false) else (
      record scanned { projects = insert_new p.id (target_of_project p parent) a.projects },
      true,
    )

unfoldable pub to_fleet : FleetAccumulator → TargetFleet
to_fleet a = record {
  projects = a.projects;
  groups = a.groups;
  scanned_projects_count = a.scanned_projects_count;
  scanned_groups_count = a.scanned_groups_count;
  matched_projects_count = length a.projects;
  matched_groups_count = length a.groups;
}
