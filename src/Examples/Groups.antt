-- ===== src/Examples/Groups.antt =====
-- Runs of the group selector and of the walk over the tree of groups.
use gitlab_fleet_governor.Common.{
  ℕ, true, false, Option, some, none, List, [], ◌∷◌, ◌≡◌, ◌≢◌, ◌↔◌, ◌⊎◌, refl, In, All, Distinct,
  arith, ◌==◌, if◌then◌else◌, contains,
}
use gitlab_fleet_governor.Common.Int.{ℤ, pos, int_eq}
use gitlab_fleet_governor.Common.Text.{codes}
use gitlab_fleet_governor.Resources.{Group}
use gitlab_fleet_governor.Governance.Operation.{Error, Reply, ok}
use gitlab_fleet_governor.Discovery.Groups.{
  GroupSelector, DiscoveredGroup, GroupSelectorEvaluator, Outcome, out_of_fuel,
  new_group_selector_evaluator, clean_path, clean_paths, matches, normalize_group, traverse, walk,
  offer_roots, offer, round, expand, offer_children, list_item, is_excluded,
}
use gitlab_fleet_governor.Discovery.Groups.Selector.{matches_iff}
use gitlab_fleet_governor.Discovery.Groups.Walk.Marks.{found_ids, traverse-Distinct}
use gitlab_fleet_governor.Discovery.Groups.Walk.Reached.{Listed, traverse-Listed}
use gitlab_fleet_governor.Discovery.Groups.Walk.Ending.{Within, traverse-ends}
use gitlab_fleet_governor.Examples.Samples.{group_of}

abbrev selector : GroupSelector
selector = record {
  group_ids_include = [];
  group_ids_exclude = pos 3 ∷ [];
  group_paths_include = codes "/Org/" ∷ [];
  group_paths_exclude = [];
  recursive = none;
}

matches_iff_example :
    (matches (new_group_selector_evaluator (some selector)) (some (group_of 1)) ≡ true) ↔ (
      (¬ In (group_of 1).id selector.group_ids_exclude)
      × (¬ In (clean_path (group_of 1).full_path) (clean_paths selector.group_paths_exclude))
      × (((selector.group_ids_include ≡ []) × (clean_paths selector.group_paths_include ≡ []))
          ⊎ (In (group_of 1).id selector.group_ids_include
              ⊎ In (clean_path (group_of 1).full_path) (clean_paths selector.group_paths_include))))
matches_iff_example = matches_iff selector (group_of 1)

abbrev evaluator : GroupSelectorEvaluator
evaluator = record {
  include_ids = [];
  exclude_ids = pos 3 ∷ [];
  include_paths = [];
  exclude_paths = [];
  has_includes = false;
  recursive = true;
}

-- Group 1 has the subgroups 2 and 3, and both of these have group 4, which has group 1 again.
abbrev subgroups : ℤ → Reply (List (Option Group))
subgroups gid =
    if gid == pos 1
    then ok (some (group_of 2) ∷ none ∷ some (group_of 3) ∷ [])
    else if gid == pos 4
    then ok (some (group_of 1) ∷ [])
    else ok (some (group_of 4) ∷ [])

abbrev on_time : ℕ → Option Error
on_time n = none

abbrev roots : List (Option Group)
roots = some (group_of 1) ∷ []

abbrev listing : List DiscoveredGroup
listing =
    normalize_group (group_of 1) 0 (pos 1)
    ∷ normalize_group (group_of 2) 1 (pos 1)
    ∷ normalize_group (group_of 4) 2 (pos 1)
    ∷ []

walk_listing : traverse subgroups 0 evaluator on_time 4 (ok roots) ≡ Outcome.found listing
unfolding traverse walk offer_roots offer contains round expand offer_children list_item is_excluded
walk_listing = refl

traverse-Distinct_example : Distinct (found_ids listing)
traverse-Distinct_example =
    traverse-Distinct subgroups 0 evaluator on_time 4 roots listing walk_listing

traverse-Listed_example : All (Listed subgroups 0 evaluator roots) listing
traverse-Listed_example = traverse-Listed subgroups 0 evaluator roots on_time 4 listing walk_listing

abbrev ids : List ℤ
ids = pos 1 ∷ pos 2 ∷ pos 3 ∷ pos 4 ∷ []

some-Group : (g h : Group) → some g ≡ some h → g ≡ h
some-Group g h e = ground (arith, e)

subgroups-Within : (gid : ℤ) (gs : List (Option Group)) → subgroups gid ≡ ok gs → Within ids gs
subgroups-Within gid gs answer g m = ground (arith, answer, m)

traverse-ends_example : traverse subgroups 0 evaluator on_time 4 (ok roots) ≢ out_of_fuel
traverse-ends_example =
    traverse-ends ids subgroups 0 evaluator subgroups-Within on_time roots 4
      (λ g m. ground (arith, m)) (ground arith)
