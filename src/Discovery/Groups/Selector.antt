-- ===== src/Discovery/Groups/Selector.antt =====
-- The group selector of grouptree.go: exclusions before inclusions.
use gitlab_fleet_governor.Common.{
  true, false, some, List, [], ◌∷◌, ◌≡◌, ◌↔◌, ◌⊎◌, arith, In, contains_iff,
}
use gitlab_fleet_governor.Common.Int.{int_eq}
use gitlab_fleet_governor.Common.Text.{text_eq}
use gitlab_fleet_governor.Resources.{Group}
use gitlab_fleet_governor.Governance.Operation.{has_items}
use gitlab_fleet_governor.Discovery.Groups.{
  GroupSelector, new_group_selector_evaluator, clean_path, clean_paths, matches,
}

has_items-false : {A : Type 0} (l : List A) → (has_items l ≡ false) ↔ (l ≡ [])
has_items-false [] = ground arith
has_items-false (x ∷ l) = ground arith

-- A group matches a selector exactly if no exclusion names its ID or its normalised path, and either
-- the selector includes nothing by name or one of its inclusions names the group.
pub matches_iff :
    (sel : GroupSelector) (g : Group)
    → (matches (new_group_selector_evaluator (some sel)) (some g) ≡ true) ↔ (
        (¬ In g.id sel.group_ids_exclude)
        × (¬ In (clean_path g.full_path) (clean_paths sel.group_paths_exclude))
        × (((sel.group_ids_include ≡ []) × (clean_paths sel.group_paths_include ≡ []))
            ⊎ (In g.id sel.group_ids_include
                ⊎ In (clean_path g.full_path) (clean_paths sel.group_paths_include))))
unfolding matches new_group_selector_evaluator
matches_iff sel g = ground (
  arith,
  contains_iff g.id sel.group_ids_exclude,
  contains_iff (clean_path g.full_path) (clean_paths sel.group_paths_exclude),
  contains_iff g.id sel.group_ids_include,
  contains_iff (clean_path g.full_path) (clean_paths sel.group_paths_include),
  has_items-false sel.group_ids_include,
  has_items-false (clean_paths sel.group_paths_include),
)
