-- ===== src/Config/Validator/Targets.antt =====
-- internal/config/validator.go: validateTargets and the selectors. `compiles` tells whether regexp.Compile
-- takes a pattern.
use gitlab_fleet_governor.Common.{
  ℕ, Bool, false, not, ◌&&◌, ◌||◌, Option, some, none, [], ◌∷◌, ◌++◌, nat_beq,
}
use gitlab_fleet_governor.Common.Int.{ℤ, pos, int_eq, ltb_ℤ}
use gitlab_fleet_governor.Common.Text.{
  Text, text_eq, codes, is_empty, to_lower, trim_space, has_prefix,
}
use gitlab_fleet_governor.Config.Validator.{
  Path_, Problem, Shown, Errors, below, at_index, report, each, check_non_negative, check_choice,
  check_regex,
}
use gitlab_fleet_governor.Discovery.Filter.{IdRange, ProjectSelector}
use gitlab_fleet_governor.Discovery.Groups.{GroupSelector}
use gitlab_fleet_governor.Discovery.Coordinator.{TargetSelectors}

unfoldable pub check_group_id : Path_ → ℕ → ℤ → Errors
check_group_id prefix i id =
    report (not (ltb_ℤ (pos 0) id)) (at_index prefix i) Problem.not_positive (Shown.number id)

abbrev pub ends_with : Text → ℕ → Bool
ends_with [] c = false
ends_with (d ∷ []) c = nat_beq d c
ends_with (d ∷ e ∷ s) c = ends_with (e ∷ s) c

unfoldable pub check_group_path : Path_ → ℕ → Text → Errors
check_group_path prefix i path =
    report (is_empty (trim_space path) || has_prefix path (codes "/") || ends_with path b'/')
      (at_index prefix i) Problem.bad_path (Shown.text path)

unfoldable pub validate_group_selector : GroupSelector → Path_ → Errors
unfolding each check_group_id check_group_path
validate_group_selector g prefix =
    each (check_group_id (below prefix (codes "group_ids_include"))) 0 g.group_ids_include
    ++ (each (check_group_id (below prefix (codes "group_ids_exclude"))) 0 g.group_ids_exclude
        ++ (each (check_group_path (below prefix (codes "group_paths_include"))) 0
              g.group_paths_include
            ++ each (check_group_path (below prefix (codes "group_paths_exclude"))) 0
                g.group_paths_exclude))

unfoldable pub check_id_range : Option IdRange → Path_ → Errors
unfolding check_non_negative
check_id_range none prefix = []
check_id_range (some r) prefix =
    check_non_negative r.min (below prefix (codes "min"))
    ++ (check_non_negative r.max (below prefix (codes "max"))
        ++ report (ltb_ℤ (pos 0) r.min && ltb_ℤ (pos 0) r.max && ltb_ℤ r.max r.min) prefix
            Problem.inverted Shown.nothing)

unfoldable pub validate_project_selector : (Text → Bool) → ProjectSelector → Path_ → Errors
unfolding check_regex check_choice check_id_range
validate_project_selector compiles p prefix =
    check_regex compiles p.project_name_regex_include
      (below prefix (codes "project_name_regex_include"))
    ++ (check_regex compiles p.project_name_regex_exclude
          (below prefix (codes "project_name_regex_exclude"))
        ++ (check_choice (codes "public" ∷ codes "internal" ∷ codes "private" ∷ codes "any" ∷ [])
              (to_lower p.visibility) p.visibility (below prefix (codes "visibility"))
            ++ check_id_range p.id_range (below prefix (codes "id_range"))))

abbrev where_given : {A : Type 0} → (A → Path_ → Errors) → Option A → Path_ → Errors
where_given check none field = []
where_given check (some x) field = check x field

unfoldable pub validate_targets : (Text → Bool) → TargetSelectors → Path_ → Errors
unfolding validate_group_selector validate_project_selector
validate_targets compiles t prefix =
    where_given validate_group_selector t.group_selector (below prefix (codes "group_selector"))
    ++ where_given (validate_project_selector compiles) t.project_selector
        (below prefix (codes "project_selector"))
