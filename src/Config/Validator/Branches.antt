-- ===== src/Config/Validator/Branches.antt =====
-- internal/config/validator.go: validateBranchMerges and validateTargetBranchRules, with the types of
-- internal/config/model.go.
pub mod Accepted
use gitlab_fleet_governor.Common.{
  ℕ, suc, Bool, true, false, not, ◌&&◌, ◌||◌, Option, some, none, List, [], ◌∷◌, ◌++◌,
  if◌then◌else◌, contains, ◌==◌,
}
use gitlab_fleet_governor.Common.Int.{ℤ, pos, int_eq, ltb_ℤ}
use gitlab_fleet_governor.Common.Text.{
  Text, text_eq, codes, is_empty, to_lower, trim_space, has_prefix,
}
use gitlab_fleet_governor.Config.Validator.{
  Path_, key, item, Problem, Shown, ValidationError, Errors, below, at_index, report, each,
  check_non_negative, check_choice, check_regex,
}

-- What the validator reads of BranchMergeRuleConfig, and TargetBranchRuleConfig.
pub record BranchMerge : Type 0 where
  pub source_branch : Text
  pub target_branch : Text

pub record TargetBranchRule : Type 0 where
  pub name : Text
  pub target_branch : Text

unfoldable pub check_branch_merge : Path_ → ℕ → BranchMerge → Errors
check_branch_merge prefix i m =
    let source = trim_space m.source_branch in
    let target = trim_space m.target_branch in
    let field = at_index prefix i in
    report (is_empty source) (below field (codes "source_branch")) Problem.empty Shown.nothing
    ++ (report (is_empty target) (below field (codes "target_branch")) Problem.empty Shown.nothing
        ++ report (not (is_empty source) && not (is_empty target) && source == target)
            (below field (codes "target_branch")) Problem.same_branch (Shown.text target))

unfoldable pub validate_branch_merges : List BranchMerge → Path_ → Errors
unfolding each check_branch_merge
validate_branch_merges merges prefix = each (check_branch_merge prefix) 0 merges

unfoldable pub check_rule_target : Text → Text → Path_ → Errors
check_rule_target name target field =
    if is_empty target
    then report true (below field (codes "target_branch")) Problem.empty Shown.nothing
    else report (not (is_empty name) && name == target) field Problem.same_branch Shown.nothing

abbrev is_cons : {A : Type 0} → List A → Bool
is_cons [] = false
is_cons (x ∷ xs) = true

-- The errors and the warnings of the rules.
unfoldable pub validate_target_rules_from :
    Path_ → List Text → ℕ → List TargetBranchRule → Errors × Errors
unfolding check_rule_target
validate_target_rules_from prefix seen i [] = ([], [])
validate_target_rules_from prefix seen i (r ∷ rs) =
    let name = trim_space r.name in
    let field = at_index prefix i in
    let rest =
      validate_target_rules_from prefix
        (if is_empty name || contains name seen then seen else name ∷ seen) (suc i) rs in
    (
      report (is_empty name) (below field (codes "name")) Problem.empty Shown.nothing
          ++ (report (not (is_empty name) && contains name seen) (below field (codes "name"))
                Problem.duplicate (Shown.text name)
              ++ (check_rule_target name (trim_space r.target_branch) field ++ rest.0)),
      report (name == codes "*" && is_cons rs) (below field (codes "name")) Problem.shadows
            (Shown.text name)
          ++ rest.1,
    )

unfoldable pub validate_target_branch_rules : List TargetBranchRule → Path_ → Errors × Errors
unfolding validate_target_rules_from
validate_target_branch_rules rules prefix =
    validate_target_rules_from (below prefix (codes "rules")) [] 0 rules
