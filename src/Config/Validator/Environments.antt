-- ===== src/Config/Validator/Environments.antt =====
-- internal/config/validator.go: validateProtectedEnvironment and validateApprovalRules, with what they read
-- of the types of internal/config/model.go.
use gitlab_fleet_governor.Common.{
  ℕ, suc, not, ◌&&◌, ◌||◌, Option, some, none, List, [], ◌∷◌, ◌++◌, if◌then◌else◌, contains, ◌==◌,
}
use gitlab_fleet_governor.Common.Int.{ℤ, pos, int_eq, ltb_ℤ}
use gitlab_fleet_governor.Common.Text.{Text, text_eq, codes, is_empty, trim_space}
use gitlab_fleet_governor.Config.Validator.{
  Path_, Problem, Shown, Errors, below, at_index, report, each, check_non_negative, check_choice,
}
use gitlab_fleet_governor.Governance.Operation.{has_items}
use gitlab_fleet_governor.Config.Validator.Access.{check_level, branch_levels}

-- `EnvironmentAccessDescription` and `EnvironmentApprovalRuleConfig`
pub record EnvironmentAccess : Type 0 where
  pub access_level : ℤ
  pub user_id : ℤ
  pub group_id : ℤ

pub record EnvironmentApproval : Type 0 where
  pub access_level : ℤ
  pub user_id : ℤ
  pub group_id : ℤ
  pub required_approval_count : Option ℤ

-- `ProtectedEnvironmentRuleConfig` and `ApprovalRuleConfig`
pub record ProtectedEnvironmentRule : Type 0 where
  pub name : Text
  pub deploy_access_levels : List EnvironmentAccess
  pub required_approval_count : Option ℤ
  pub approval_rules : List EnvironmentApproval

pub record ApprovalRule : Type 0 where
  pub name : Text
  pub approvals_required : ℤ
  pub user_usernames : List Text
  pub user_ids : List ℤ
  pub group_paths : List Text
  pub group_ids : List ℤ
  pub rule_type : Text

unfoldable pub check_count : Option ℤ → Path_ → Errors
unfolding check_non_negative
check_count none field = []
check_count (some n) field = check_non_negative n field

unfoldable pub check_who : ℤ → ℤ → ℤ → Path_ → Errors
unfolding check_level check_non_negative
check_who level user group field =
    check_level branch_levels level (below field (codes "access_level"))
    ++ (check_non_negative user (below field (codes "user_id"))
        ++ check_non_negative group (below field (codes "group_id")))

unfoldable pub check_deploy_access : Path_ → ℕ → EnvironmentAccess → Errors
unfolding check_who
check_deploy_access prefix i a = check_who a.access_level a.user_id a.group_id (at_index prefix i)

unfoldable pub check_environment_approval : Path_ → ℕ → EnvironmentApproval → Errors
unfolding check_who check_count
check_environment_approval prefix i a =
    check_who a.access_level a.user_id a.group_id (at_index prefix i)
    ++ check_count a.required_approval_count
        (below (at_index prefix i) (codes "required_approvals"))

unfoldable pub validate_protected_environment : ProtectedEnvironmentRule → Path_ → Errors
unfolding each check_count check_deploy_access check_environment_approval
validate_protected_environment e prefix =
    report (is_empty (trim_space e.name)) (below prefix (codes "name")) Problem.empty Shown.nothing
    ++ (check_count e.required_approval_count (below prefix (codes "required_approval_count"))
        ++ (each (check_deploy_access (below prefix (codes "deploy_access_levels"))) 0
              e.deploy_access_levels
            ++ each (check_environment_approval (below prefix (codes "approval_rules"))) 0
                e.approval_rules))

-- The loop of validatePolicies over the rules on environments.
unfoldable pub validate_environments_from :
    Path_ → List Text → ℕ → List ProtectedEnvironmentRule → Errors
unfolding validate_protected_environment
validate_environments_from prefix seen i [] = []
validate_environments_from prefix seen i (e ∷ es) =
    let name = trim_space e.name in
    let field = at_index prefix i in
    validate_protected_environment e field
    ++ (report (not (is_empty name) && contains name seen) (below field (codes "name"))
          Problem.duplicate (Shown.text name)
        ++ validate_environments_from prefix
            (if is_empty name || contains name seen then seen else name ∷ seen) (suc i) es)

unfoldable pub check_approval_rule : Path_ → ℕ → ApprovalRule → Errors
unfolding check_choice
check_approval_rule prefix i r =
    let field = at_index prefix i in
    report (is_empty (trim_space r.name)) (below field (codes "name")) Problem.empty Shown.nothing
    ++ (report (ltb_ℤ r.approvals_required (pos 1)) (below field (codes "approvals_required"))
          Problem.below_one (Shown.number r.approvals_required)
        ++ (check_choice
              (codes "regular"
                ∷ codes "code_owner"
                ∷ codes "any_approver"
                ∷ codes "report_approver"
                ∷ [])
              r.rule_type r.rule_type (below field (codes "rule_type"))
            ++ report
                (not (r.rule_type == codes "any_approver")
                  && not (
                      has_items r.user_usernames
                      || has_items r.user_ids
                      || has_items r.group_paths
                      || has_items r.group_ids))
                field Problem.no_approvers Shown.nothing))

unfoldable pub validate_approval_rules : List ApprovalRule → Path_ → Errors
unfolding each check_approval_rule
validate_approval_rules rules prefix =
    each (check_approval_rule (below prefix (codes "rules"))) 0 rules
