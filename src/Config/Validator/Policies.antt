-- ===== src/Config/Validator/Policies.antt =====
-- internal/config/validator.go: validatePolicies, ValidateWithWarnings and Validate.
pub mod Accepted
use gitlab_fleet_governor.Common.{
  ℕ, suc, Bool, true, false, Option, some, none, List, [], ◌∷◌, ◌++◌, if◌then◌else◌,
}
use gitlab_fleet_governor.Common.Int.{ℤ}
use gitlab_fleet_governor.Common.Text.{Text, codes}
use gitlab_fleet_governor.Governance.Operation.{has_items}
use gitlab_fleet_governor.Governance.ProtectedBranches.Rules.{ProtectedBranchRule}
use gitlab_fleet_governor.Discovery.Coordinator.{TargetSelectors}
use gitlab_fleet_governor.Config.Model.{Settings}
use gitlab_fleet_governor.Config.Validator.{
  Path_, Step, key, Problem, Shown, Errors, ValidationError, below, at_index, report, each,
}
use gitlab_fleet_governor.Config.Validator.Settings.{validate_settings}
use gitlab_fleet_governor.Config.Validator.Targets.{validate_targets}
use gitlab_fleet_governor.Config.Validator.Variables.{VariableConfig, validate_variables}
use gitlab_fleet_governor.Config.Validator.Access.{
  ProtectedTagRule, validate_protected_branch, validate_tags_from,
}
use gitlab_fleet_governor.Config.Validator.Branches.{
  BranchMerge, TargetBranchRule, validate_branch_merges, validate_target_branch_rules,
}
use gitlab_fleet_governor.Config.Validator.Members.{MembersConfig, validate_members}
use gitlab_fleet_governor.Config.Validator.Environments.{
  ProtectedEnvironmentRule, ApprovalRule, validate_environments_from, validate_approval_rules,
}
use gitlab_fleet_governor.Config.Validator.Project.{
  PushRules, ProjectSettings, Runner, Compliance, Uri, with_value, validate_push_rules,
  validate_project_settings, validate_pipeline_retention, validate_runners, validate_compliance,
  validate_webhook,
}
use gitlab_fleet_governor.Config.Validator.Files.{RepositoryFile, validate_repository_files}

-- What of Go's library the validator asks.
pub record Library : Type 0 where
  pub compiles : Text → Bool
  pub parse_uri : Text → Option Uri
  pub is_date : Text → Bool
  pub clean : Text → Text

-- `PoliciesConfig`, each policy as far as the validator reads it.
pub record PolicySet : Type 0 where
  pub push_rules : Option PushRules
  pub protected_branches : List ProtectedBranchRule
  pub protected_tags : Option (List ProtectedTagRule)
  pub protected_environments : Option (List ProtectedEnvironmentRule)
  pub approval_rules : Option (List ApprovalRule)
  pub project_settings : Option ProjectSettings
  pub pipeline_retention : Option ℤ
  pub variables : List VariableConfig
  pub runners : Option (List Runner)
  pub compliance : Option Compliance
  pub webhooks : List Text
  pub members : Option MembersConfig
  pub target_branch_rules : Option (List TargetBranchRule)
  pub repository_files : List RepositoryFile
  pub branch_merges : List BranchMerge

-- A configuration as the validator reads it; `negative_rps` as for the settings.
pub record ConfigFile : Type 0 where
  pub settings : Settings
  pub negative_rps : Option Text
  pub targets : TargetSelectors
  pub policies : PolicySet

unfoldable pub target_rules_checked : Option (List TargetBranchRule) → Path_ → Errors × Errors
unfolding validate_target_branch_rules
target_rules_checked none prefix = ([], [])
target_rules_checked (some rules) prefix = validate_target_branch_rules rules prefix

module _ (lib : Library) where
  -- The policies before the variables, and those after them.
  unfoldable pub validate_rules : PolicySet → Path_ → Errors
  unfolding each validate_push_rules validate_protected_branch validate_tags_from
      validate_environments_from validate_approval_rules validate_project_settings
      validate_pipeline_retention
  validate_rules p prefix =
      with_value p.push_rules
        (λ r. validate_push_rules lib.compiles r (below prefix (codes "push_rules")))
      ++ (each
            (λ i b.
              validate_protected_branch b (at_index (below prefix (codes "protected_branches")) i))
            0 p.protected_branches
          ++ (with_value p.protected_tags
                (validate_tags_from (below prefix (codes "protected_tags")) [] 0)
              ++ (with_value p.protected_environments (
                    validate_environments_from (below prefix (codes "protected_environments")) [] 0)
                  ++ (with_value p.approval_rules (λ rules.
                        validate_approval_rules rules (below prefix (codes "approval_rules")))
                      ++ (with_value p.project_settings (λ s.
                            validate_project_settings lib.compiles s
                              (below prefix (codes "project_settings")))
                          ++ with_value p.pipeline_retention (λ days.
                            validate_pipeline_retention days
                              (below prefix (codes "pipeline_retention"))))))))

  unfoldable pub validate_services : PolicySet → Path_ → Errors
  unfolding each validate_runners validate_compliance validate_webhook validate_members
  validate_services p prefix =
      with_value p.runners (λ rs. validate_runners rs (below prefix (codes "runners")))
      ++ (with_value p.compliance (λ c. validate_compliance c (below prefix (codes "compliance")))
          ++ (each
                (λ i url.
                  validate_webhook lib.parse_uri url (at_index (below prefix (codes "webhooks")) i))
                0 p.webhooks
              ++ with_value p.members
                  (λ m. validate_members lib.is_date m (below prefix (codes "members")))))

  unfoldable pub validate_policies : PolicySet → Path_ → Errors × Errors
  unfolding validate_rules validate_services validate_variables target_rules_checked
      validate_repository_files validate_branch_merges
  validate_policies p prefix =
      let target_rules =
        target_rules_checked p.target_branch_rules (below prefix (codes "target_branch_rules")) in
      (
        validate_rules p prefix
            ++ (validate_variables p.variables (below prefix (codes "variables"))
                ++ (validate_services p prefix
                    ++ (target_rules.0
                        ++ (validate_repository_files lib.clean p.repository_files
                              (below prefix (codes "repository_files"))
                            ++ validate_branch_merges p.branch_merges
                                (below prefix (codes "branch_merges")))))),
        target_rules.1,
      )

  -- `if len(errs) > 0 { return errs, warns }`
  abbrev pub as_error : Errors → Option Errors
  as_error errs = if has_items errs then some errs else none

  unfoldable pub validate_with_warnings : Option ConfigFile → Option Errors × Errors
  unfolding validate_settings validate_targets validate_policies
  validate_with_warnings none =
      (some (report true (key (codes "config") ∷ []) Problem.nil_config Shown.nothing), [])
  validate_with_warnings (some cfg) =
      let policies = validate_policies cfg.policies (key (codes "policies") ∷ []) in
      (
        as_error (
            validate_settings cfg.negative_rps cfg.settings (key (codes "settings") ∷ [])
            ++ (validate_targets lib.compiles cfg.targets (key (codes "targets") ∷ [])
                ++ policies.0)),
        policies.1,
      )

  unfoldable pub validate : Option ConfigFile → Option Errors
  unfolding validate_with_warnings
  validate cfg = (validate_with_warnings cfg).0
