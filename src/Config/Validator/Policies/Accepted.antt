-- ===== src/Config/Validator/Policies/Accepted.antt =====
-- internal/config/validator.go: what Validate's approval of a configuration means for its parts.
use gitlab_fleet_governor.Common.{
  Option, some, none, List, [], ◌∷◌, map, ◌≡◌, ◌↔◌, arith, All, Distinct,
}
use gitlab_fleet_governor.Common.Text.{codes}
use gitlab_fleet_governor.Config.Model.{Settings, set_defaults}
use gitlab_fleet_governor.Config.Validator.Seen.{append-nil_iff}
use gitlab_fleet_governor.Config.Validator.{Path_, Errors, key, below}
use gitlab_fleet_governor.Config.Validator.Settings.{validate_settings}
use gitlab_fleet_governor.Config.Validator.Settings.Defaulted.{
  Choice, Accepts, log_levels, log_formats, report_formats, validate-set_defaults_iff,
}
use gitlab_fleet_governor.Config.Validator.Targets.{validate_targets}
use gitlab_fleet_governor.Config.Validator.Variables.{validate_variables}
use gitlab_fleet_governor.Config.Validator.Variables.Accepted.{
  IsVariable, identity, validate_variables_iff,
}
use gitlab_fleet_governor.Config.Validator.Branches.{TargetBranchRule}
use gitlab_fleet_governor.Config.Validator.Branches.Accepted.{
  IsRule, pattern_of, validate_target_branch_rules_iff,
}
use gitlab_fleet_governor.Config.Validator.Policies.{
  Library, PolicySet, ConfigFile, validate_rules, validate_services, target_rules_checked,
  validate_policies, as_error, validate_with_warnings, validate,
}

-- The rules of a policy that may be missing.
abbrev pub given : {A : Type 0} → Option (List A) → List A
given none = []
given (some xs) = xs

target_rules_iff :
    (rules : Option (List TargetBranchRule)) (prefix : Path_)
    → ((target_rules_checked rules prefix).0 ≡ [])
      ↔ (All IsRule (given rules) × Distinct (map pattern_of (given rules)))
unfolding target_rules_checked
target_rules_iff none prefix = ground arith
target_rules_iff (some rules) prefix = validate_target_branch_rules_iff prefix rules

as_error_iff : (lib : Library) (errs : Errors) → (as_error lib errs ≡ none) ↔ (errs ≡ [])
as_error_iff lib [] = ground arith
as_error_iff lib (e ∷ errs) = ground arith

-- The parts of an approved set of policies.
policies_sound :
    (lib : Library) (p : PolicySet) (prefix : Path_)
    → (validate_policies lib p prefix).0 ≡ []
    → (All IsVariable p.variables × Distinct (map identity p.variables))
      × (All IsRule (given p.target_branch_rules)
          × Distinct (map pattern_of (given p.target_branch_rules)))
unfolding validate_policies
policies_sound lib p prefix h =
    let rest = ((append-nil_iff (validate_rules lib p prefix) _).0 h).1 in
    let (variables, rest') =
      (append-nil_iff (validate_variables p.variables (below prefix (codes "variables"))) _).0
        rest in
    let rest'' = ((append-nil_iff (validate_services lib p prefix) _).0 rest').1 in
    let (rules, rest''') =
      (append-nil_iff
          (target_rules_checked p.target_branch_rules
            (below prefix (codes "target_branch_rules"))).0
          _).0
        rest'' in
    (
      (validate_variables_iff (below prefix (codes "variables")) p.variables).0 variables,
      (target_rules_iff p.target_branch_rules (below prefix (codes "target_branch_rules"))).0 rules,
    )

-- Where the validation approves of a configuration whose settings had their defaults filled in and
-- whose RateLimitRPS is not negative, the texts of the
-- settings are missing or allowed and the delays between retries in order, its variables are each fine on their own and
-- told apart by key and scope, and its rules on target branches are complete and told apart by their patterns.
pub validate_sound :
    (lib : Library) (cfg : ConfigFile) (s : Settings)
    → cfg.settings ≡ set_defaults s
    → cfg.negative_rps ≡ none
    → validate lib (some cfg) ≡ none
    → (Choice log_levels s.log_level
        × (Choice log_formats s.log_format
            × (Choice report_formats s.report_format × Accepts s.gitlab)))
      × ((All IsVariable cfg.policies.variables × Distinct (map identity cfg.policies.variables))
          × (All IsRule (given cfg.policies.target_branch_rules)
              × Distinct (map pattern_of (given cfg.policies.target_branch_rules))))
unfolding validate validate_with_warnings
validate_sound lib cfg s e r h =
    let errs = (as_error_iff lib _).0 h in
    let (settings, rest) =
      (append-nil_iff
          (validate_settings cfg.negative_rps cfg.settings (key (codes "settings") ∷ [])) _).0
        errs in
    let policies =
      ((append-nil_iff (validate_targets lib.compiles cfg.targets (key (codes "targets") ∷ [])) _).0
        rest).1 in
    (
      (validate-set_defaults_iff s (key (codes "settings") ∷ [])).0
          (ground (arith, e, r, settings)),
      policies_sound lib cfg.policies (key (codes "policies") ∷ []) policies,
    )
