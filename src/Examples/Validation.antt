-- ===== src/Examples/Validation.antt =====
-- Runs of the validator.
use gitlab_fleet_governor.Common.{
  true, false, some, none, List, [], ◌∷◌, map, ◌≡◌, ◌↔◌, refl, All, Distinct, contains,
}
use gitlab_fleet_governor.Common.Int.{pos, negsuc}
use gitlab_fleet_governor.Common.Text.{Text, codes, trim_space, to_lower, has_prefix}
use gitlab_fleet_governor.Config.Model.{Settings, set_defaults}
use gitlab_fleet_governor.Config.Validator.{Path_, key, item, Problem, Shown}
use gitlab_fleet_governor.Config.Validator.Settings.{validate_settings}
use gitlab_fleet_governor.Config.Validator.Settings.Defaulted.{
  Choice, Accepts, log_levels, log_formats, report_formats, validate-set_defaults_iff,
}
use gitlab_fleet_governor.Config.Validator.Variables.{VariableConfig, validate_variables}
use gitlab_fleet_governor.Config.Validator.Variables.Accepted.{
  IsVariable, identity, validate_variables_iff,
}
use gitlab_fleet_governor.Config.Validator.Branches.{TargetBranchRule, validate_target_branch_rules}
use gitlab_fleet_governor.Config.Validator.Branches.Accepted.{IsRule, pattern_of}
use gitlab_fleet_governor.Config.Validator.Policies.{Library, ConfigFile, validate}
use gitlab_fleet_governor.Config.Validator.Policies.Accepted.{validate_sound}

abbrev policies : Path_
policies = key (codes "policies") ∷ []

abbrev variable : Text → Text → Text → VariableConfig
variable name value scope = record {
  key = name;
  value = value;
  variable_type = [];
  protected_ = none;
  masked = some true;
  raw = none;
  environment_scope = scope;
  description = [];
}

abbrev variables : List VariableConfig
variables =
    variable (codes "TOKEN") (codes "s3cret~value") (codes "prod")
    ∷ variable (codes "TOKEN") (codes "short") []
    ∷ []

validate_variables_iff_example :
    (validate_variables variables policies ≡ [])
    ↔ (All IsVariable variables × Distinct (map identity variables))
validate_variables_iff_example = validate_variables_iff policies variables

-- The value of a masked variable that is too short is not shown.
masked_hidden :
    validate_variables variables policies
    ≡ record {
      field = key (codes "policies") ∷ item 1 ∷ key (codes "value") ∷ [];
      problem = Problem.too_short;
      value = Shown.redacted;
    }
      ∷ []
unfolding validate_variables trim_space contains
masked_hidden = refl

abbrev rule : Text → Text → TargetBranchRule
rule name target = record { name = name; target_branch = target }

abbrev rules : List TargetBranchRule
rules = rule (codes "*") (codes "main") ∷ rule (codes " feature/* ") (codes "develop") ∷ []

-- The pattern `*` hides the rule after it.
shadow_warned : validate_target_branch_rules rules policies ≡ (
  [],
  record {
    field = key (codes "policies") ∷ key (codes "rules") ∷ item 0 ∷ key (codes "name") ∷ [];
    problem = Problem.shadows;
    value = Shown.text (codes "*");
  }
      ∷ [],
)
unfolding validate_target_branch_rules trim_space contains
shadow_warned = refl

-- A negative concurrency, and a longest delay below the default of the base delay.
abbrev settings : Settings
settings = record {
  dry_run = none;
  concurrency = negsuc 4;
  log_level = codes "DEBUG";
  log_format = [];
  report_format = [];
  gitlab = record {
    base_url = [];
    token = [];
    token_type = [];
    timeout_seconds = pos 0;
    rate_limit_burst = pos 0;
    max_retries = pos 0;
    retry_base_delay_ms = pos 0;
    retry_max_delay_ms = pos 100;
  };
  license = record { key = []; file = []; crl = []; crl_file = []; crl_url = [] };
}

validate-set_defaults_iff_example : (validate_settings none (set_defaults settings) [] ≡ []) ↔ (
    Choice log_levels settings.log_level
    × (Choice log_formats settings.log_format
        × (Choice report_formats settings.report_format × Accepts settings.gitlab)))
validate-set_defaults_iff_example = validate-set_defaults_iff settings []

-- The default of the base delay is reported; the concurrency is not.
default_reported :
    validate_settings none (set_defaults settings) []
    ≡ record {
      field = key (codes "gitlab") ∷ key (codes "retry_base_delay_ms") ∷ [];
      problem = Problem.inverted;
      value = Shown.nothing;
    }
      ∷ []
unfolding validate_settings set_defaults contains to_lower
default_reported = refl

-- Every pattern compiles, no address and no date is taken, and paths are clean.
abbrev library : Library
library = record {
  compiles = λ s. true;
  parse_uri = λ s. none;
  is_date = λ s. false;
  clean = λ s. s;
}

abbrev plain : Settings
plain = record settings { gitlab = record settings.gitlab { retry_max_delay_ms = pos 1000 } }

abbrev fine_rules : List TargetBranchRule
fine_rules = rule (codes "feature/*") (codes "develop") ∷ []

abbrev file : ConfigFile
file = record {
  settings = set_defaults plain;
  negative_rps = none;
  targets = record { group_selector = none; project_selector = none };
  policies = record {
    push_rules = none;
    protected_branches = [];
    protected_tags = none;
    protected_environments = none;
    approval_rules = none;
    project_settings = none;
    pipeline_retention = none;
    variables = variable (codes "TOKEN") (codes "s3cret~value") [] ∷ [];
    runners = none;
    compliance = none;
    webhooks = [];
    members = none;
    target_branch_rules = some fine_rules;
    repository_files =
        record {
          path = codes "docs/README.md";
          content = codes "text";
          content_file = [];
          ensure_contains = [];
          enforcement = codes "Direct_Commit";
        }
        ∷ [];
    branch_merges = [];
  };
}

file_approved : validate library (some file) ≡ none
unfolding validate set_defaults contains to_lower trim_space has_prefix
file_approved = refl

validate_sound_example :
    (Choice log_levels plain.log_level
      × (Choice log_formats plain.log_format
          × (Choice report_formats plain.report_format × Accepts plain.gitlab)))
    × ((All IsVariable file.policies.variables × Distinct (map identity file.policies.variables))
        × (All IsRule fine_rules × Distinct (map pattern_of fine_rules)))
validate_sound_example = validate_sound library file plain refl refl file_approved
