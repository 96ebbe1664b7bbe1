-- ===== src/Config/Model.antt =====
-- internal/config/model.go: the parts of a configuration that the engine reads. The content of a policy
-- is opaque here; RateLimitRPS is a floating-point number and left out.
use gitlab_fleet_governor.Common.{
  ℕ, zero, suc, Bool, true, Option, some, none, List, ◌≡◌, refl, arith, if◌then◌else◌,
}
use gitlab_fleet_governor.Common.Int.{ℤ, pos, negsuc}
use gitlab_fleet_governor.Common.Text.{Text, codes, is_empty}
use gitlab_fleet_governor.Discovery.Coordinator.{TargetSelectors}

-- `GitLabSettingsConfig`
pub record GitlabSettings : Type 0 where
  pub base_url : Text
  pub token : Text
  pub token_type : Text
  pub timeout_seconds : ℤ
  pub rate_limit_burst : ℤ
  pub max_retries : ℤ
  pub retry_base_delay_ms : ℤ
  pub retry_max_delay_ms : ℤ

-- `LicenseSettingsConfig`
pub record LicenseSettings : Type 0 where
  pub key : Text
  pub file : Text
  pub crl : Text
  pub crl_file : Text
  pub crl_url : Text

-- `SettingsConfig`
pub record Settings : Type 0 where
  pub dry_run : Option Bool
  pub concurrency : ℤ
  pub log_level : Text
  pub log_format : Text
  pub report_format : Text
  pub gitlab : GitlabSettings
  pub license : LicenseSettings

-- `if x <= 0 { x = default }` and `if s == "" { s = default }`
unfoldable pub positive_or : ℕ → ℤ → ℤ
positive_or default (pos zero) = pos default
positive_or default (pos (suc n)) = pos (suc n)
positive_or default (negsuc n) = pos default

unfoldable pub text_or : Text → Text → Text
text_or default s = if is_empty s then default else s

unfoldable pub dry_run_or_true : Option Bool → Option Bool
dry_run_or_true none = some true
dry_run_or_true (some b) = some b

unfoldable pub gitlab_set_defaults : GitlabSettings → GitlabSettings
unfolding positive_or text_or
gitlab_set_defaults g = record g {
  base_url = text_or (codes "https://gitlab.com/api/v4") g.base_url;
  token_type = text_or (codes "private_token") g.token_type;
  timeout_seconds = positive_or 30 g.timeout_seconds;
  rate_limit_burst = positive_or 50 g.rate_limit_burst;
  max_retries = positive_or 3 g.max_retries;
  retry_base_delay_ms = positive_or 500 g.retry_base_delay_ms;
  retry_max_delay_ms = positive_or 30000 g.retry_max_delay_ms;
}

unfoldable pub set_defaults : Settings → Settings
unfolding gitlab_set_defaults dry_run_or_true positive_or text_or
set_defaults s = record s {
  dry_run = dry_run_or_true s.dry_run;
  concurrency = positive_or 10 s.concurrency;
  log_level = text_or (codes "info") s.log_level;
  log_format = text_or (codes "text") s.log_format;
  report_format = text_or (codes "table") s.report_format;
  gitlab = gitlab_set_defaults s.gitlab;
}

-- A policy with rules that may prune what they do not name.
pub record RulePolicy (Policy : Type 0) : Type 0 where
  pub prune : Option Bool
  pub rules : List Policy

-- `PoliciesConfig`, as far as the engine looks into it.
pub record Policies (Policy : Type 0) : Type 0 where
  pub protected_tags : Option (RulePolicy Policy)
  pub protected_environments : Option (RulePolicy Policy)
  pub approval_rules : Option Policy
  pub pipeline_retention : Option Policy
  pub runners : Option Policy
  pub compliance : Option Policy
  pub webhooks : List Policy
  pub target_branch_rules : Option Policy
  pub branch_merges : List Policy

pub record PolicyConfig (Policy : Type 0) : Type 0 where
  pub version : Text
  pub settings : Settings
  pub targets : TargetSelectors
  pub policies : Policies Policy

positive_or_idem : (d : ℕ) (z : ℤ) → positive_or d (positive_or d z) ≡ positive_or d z
unfolding positive_or
positive_or_idem zero (pos zero) = refl
positive_or_idem (suc d) (pos zero) = refl
positive_or_idem d (pos (suc n)) = refl
positive_or_idem zero (negsuc n) = refl
positive_or_idem (suc d) (negsuc n) = refl

text_or_idem : (d s : Text) → text_or d (text_or d s) ≡ text_or d s
unfolding text_or
text_or_idem d s = ground arith

dry_run_idem : (o : Option Bool) → dry_run_or_true (dry_run_or_true o) ≡ dry_run_or_true o
unfolding dry_run_or_true
dry_run_idem none = refl
dry_run_idem (some b) = refl

-- Defaults fill in what is missing, and applying them again changes nothing.
pub set_defaults_idem : (s : Settings) → set_defaults (set_defaults s) ≡ set_defaults s
unfolding set_defaults gitlab_set_defaults
set_defaults_idem s = simp (positive_or_idem, text_or_idem, dry_run_idem) refl
