-- ===== src/License/Model.antt =====
-- The data of internal/license: the options of a check, the feature tiers of model.go, the policy,
-- what the license-go library and the operating system answer, and the outcomes.
use gitlab_fleet_governor.Common.{ℕ, Bool, Option, List, [], ◌∷◌, if◌then◌else◌, contains}
use gitlab_fleet_governor.Common.Text.{Text, codes, text_eq, to_lower, trim_space}
use gitlab_fleet_governor.Resources.{Time}
use gitlab_fleet_governor.Governance.Operation.{Error, Reply}

-- `EnforcementOptions`. A zero time is `none`. The key that verifies and the revocation lists are
-- settings of the library's validator.
pub record EnforcementOptions : Type 0 where
  pub discovered_projects : ℕ
  pub is_dry_run : Bool
  pub gitlab_base_url : Text
  pub target_paths : List Text
  pub license_key : Text
  pub license_file : Text
  pub command : Text
  pub evaluation_time : Option Time
  pub gitlab_server_time : Option Time
  pub required_features : List Text

abbrev pub free_tier_max_projects : ℕ
free_tier_max_projects = 25

abbrev pub community_features : List Text
community_features =
    codes "governance.push_rules"
    ∷ codes "governance.protected_branches"
    ∷ codes "governance.branch_merges"
    ∷ codes "governance.project_settings"
    ∷ codes "governance.members"
    ∷ codes "governance.variables"
    ∷ codes "report.table"
    ∷ codes "report.json"
    ∷ codes "report.csv"
    ∷ codes "report.markdown"
    ∷ codes "report.summary"
    ∷ codes "report.*"
    ∷ []

abbrev pub pro_features : List Text
pro_features =
    codes "governance.approval_rules"
    ∷ codes "governance.target_branch_rules"
    ∷ codes "governance.runners"
    ∷ codes "governance.webhooks"
    ∷ codes "governance.pipeline_retention"
    ∷ codes "governance.protected_environments"
    ∷ codes "governance.protected_tags"
    ∷ []

unfoldable pub is_community_feature : Text → Bool
is_community_feature feature = contains (trim_space (to_lower feature)) community_features

unfoldable pub required_tier_for_feature : Text → Text
required_tier_for_feature feature =
    if is_community_feature feature
    then codes "community"
    else if contains (trim_space (to_lower feature)) pro_features
    then codes "pro"
    else codes "enterprise"

-- `liblicense.BSLUsageRequest`; its maps are association lists.
pub record UsageRequest : Type 0 where
  pub environment : Text
  pub usage : List (Text × ℕ)
  pub time : Time
  pub metadata : List (Text × Text)

-- `liblicense.BSLAdditionalUseGrant`, as NewNonProductionGrant with a MatchFunc and NewFreeTierGrant
-- make it. A match comes with its reason.
pub data UseGrant : Type 0 where
  non_production : Text → (UsageRequest → Bool × Text) → UseGrant
  free_tier : Text → (limits : List (Text × ℕ)) → UseGrant

-- `liblicense.BSLPolicy`; a zero time is `none`.
pub record BslPolicy : Type 0 where
  pub product : Text
  pub release_date : Option Time
  pub change_period_years : ℕ
  pub additional_use_grants : List UseGrant

pub record ValidationStatus (Claims : Type 0) : Type 0 where
  pub valid : Bool
  pub in_grace_period : Bool
  pub claims : Option Claims

-- What the validator answers for a token.
pub data Verdict (Claims : Type 0) : Type 0 where
  authentic : Claims → (in_grace_period : Bool) → Verdict Claims
  scope_mismatch : Error → Verdict Claims
  invalid : (is_revoked : Bool) → Error → Verdict Claims

pub data TokenSource : Type 0 where
  found : Text → TokenSource
  not_found : TokenSource
  broken : Error → TokenSource

-- A file that was opened: whether its mode is regular, and its content up to a limit of bytes.
pub record OpenFile : Type 0 where
  pub is_regular : Reply Bool
  pub read_limited : ℕ → Reply Text

-- The license-go library and the operating system.
pub record Library (Claims : Type 0) : Type 0 where
  pub clean_path : Text → Text
  pub open_file : Text → Reply OpenFile
  pub resolve_token : TokenSource
  pub getenv : Text → Text
  pub new_validator : Option Error
  pub verify_with_result_at : Text → Time → Verdict Claims
  pub inspect : Text → Option Claims
  pub is_in_grace_period_at : Claims → Time → Bool
  pub check_limit : Claims → Text → ℕ → Option Error
  pub scope_hosts : Claims → List Text
  pub scope_namespaces : Claims → List Text
  pub host_allowed : Claims → Text → Bool
  pub namespace_allowed : Claims → Text → Bool
  pub assert_feature : Claims → Text → Option Error
  pub evaluate_entitlement : BslPolicy → UsageRequest → Bool

-- Why an execution is denied.
pub data Denial : Type 0 where
  token_unresolved : Error → Denial
  license_revoked : Error → Denial
  verification_failed : Error → Denial
  capacity_exceeded : Denial
  host_mismatch : Denial
  group_mismatch : Text → Denial
  feature_not_entitled : (feature tier : Text) → Error → Denial
  feature_requires_subscription : (feature tier : Text) → Denial
  license_required : Denial

pub data Decision (Claims : Type 0) : Type 0 where
  permitted : ValidationStatus Claims → Decision Claims
  denied : Option (ValidationStatus Claims) → Denial → Decision Claims

-- The answer of `ParseAndVerifyAt`: claims, or an error with the status that goes with it.
pub data Verification (Claims : Type 0) : Type 0 where
  verified : Claims → (in_grace_period : Bool) → Verification Claims
  rejected : Option (ValidationStatus Claims) → (is_revoked : Bool) → Error → Verification Claims
