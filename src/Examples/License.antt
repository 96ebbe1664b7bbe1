-- ===== src/Examples/License.antt =====
-- Runs of the license check.
use gitlab_fleet_governor.Common.{
  ℕ, Bool, true, false, not, ◌||◌, ◌≤◌, some, none, List, [], ◌∷◌, ◌≡◌, ◌↔◌, inr, refl, arith, any,
  any_complete, contains, All, if◌then◌else◌, leb, ◌==◌,
}
use gitlab_fleet_governor.Common.Int.{pos}
use gitlab_fleet_governor.Common.Text.{codes, text_eq, trim, trim_space}
use gitlab_fleet_governor.Resources.{Time}
use gitlab_fleet_governor.Governance.Operation.{external, wrapped, fail}
use gitlab_fleet_governor.License.Version.{
  Info, Calendar, is_apache_converted, change_date, release_time,
}
use gitlab_fleet_governor.License.Enforce.{
  EnforcementOptions, Library, authentic, not_found, denied, token_unresolved, drifts,
  attested_time, resolve_token, enforce, is_community_feature, UsageRequest, UseGrant,
  non_production, free_tier,
}
use gitlab_fleet_governor.License.Enforce.Clock.{attested_time-converted}
use gitlab_fleet_governor.License.Enforce.Simulation.{IsPermitted, Simulated, enforce-dry_run}
use gitlab_fleet_governor.License.Enforce.FreeTier.{
  within, Withheld, IsEntitlement, enforce-free_tier_iff,
}

-- Every text is read as the same date, in the first year after the genesis of the product.
abbrev pub calendar : Calendar
calendar = record {
  parse_rfc3339 = λ s. some (pos 1790000000000000000);
  parse_date = λ s. none;
  parse_rfc3339_nano = λ s. none;
  add_years = λ t n. pos 1884600000000000000;
}

abbrev pub release : Info
release = record {
  version = codes "0.17.0";
  build_date = codes "2026-09-21T00:00:00Z";
  verified = true;
  signed_build_date = none;
}

abbrev custom_build : Info
custom_build = record release { verified = false }

abbrev far_future : Time
far_future = pos 1900000000000000000

attested_time-converted_example : is_apache_converted calendar release far_future ≡ true
unfolding is_apache_converted attested_time change_date release_time drifts
attested_time-converted_example =
    attested_time-converted calendar release (pos 1900000000000000001) far_future refl

-- Whether a grant covers a use: one outside production, or one within its limits.
abbrev covers : UsageRequest → UseGrant → Bool
covers request (non_production name match) =
    (match request).0 || not (request.environment == codes "production")
covers request (free_tier name limits) = within limits request.usage

-- Claims that name the licensed number of projects.
abbrev pub library : Library ℕ
library = record {
  clean_path = λ path. path;
  open_file = λ path. fail (external (codes "no such file"));
  resolve_token = not_found;
  getenv = λ name. [];
  new_validator = none;
  verify_with_result_at = λ token time. authentic 100 false;
  inspect = λ token. none;
  is_in_grace_period_at = λ claims time. false;
  check_limit = λ claims name n. if leb n claims then none else some (external (codes "limit"));
  scope_hosts = λ claims. [];
  scope_namespaces = λ claims. codes "org" ∷ [];
  host_allowed = λ claims url. true;
  namespace_allowed = λ claims path. path == codes "org/app";
  assert_feature = λ claims feature. none;
  evaluate_entitlement = λ policy request. any (covers request) policy.additional_use_grants;
}

abbrev options : EnforcementOptions
options = record {
  discovered_projects = 40;
  is_dry_run = false;
  gitlab_base_url = codes "https://gitlab.com";
  target_paths = codes "org/app" ∷ [];
  license_key = codes "token";
  license_file = [];
  command = codes "run";
  evaluation_time = none;
  gitlab_server_time = none;
  required_features = codes "governance.members" ∷ codes "governance.webhooks" ∷ [];
}

abbrev clock : Time
clock = pos 1790000000000000000

enforce-dry_run_example :
    Simulated library calendar custom_build clock (record options { is_dry_run = true })
enforce-dry_run_example =
    enforce-dry_run library calendar custom_build clock (record options { is_dry_run = true }) refl

-- A simulation with a license file that does not exist.
abbrev unreadable : EnforcementOptions
unreadable = record options {
  is_dry_run = true;
  license_key = [];
  license_file = codes "license.key";
}

simulation_denied :
    enforce library calendar custom_build clock unreadable
    ≡ denied none (
        token_unresolved
          (wrapped (codes "failed to open license file") (external (codes "no such file"))))
unfolding enforce is_apache_converted resolve_token trim_space trim contains
simulation_denied = refl

abbrev keyless : EnforcementOptions
keyless = record options { license_key = []; required_features = [] }

Withheld-covers :
    (request : UsageRequest) (grants : List UseGrant)
    → request.environment ≡ codes "production"
    → All (Withheld request) grants
    → any (covers request) grants ≡ false
Withheld-covers request [] production h = refl
Withheld-covers request (non_production name match ∷ grants) production h =
    ground (arith, production, h.0, Withheld-covers request grants production h.1)
Withheld-covers request (free_tier name limits ∷ grants) production h =
    ground (arith, h.0, Withheld-covers request grants production h.1)

library-IsEntitlement : IsEntitlement library calendar
library-IsEntitlement = record {
  grants = λ policy request name limits m h.
      any_complete (covers request) policy.additional_use_grants (free_tier name limits) m h;
  refuses = λ policy request production unchanged h.
      Withheld-covers request policy.additional_use_grants production h;
}

enforce-free_tier_iff_example : IsPermitted (enforce library calendar release clock keyless) ↔ (
    All (λ feat. is_community_feature feat ≡ true) keyless.required_features
    × (keyless.discovered_projects ≤ 25))
unfolding release_time is_apache_converted change_date resolve_token trim_space trim attested_time
enforce-free_tier_iff_example =
    enforce-free_tier_iff library calendar release clock keyless library-IsEntitlement refl refl
      (inr refl) refl
