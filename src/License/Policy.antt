-- ===== src/License/Policy.antt =====
-- `GetBSLPolicy` of internal/license/enforcer.go, and what an execution asks of it.
use gitlab_fleet_governor.Common.{
  Bool, true, false, some, none, List, [], ◌∷◌, not, ◌==◌, if◌then◌else◌, lookup,
}
use gitlab_fleet_governor.Common.Text.{Text, codes, text_eq, is_empty}
use gitlab_fleet_governor.Resources.{Time}
use gitlab_fleet_governor.License.Version.{Info, Calendar, release_time}
use gitlab_fleet_governor.License.Model.{
  EnforcementOptions, Library, UsageRequest, non_production, free_tier, BslPolicy,
  free_tier_max_projects,
}

-- The value of a key in a map of texts, the empty text for a missing one.
abbrev pub text_at : Text → List (Text × Text) → Text
text_at key m = elim (lookup key m) [ none ↦ [] | some value ↦ value ]

-- The `MatchFunc` of the grant for simulations.
unfoldable pub match_dry_run : UsageRequest → Bool × Text
match_dry_run request =
    if text_at (codes "dry_run") request.metadata == codes "true"
    then (true, codes "Execution is in non-destructive dry-run simulation mode")
    else (false, [])

unfoldable pub get_bsl_policy : Calendar → Info → BslPolicy
unfolding match_dry_run
get_bsl_policy cal i = record {
  product = codes "gitlab-fleet-governor";
  release_date = if i.verified then release_time cal i else none;
  change_period_years = 3;
  additional_use_grants =
      non_production (codes "Non-Production & Simulation Exemption") match_dry_run
      ∷ free_tier (codes "Free Community Tier")
          ((codes "max_projects", free_tier_max_projects) ∷ [])
      ∷ [];
}

module _ {Claims : Type 0} (lib : Library Claims) where
  -- `ENV`, else `ENVIRONMENT`, else production.
  abbrev pub environment : Text
  environment =
      if not (is_empty (lib.getenv (codes "ENV")))
      then lib.getenv (codes "ENV")
      else if not (is_empty (lib.getenv (codes "ENVIRONMENT")))
      then lib.getenv (codes "ENVIRONMENT")
      else codes "production"

  abbrev pub usage_request : EnforcementOptions → Time → UsageRequest
  usage_request opts time = record {
    environment = environment;
    usage = (codes "max_projects", opts.discovered_projects) ∷ [];
    time = time;
    metadata = (codes "command", opts.command) ∷ [];
  }
