-- ===== src/License/Enforce/Entitled.antt =====
-- What internal/license/enforcer.go asks of an execution in production.
use gitlab_fleet_governor.Common.{
  true, false, none, List, [], ◌∷◌, ◌≡◌, ◌↔◌, ◌⊎◌, inl, inr, arith, Bool-cases, Option-cases, All,
}
use gitlab_fleet_governor.Common.Text.{Text, codes}
use gitlab_fleet_governor.Resources.{Time}
use gitlab_fleet_governor.License.Version.{Info, Calendar}
use gitlab_fleet_governor.License.Enforce.{
  EnforcementOptions, Library, enforce_unlicensed, get_bsl_policy, usage_request, plain_status,
  is_community_feature, subscription_denial, is_host_allowed, is_namespace_allowed,
}
use gitlab_fleet_governor.License.Enforce.Simulation.{IsPermitted}

module _ {Claims : Type 0} (lib : Library Claims) where
  -- The claims cover the fleet's size, the host, each path and each feature.
  abbrev pub Covers : EnforcementOptions → Claims → Type 0
  Covers opts claims =
      (lib.check_limit claims (codes "max_projects") opts.discovered_projects ≡ none)
      × (is_host_allowed lib claims opts.gitlab_base_url ≡ true)
      × All (λ path. is_namespace_allowed lib claims path ≡ true) opts.target_paths
      × All (λ feat. (is_community_feature feat ≡ true) ⊎ (lib.assert_feature claims feat ≡ none))
          opts.required_features

  subscription_denial_iff :
      (feats : List Text)
      → (subscription_denial lib feats ≡ none)
        ↔ All (λ feat. is_community_feature feat ≡ true) feats
  unfolding subscription_denial
  subscription_denial_iff [] = ground arith
  subscription_denial_iff (feat ∷ feats) = ground (arith, subscription_denial_iff feats)

  module _ (cal : Calendar) (i : Info) (now : Time) where
    pub unlicensed_iff :
        (opts : EnforcementOptions) (time : Time)
        → opts.is_dry_run ≡ false
        → IsPermitted (enforce_unlicensed lib cal i opts time) ↔ (
            All (λ feat. is_community_feature feat ≡ true) opts.required_features
            × (lib.evaluate_entitlement (get_bsl_policy cal i) (usage_request lib opts time)
                ≡ true))
    unfolding enforce_unlicensed
    unlicensed_iff opts time live =
        elim (Option-cases (subscription_denial lib opts.required_features)) [
          | inl free ↦
              elim (Bool-cases
                (lib.evaluate_entitlement (get_bsl_policy cal i) (usage_request lib opts time))) [
                  | inl grants ↦ (
                    λ h. ((subscription_denial_iff opts.required_features).0 free, grants),
                    λ h. (plain_status lib, ground (arith, live, free, grants)),
                  )
                  | inr refuses ↦ (
                    λ h. ground (arith, live, free, refuses, h.1),
                    λ h. ground (arith, refuses, h.1),
                  )
                ]
          | inr (why, stops) ↦ (
            λ h. ground (arith, live, stops, h.1),
            λ h. ground (arith, stops, (subscription_denial_iff opts.required_features).1 h.0),
          )
        ]
