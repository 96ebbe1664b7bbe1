-- ===== src/License/Enforce.antt =====
-- internal/license/enforcer.go, model.go and verifier.go: whether an execution complies with the
-- license. The license-go library, the operating system and the time package are parameters.
pub mod Clock
pub mod Simulation
pub mod Entitled
pub mod FreeTier
use gitlab_fleet_governor.Common.{
  ℕ, ◌+◌, ◌-◌, Bool, true, false, Option, some, none, List, [], ◌∷◌, not, ◌&&◌, ◌||◌, ◌==◌,
  if◌then◌else◌, leb, contains,
}
use gitlab_fleet_governor.Common.Int.{ℤ, pos, negsuc, ltb_ℤ}
use gitlab_fleet_governor.Common.Text.{Text, codes, text_eq, is_empty, to_lower, trim_space}
use gitlab_fleet_governor.Resources.{Time}
use gitlab_fleet_governor.Governance.Operation.{Error, external, Reply, ok, fail, has_items}
use gitlab_fleet_governor.License.Version.{Info, Calendar, is_apache_converted, release_time}
pub use gitlab_fleet_governor.License.Model.{
  EnforcementOptions, free_tier_max_projects, community_features, pro_features,
  is_community_feature, required_tier_for_feature, BslPolicy, UseGrant, non_production, free_tier,
  UsageRequest, ValidationStatus, Verdict, TokenSource, Library, Denial, Decision, Verification,
  authentic, scope_mismatch, invalid, found, not_found, broken, token_unresolved, license_revoked,
  verification_failed, capacity_exceeded, host_mismatch, group_mismatch, feature_not_entitled,
  feature_requires_subscription, license_required, permitted, denied, verified, rejected,
}
unfoldable pub use gitlab_fleet_governor.License.Token.{resolve_token}
unfoldable pub use gitlab_fleet_governor.License.Policy.{get_bsl_policy, environment, usage_request}

abbrev nanoseconds_per_hour : ℕ
nanoseconds_per_hour = 3600000000000

abbrev pub later : Time → ℕ → Time
later (pos a) n = pos (a + n)
later (negsuc a) n = if leb n a then negsuc (a - n) else pos (n - (a + 1))

-- `drift < -time.Hour || drift > time.Hour`
unfoldable pub drifts : Time → Time → Bool
drifts eval server =
    ltb_ℤ (later eval nanoseconds_per_hour) server || ltb_ℤ (later server nanoseconds_per_hour) eval

-- The time the license is evaluated at: that of the server where the local clock is out of line.
unfoldable pub attested_time : Calendar → Info → Time → Option Time → Time
attested_time cal i eval none = eval
attested_time cal i eval (some server) =
    if is_apache_converted cal i eval && not (is_apache_converted cal i server)
    then server
    else if drifts eval server
    then server
    else eval

abbrev pub evaluated_at : Calendar → Info → Time → EnforcementOptions → Time
evaluated_at cal i now opts =
    attested_time cal i (elim opts.evaluation_time [ none ↦ now | some t ↦ t ])
      opts.gitlab_server_time

-- In a simulation a check only warns.
abbrev pub unless_dry_run : Bool → Option Denial → Option Denial
unless_dry_run true d = none
unless_dry_run false d = d

abbrev pub and_then : Option Denial → Option Denial → Option Denial
and_then (some d) next = some d
and_then none next = next

module _ {Claims : Type 0} (lib : Library Claims) where
  -- A token that only its scope fails is verified: `enforce` checks the scope of the active targets.
  unfoldable pub parse_and_verify_at : Text → Time → Verification Claims
  parse_and_verify_at token time =
      if is_empty (trim_space token)
      then rejected none false (external (codes "license token cannot be empty"))
      else elim lib.new_validator [
        | some err ↦ rejected none false err
        | none ↦ elim (lib.verify_with_result_at (trim_space token) time) [
          | authentic claims grace ↦ verified claims grace
          | scope_mismatch err ↦ elim (lib.inspect (trim_space token)) [
            | some claims ↦ verified claims (lib.is_in_grace_period_at claims time)
            | none ↦
                rejected (some (record { valid = false; in_grace_period = false; claims = none }))
                  false err
          ]
          | invalid revoked err ↦
              rejected
                (some (record {
                  valid = false;
                  in_grace_period = false;
                  claims = lib.inspect (trim_space token);
                }))
                revoked err
        ]
      ]

  unfoldable pub is_host_allowed : Claims → Text → Bool
  is_host_allowed claims url =
      not (has_items (lib.scope_hosts claims)) || lib.host_allowed claims url

  unfoldable pub is_namespace_allowed : Claims → Text → Bool
  is_namespace_allowed claims path =
      not (has_items (lib.scope_namespaces claims)) || lib.namespace_allowed claims path

  unfoldable pub path_denial : Claims → List Text → Option Denial
  path_denial claims [] = none
  path_denial claims (path ∷ paths) =
      let rest = path_denial claims paths in
      if is_namespace_allowed claims path then rest else some (group_mismatch path)

  unfoldable pub feature_denial : Claims → List Text → Option Denial
  feature_denial claims [] = none
  feature_denial claims (feat ∷ feats) =
      let rest = feature_denial claims feats in
      if is_community_feature feat then rest else elim (lib.assert_feature claims feat) [
        | none ↦ rest
        | some err ↦ some (feature_not_entitled feat (required_tier_for_feature feat) err)
      ]

  abbrev pub capacity_denial : Claims → ℕ → Option Denial
  capacity_denial claims n = elim (lib.check_limit claims (codes "max_projects") n) [
    | none ↦ none
    | some err ↦ some capacity_exceeded
  ]

  abbrev pub host_denial : Claims → Text → Option Denial
  host_denial claims url = if is_host_allowed claims url then none else some host_mismatch

  -- The checks on verified claims: capacity, host, groups, features.
  unfoldable pub check_claims : EnforcementOptions → Claims → Option Denial
  check_claims opts claims =
      and_then (unless_dry_run opts.is_dry_run (capacity_denial claims opts.discovered_projects)) (
        and_then (unless_dry_run opts.is_dry_run (host_denial claims opts.gitlab_base_url)) (
          and_then (unless_dry_run opts.is_dry_run (path_denial claims opts.target_paths))
            (unless_dry_run opts.is_dry_run (feature_denial claims opts.required_features))))

  abbrev pub plain_status : ValidationStatus Claims
  plain_status = record { valid = true; in_grace_period = false; claims = none }

  -- The execution with a token, on the answer of `parse_and_verify_at`.
  unfoldable pub enforce_licensed : EnforcementOptions → Verification Claims → Decision Claims
  enforce_licensed opts (rejected status revoked err) =
      if opts.is_dry_run
      then permitted plain_status
      else denied status (if revoked then license_revoked err else verification_failed err)
  enforce_licensed opts (verified claims grace) =
      let status : ValidationStatus Claims = record {
        valid = true;
        in_grace_period = grace;
        claims = some claims;
      } in
      elim (check_claims opts claims) [
        | none ↦ permitted status
        | some why ↦ denied (some status) why
      ]

  unfoldable pub subscription_denial : List Text → Option Denial
  subscription_denial [] = none
  subscription_denial (feat ∷ feats) =
      let rest = subscription_denial feats in
      if is_community_feature feat
      then rest
      else some (feature_requires_subscription feat (required_tier_for_feature feat))

  -- The execution without a token.
  unfoldable pub enforce_unlicensed : Calendar → Info → EnforcementOptions → Time → Decision Claims
  enforce_unlicensed cal i opts time =
      elim (unless_dry_run opts.is_dry_run (subscription_denial opts.required_features)) [
        | some why ↦ denied none why
        | none ↦
            if opts.is_dry_run
            then permitted plain_status
            else if lib.evaluate_entitlement (get_bsl_policy cal i) (usage_request lib opts time)
            then permitted plain_status
            else denied none license_required
      ]

  -- `Enforce`, on a local clock that reads `now`.
  unfoldable pub enforce : Calendar → Info → Time → EnforcementOptions → Decision Claims
  enforce cal i now opts =
      let time = evaluated_at cal i now opts in
      if is_apache_converted cal i time
      then permitted plain_status
      else elim (resolve_token lib opts.license_key opts.license_file) [
        | fail err ↦ denied none (token_unresolved err)
        | ok token ↦
            if is_empty token
            then enforce_unlicensed cal i opts time
            else enforce_licensed opts (parse_and_verify_at token time)
      ]
