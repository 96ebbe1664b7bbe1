-- ===== src/License/Enforce/FreeTier.antt =====
-- What an execution in production without a token is granted by internal/license/enforcer.go.
use gitlab_fleet_governor.Common.{
  ℕ, ◌≤◌, Bool, true, false, Option, some, none, List, [], ◌∷◌, ◌≡◌, ◌↔◌, ◌⊎◌, inl, inr, refl, ◌∙◌,
  arith, ◌&&◌, if◌then◌else◌, leb, All, In, lookup, Bool-cases, Option-cases,
}
use gitlab_fleet_governor.Common.Int.{ltb_ℤ, ltb_ℤ_asymm}
use gitlab_fleet_governor.Common.Text.{Text, text_eq, codes}
use gitlab_fleet_governor.Resources.{Time}
use gitlab_fleet_governor.Governance.Operation.{ok}
use gitlab_fleet_governor.License.Version.{
  Info, Calendar, release_time, change_date, is_apache_converted,
}
use gitlab_fleet_governor.License.Model.{
  EnforcementOptions, Library, UsageRequest, UseGrant, non_production, free_tier, BslPolicy,
  is_community_feature,
}
use gitlab_fleet_governor.License.Policy.{match_dry_run, get_bsl_policy, environment, usage_request}
use gitlab_fleet_governor.License.Enforce.{evaluated_at, resolve_token, enforce}
use gitlab_fleet_governor.License.Enforce.Simulation.{IsPermitted}
use gitlab_fleet_governor.License.Enforce.Entitled.{unlicensed_iff}

abbrev pub amount : Text → List (Text × ℕ) → ℕ
amount name usage = elim (lookup name usage) [ none ↦ 0 | some n ↦ n ]

-- Each limit holds for the use of what it limits.
abbrev pub within : List (Text × ℕ) → List (Text × ℕ) → Bool
within [] usage = true
within ((name, limit) ∷ limits) usage = leb (amount name usage) limit && within limits usage

-- A grant that does not cover a use in production.
abbrev pub Withheld : UsageRequest → UseGrant → Type 0
Withheld request (non_production name match) = (match request).0 ≡ false
Withheld request (free_tier name limits) = within limits request.usage ≡ false

-- The license of a release has not changed at a time: the release is not dated, or the years from it
-- have not passed.
abbrev pub Unchanged : Calendar → Option Time → ℕ → Time → Type 0
Unchanged cal none years time = Unit
Unchanged cal (some released) years time = ltb_ℤ time (cal.add_years released years) ≡ true

-- What license-go documents of a policy: a use within the limits of a free tier is authorized, and a
-- use in production is not where no grant covers it and the license has not changed.
pub record IsEntitlement {Claims : Type 0} (lib : Library Claims) (cal : Calendar) : Type 0 where
  pub grants :
      (policy : BslPolicy) (request : UsageRequest) (name : Text) (limits : List (Text × ℕ))
      → In (free_tier name limits) policy.additional_use_grants
      → within limits request.usage ≡ true
      → lib.evaluate_entitlement policy request ≡ true
  pub refuses :
      (policy : BslPolicy) (request : UsageRequest)
      → request.environment ≡ codes "production"
      → Unchanged cal policy.release_date policy.change_period_years request.time
      → All (Withheld request) policy.additional_use_grants
      → lib.evaluate_entitlement policy request ≡ false

-- The release is not certified or not dated, or is less than three years old at a time.
abbrev pub IsRecent : Calendar → Info → Time → Type 0
IsRecent cal i time = (i.verified ≡ false) ⊎ Unchanged cal (release_time cal i) 3 time

certified-Unchanged :
    (cal : Calendar) (verified : Bool) (released : Option Time) (time : Time)
    → Unchanged cal released 3 time
    → Unchanged cal (if verified then released else none) 3 time
certified-Unchanged cal true released time h = h
certified-Unchanged cal false released time h = tt

module _ {Claims : Type 0} (lib : Library Claims) (cal : Calendar) (i : Info) where
  recent-converted : (time : Time) → IsRecent cal i time → is_apache_converted cal i time ≡ false
  unfolding is_apache_converted change_date
  recent-converted time (inl custom) = rw (custom, is_apache_converted) refl
  recent-converted time (inr unchanged) = elim (Option-cases (release_time cal i)) [
    | inl undated ↦ ground (arith, undated, Bool-cases i.verified)
    | inr (released, dated) ↦
        let before : ltb_ℤ time (cal.add_years released 3) ≡ true = rw dated at unchanged in
        ground
          (arith, dated, Bool-cases i.verified, ltb_ℤ_asymm time (cal.add_years released 3) before)
  ]

  recent-policy :
      (time : Time)
      → IsRecent cal i time
      → Unchanged cal
          (get_bsl_policy cal i).release_date
          (get_bsl_policy cal i).change_period_years
          time
  unfolding get_bsl_policy
  recent-policy time (inl custom) = rw custom tt
  recent-policy time (inr unchanged) =
      certified-Unchanged cal i.verified (release_time cal i) time unchanged

  usage-within :
      (opts : EnforcementOptions) (time : Time)
      → within ((codes "max_projects", 25) ∷ []) (usage_request lib opts time).usage
        ≡ leb opts.discovered_projects 25
  unfolding lookup
  usage-within opts time = ground arith

  -- The request of an execution never says that it is a simulation.
  usage-unmatched :
      (opts : EnforcementOptions) (time : Time)
      → (match_dry_run (usage_request lib opts time)).0 ≡ false
  unfolding match_dry_run lookup
  usage-unmatched opts time = refl

  entitled_iff :
      (opts : EnforcementOptions) (time : Time)
      → IsEntitlement lib cal
      → environment lib ≡ codes "production"
      → IsRecent cal i time
      → (lib.evaluate_entitlement (get_bsl_policy cal i) (usage_request lib opts time) ≡ true)
        ↔ (opts.discovered_projects ≤ 25)
  unfolding get_bsl_policy
  entitled_iff opts time e production recent =
      let policy : BslPolicy = get_bsl_policy cal i in
      let request : UsageRequest = usage_request lib opts time in
      elim (Bool-cases (leb opts.discovered_projects 25)) [
        | inl small ↦
            let granted =
              e.grants policy request (codes "Free Community Tier")
                ((codes "max_projects", 25) ∷ []) (inr (inl refl))
                (usage-within opts time ∙ small) in
            (λ h. ground (arith, small), λ h. granted)
        | inr large ↦
            let refused =
              e.refuses policy request production (recent-policy time recent)
                (usage-unmatched opts time, (usage-within opts time ∙ large, tt)) in
            (λ h. ground (arith, h, refused), λ h. ground (arith, h, large))
      ]

  -- A use in production without a token, under a local clock that reads `now`, of a release that is not
  -- certified, not dated or less than three years old, is permitted exactly if each feature that it
  -- requires is a community one and it governs at most 25 projects. (The library authorizes a use within
  -- the limits of a free tier, and none in production that no grant covers before the license changes.)
  pub enforce-free_tier_iff :
      (now : Time) (opts : EnforcementOptions)
      → IsEntitlement lib cal
      → opts.is_dry_run ≡ false
      → environment lib ≡ codes "production"
      → IsRecent cal i (evaluated_at cal i now opts)
      → resolve_token lib opts.license_key opts.license_file ≡ ok []
      → IsPermitted (enforce lib cal i now opts) ↔ (
          All (λ feat. is_community_feature feat ≡ true) opts.required_features
          × (opts.discovered_projects ≤ 25))
  unfolding enforce
  enforce-free_tier_iff now opts e live production recent resolved =
      let time : Time = evaluated_at cal i now opts in
      let bsl = recent-converted time recent in
      let decided = unlicensed_iff lib cal i now opts time live in
      let entitled = entitled_iff opts time e production recent in
      rw (bsl, resolved, enforce)
        (λ p. let d = decided.0 p in (d.0, entitled.0 d.1), λ d. decided.1 (d.0, entitled.1 d.1))
