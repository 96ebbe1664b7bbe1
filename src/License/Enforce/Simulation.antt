-- ===== src/License/Enforce/Simulation.antt =====
-- Simulations under internal/license/enforcer.go.
use gitlab_fleet_governor.Common.{true, false, none, ◌≡◌, ◌⊎◌, inl, inr, refl, Bool-cases}
use gitlab_fleet_governor.Common.Text.{Text, is_empty}
use gitlab_fleet_governor.Resources.{Time}
use gitlab_fleet_governor.Governance.Operation.{Error, ok, fail, Reply-cases}
use gitlab_fleet_governor.License.Version.{Info, Calendar, is_apache_converted}
use gitlab_fleet_governor.License.Enforce.{
  EnforcementOptions, Library, ValidationStatus, token_unresolved, Decision, permitted, denied,
  Verification, verified, rejected, evaluated_at, resolve_token, parse_and_verify_at, enforce,
  enforce_licensed, enforce_unlicensed, check_claims,
}

abbrev pub IsPermitted : {Claims : Type 0} → Decision Claims → Type 0
IsPermitted {Claims} d = (status : ValidationStatus Claims) × (d ≡ permitted status)

module _ {Claims : Type 0} (lib : Library Claims) (cal : Calendar) (i : Info) (now : Time) where
  licensed_dry_run :
      (opts : EnforcementOptions) (answer : Verification Claims)
      → opts.is_dry_run ≡ true
      → IsPermitted (enforce_licensed lib opts answer)
  unfolding enforce_licensed check_claims
  licensed_dry_run opts (rejected status revoked err) dry = rw dry (_, refl)
  licensed_dry_run opts (verified claims grace) dry = rw dry (_, refl)

  unlicensed_dry_run :
      (opts : EnforcementOptions) (time : Time)
      → opts.is_dry_run ≡ true
      → IsPermitted (enforce_unlicensed lib cal i opts time)
  unfolding enforce_unlicensed
  unlicensed_dry_run opts time dry = rw dry (_, refl)

  -- What becomes of a simulation: the license has converted; or it has not, and the token is read; or
  -- it has not, and the token cannot be read.
  abbrev pub Simulated : EnforcementOptions → Type 0
  Simulated opts =
      ((is_apache_converted cal i (evaluated_at cal i now opts) ≡ true)
        × IsPermitted (enforce lib cal i now opts))
      ⊎ ((is_apache_converted cal i (evaluated_at cal i now opts) ≡ false)
          × (((token : Text) × (resolve_token lib opts.license_key opts.license_file ≡ ok token)
                × IsPermitted (enforce lib cal i now opts))
              ⊎ ((err : Error) × (resolve_token lib opts.license_key opts.license_file ≡ fail err)
                  × (enforce lib cal i now opts ≡ denied none (token_unresolved err)))))

  -- A simulation is permitted, whatever the token and the checks say, where the license has converted to
  -- Apache 2.0 or the token can be read. Where neither holds, it is denied with the error of the
  -- reading.
  pub enforce-dry_run : (opts : EnforcementOptions) → opts.is_dry_run ≡ true → Simulated opts
  unfolding enforce
  enforce-dry_run opts dry =
      elim (Bool-cases (is_apache_converted cal i (evaluated_at cal i now opts))) [
        | inl converted ↦ inl (converted, rw (converted, enforce) (_, refl))
        | inr bsl ↦ inr (
          bsl,
          elim (Reply-cases (resolve_token lib opts.license_key opts.license_file)) [
            | inr (err, unresolved) ↦ inr (err, unresolved, rw (bsl, unresolved, enforce) refl)
            | inl (token, resolved) ↦ inl (
              token,
              resolved,
              elim (Bool-cases (is_empty token)) [
                | inl empty ↦
                    rw (bsl, resolved, empty, enforce)
                      (unlicensed_dry_run opts (evaluated_at cal i now opts) dry)
                | inr given ↦
                    rw (bsl, resolved, given, enforce)
                      (licensed_dry_run opts
                        (parse_and_verify_at lib token (evaluated_at cal i now opts)) dry)
              ],
            )
          ],
        )
      ]
