-- ===== src/License/Enforce/Clock.antt =====
-- The clock check of internal/license/enforcer.go: a local clock that was set forward gains nothing.
use gitlab_fleet_governor.Common.{
  true, false, some, not, ◌&&◌, ◌≡◌, ◌⊎◌, inl, inr, refl, arith, Bool-cases,
}
use gitlab_fleet_governor.Resources.{Time}
use gitlab_fleet_governor.License.Version.{Info, Calendar, is_apache_converted}
use gitlab_fleet_governor.License.Enforce.{drifts, attested_time}

-- Where the server's time is known, the license counts as converted only if the server's time has it
-- converted.
pub attested_time-converted :
    (cal : Calendar) (i : Info) (eval server : Time)
    → is_apache_converted cal i (attested_time cal i eval (some server)) ≡ true
    → is_apache_converted cal i server ≡ true
unfolding attested_time
attested_time-converted cal i eval server h =
    elim (Bool-cases (is_apache_converted cal i eval && not (is_apache_converted cal i server))) [
      | inl forward ↦ rw forward at h
      | inr honest ↦ elim (Bool-cases (drifts eval server)) [
        | inl off ↦ rw (honest, off) at h
        | inr near ↦ let local = rw (honest, near) at h in ground (arith, local, honest)
      ]
    ]

-- The evaluated time is the server's, or the local one and then within an hour of the server's.
pub attested_time-near :
    (cal : Calendar) (i : Info) (eval server : Time)
    → (attested_time cal i eval (some server) ≡ server)
      ⊎ ((attested_time cal i eval (some server) ≡ eval) × (drifts eval server ≡ false))
unfolding attested_time
attested_time-near cal i eval server =
    elim (Bool-cases (is_apache_converted cal i eval && not (is_apache_converted cal i server))) [
      | inl forward ↦ rw forward (inl refl)
      | inr honest ↦ elim (Bool-cases (drifts eval server)) [
        | inl off ↦ rw (honest, off) (inl refl)
        | inr near ↦ inr (rw (honest, near) refl, near)
      ]
    ]
