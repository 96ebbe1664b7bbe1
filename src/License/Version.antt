-- ===== src/License/Version.antt =====
-- pkg/version/version.go: when a release was made, and when its license turns into Apache 2.0. Times
-- are read by Go's time package, which is a parameter.
use gitlab_fleet_governor.Common.{
  ℕ, Bool, false, Option, some, none, not, ◌&&◌, ◌||◌, ◌==◌, if◌then◌else◌,
}
use gitlab_fleet_governor.Common.Int.{pos, ltb_ℤ}
use gitlab_fleet_governor.Common.Text.{Text, codes, text_eq, is_empty}
use gitlab_fleet_governor.Resources.{Time}

-- `Info`, as far as the license reads it. `signed_build_date` is `Provenance.SignedClaims.BuildDate`
-- behind the pointer `SignedClaims`.
pub record Info : Type 0 where
  pub version : Text
  pub build_date : Text
  pub verified : Bool
  pub signed_build_date : Option Text

-- The time package: `time.Parse` with the three layouts, and `AddDate(years, 0, 0)`.
pub record Calendar : Type 0 where
  pub parse_rfc3339 : Text → Option Time
  pub parse_date : Text → Option Time
  pub parse_rfc3339_nano : Text → Option Time
  pub add_years : Time → ℕ → Time

abbrev pub bsl_change_period_years : ℕ
bsl_change_period_years = 3

-- September 1, 2026, in nanoseconds of the Unix epoch.
abbrev pub product_genesis_epoch : Time
product_genesis_epoch = pos 1788220800000000000

abbrev pub date_string : Info → Text
date_string i = elim i.signed_build_date [
  | none ↦ i.build_date
  | some signed ↦ if i.verified && not (is_empty signed) then signed else i.build_date
]

abbrev or_try : Option Time → Option Time → Option Time
or_try (some t) later = some t
or_try none later = later

unfoldable pub release_time : Calendar → Info → Option Time
release_time cal i =
    if is_empty (date_string i) || date_string i == codes "unknown"
    then none
    else elim (or_try (cal.parse_rfc3339 (date_string i))
        (or_try (cal.parse_date (date_string i)) (cal.parse_rfc3339_nano (date_string i)))) [
          | none ↦ none
          | some t ↦ if ltb_ℤ t product_genesis_epoch then none else some t
        ]

unfoldable pub change_date : Calendar → Info → Option Time
change_date cal i = elim (release_time cal i) [
  | none ↦ none
  | some t ↦ some (cal.add_years t bsl_change_period_years)
]

unfoldable pub is_apache_converted : Calendar → Info → Time → Bool
is_apache_converted cal i now =
    if not i.verified
    then false
    else elim (change_date cal i) [ none ↦ false | some date ↦ ltb_ℤ date now ]
