-- ===== src/Config/Validator/Settings/Defaulted.antt =====
-- internal/config: settings whose defaults are filled in before they are validated, as Load does.
use gitlab_fleet_governor.Common.{
  ℕ, zero, suc, true, false, none, List, [], ◌∷◌, ◌≡◌, ◌⊎◌, ◌↔◌, refl, arith, In, contains_iff, inl,
  inr, ◌&&◌,
}
use gitlab_fleet_governor.Common.Int.{ℤ, pos, negsuc, ltb_ℤ}
use gitlab_fleet_governor.Common.Text.{Text, text_eq, codes, to_lower, lower_byte}
use gitlab_fleet_governor.Config.Model.{
  Settings, GitlabSettings, positive_or, text_or, gitlab_set_defaults, set_defaults,
}
use gitlab_fleet_governor.Config.Validator.Seen.{append-nil_iff, both_iff}
use gitlab_fleet_governor.Config.Validator.{
  Path_, below, check_choice, check_non_negative, report, Problem, Shown,
}
use gitlab_fleet_governor.Config.Validator.Settings.{
  check_rps, validate_gitlab_settings, validate_settings,
}

-- A text that is missing or, case aside, one of those allowed.
abbrev pub Choice : List Text → Text → Type 0
Choice allowed s = (s ≡ []) ⊎ In (to_lower s) allowed

check_choice_iff :
    (allowed : List Text) (default s : Text) (field : Path_)
    → In (to_lower default) allowed
    → (check_choice allowed (to_lower (text_or default s)) (text_or default s) field ≡ [])
      ↔ Choice allowed s
unfolding check_choice text_or
check_choice_iff allowed default [] field h =
    ground (arith, contains_iff (to_lower default) allowed, h)
check_choice_iff allowed default (c ∷ s) field h =
    ground (arith, contains_iff (to_lower (c ∷ s)) allowed)

positive_or-non_negative :
    (d : ℕ) (z : ℤ) (field : Path_) → check_non_negative (positive_or d z) field ≡ []
unfolding check_non_negative positive_or
positive_or-non_negative d (pos zero) field = ground arith
positive_or-non_negative d (pos (suc n)) field = ground arith
positive_or-non_negative d (negsuc n) field = ground arith

positive_or-positive : (d : ℕ) (z : ℤ) → ltb_ℤ (pos 0) (positive_or (suc d) z) ≡ true
unfolding positive_or
positive_or-positive d (pos zero) = ground arith
positive_or-positive d (pos (suc n)) = ground arith
positive_or-positive d (negsuc n) = ground arith

-- The delay between retries is positive, so the two are always compared.
delays_iff :
    (base max : ℤ) (field : Path_)
    → (report
          (ltb_ℤ (pos 0) (positive_or 500 base)
            && ltb_ℤ (pos 0) (positive_or 30000 max)
            && ltb_ℤ (positive_or 30000 max) (positive_or 500 base))
          field
          Problem.inverted
          Shown.nothing
        ≡ [])
      ↔ (ltb_ℤ (positive_or 30000 max) (positive_or 500 base) ≡ false)
delays_iff base max field =
    ground (arith, positive_or-positive 499 base, positive_or-positive 29999 max)

abbrev pub log_levels : List Text
log_levels = codes "debug" ∷ codes "info" ∷ codes "warn" ∷ codes "error" ∷ []

abbrev pub log_formats : List Text
log_formats = codes "text" ∷ codes "json" ∷ []

abbrev pub report_formats : List Text
report_formats = codes "table" ∷ codes "json" ∷ codes "csv" ∷ codes "markdown" ∷ []

abbrev pub token_types : List Text
token_types = codes "private_token" ∷ codes "oauth" ∷ codes "job_token" ∷ []

-- The settings of GitLab that are accepted after their defaults.
abbrev pub Accepts : GitlabSettings → Type 0
Accepts g =
    Choice token_types g.token_type
    × (ltb_ℤ (positive_or 30000 g.retry_max_delay_ms) (positive_or 500 g.retry_base_delay_ms)
        ≡ false)

gitlab_iff :
    (g : GitlabSettings) (prefix : Path_)
    → (validate_gitlab_settings none (gitlab_set_defaults g) prefix ≡ []) ↔ Accepts g
unfolding validate_gitlab_settings gitlab_set_defaults check_rps to_lower lower_byte
gitlab_iff g prefix =
    rw
      (
        positive_or-non_negative 30 g.timeout_seconds (below prefix (codes "timeout_seconds")),
        positive_or-non_negative 50 g.rate_limit_burst (below prefix (codes "rate_limit_burst")),
        positive_or-non_negative 3 g.max_retries (below prefix (codes "max_retries")),
        positive_or-non_negative 500 g.retry_base_delay_ms
            (below prefix (codes "retry_base_delay_ms")),
        positive_or-non_negative 30000 g.retry_max_delay_ms
            (below prefix (codes "retry_max_delay_ms")),
      )
      (ground (
        arith,
        append-nil_iff (
            check_choice token_types (to_lower (text_or (codes "private_token") g.token_type))
              (text_or (codes "private_token") g.token_type) (below prefix (codes "token_type"))),
        check_choice_iff token_types (codes "private_token") g.token_type
            (below prefix (codes "token_type")) (inl refl),
        delays_iff g.retry_base_delay_ms g.retry_max_delay_ms
            (below prefix (codes "retry_base_delay_ms")),
      ))

-- Settings pass the validation after their defaults are filled in exactly where log level, log format, report format
-- and token type are missing or among those allowed, case aside, and the base delay between retries, defaults
-- included, does not exceed the longest. No number that is given is reported for its sign.
pub validate-set_defaults_iff :
    (s : Settings) (prefix : Path_)
    → (validate_settings none (set_defaults s) prefix ≡ []) ↔ (
        Choice log_levels s.log_level
        × (Choice log_formats s.log_format
            × (Choice report_formats s.report_format × Accepts s.gitlab)))
unfolding validate_settings set_defaults to_lower lower_byte
validate-set_defaults_iff s prefix =
    rw (positive_or-non_negative 10 s.concurrency (below prefix (codes "concurrency"))) (
      both_iff
        (check_choice_iff log_levels (codes "info") s.log_level (below prefix (codes "log_level"))
          (inr (inl refl)))
        (both_iff
          (check_choice_iff log_formats (codes "text") s.log_format
            (below prefix (codes "log_format")) (inl refl))
          (both_iff
            (check_choice_iff report_formats (codes "table") s.report_format
              (below prefix (codes "report_format")) (inl refl))
            (gitlab_iff s.gitlab (below prefix (codes "gitlab"))))))
