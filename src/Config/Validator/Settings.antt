-- ===== src/Config/Validator/Settings.antt =====
-- internal/config/validator.go: validateSettings and validateGitLabSettings.
pub mod Defaulted
use gitlab_fleet_governor.Common.{
  ℕ, suc, Bool, true, false, not, ◌&&◌, ◌||◌, Option, some, none, List, [], ◌∷◌, ◌++◌,
  if◌then◌else◌, contains, ◌==◌,
}
use gitlab_fleet_governor.Common.Int.{ℤ, pos, int_eq, ltb_ℤ}
use gitlab_fleet_governor.Common.Text.{
  Text, text_eq, codes, is_empty, to_lower, trim_space, has_prefix,
}
use gitlab_fleet_governor.Config.Validator.{
  Path_, key, item, Problem, Shown, ValidationError, Errors, below, at_index, report, each,
  check_non_negative, check_choice, check_regex,
}
use gitlab_fleet_governor.Config.Model.{GitlabSettings, Settings}

-- `rps` is RateLimitRPS as it is printed, where it is negative.
unfoldable pub check_rps : Option Text → Path_ → Errors
check_rps none field = []
check_rps (some shown) field = report true field Problem.negative (Shown.text shown)

unfoldable pub validate_gitlab_settings : Option Text → GitlabSettings → Path_ → Errors
unfolding check_choice check_non_negative check_rps
validate_gitlab_settings rps g prefix =
    check_choice (codes "private_token" ∷ codes "oauth" ∷ codes "job_token" ∷ [])
      (to_lower g.token_type) g.token_type (below prefix (codes "token_type"))
    ++ (check_non_negative g.timeout_seconds (below prefix (codes "timeout_seconds"))
        ++ (check_rps rps (below prefix (codes "rate_limit_rps"))
            ++ (check_non_negative g.rate_limit_burst (below prefix (codes "rate_limit_burst"))
                ++ (check_non_negative g.max_retries (below prefix (codes "max_retries"))
                    ++ (check_non_negative g.retry_base_delay_ms
                          (below prefix (codes "retry_base_delay_ms"))
                        ++ (check_non_negative g.retry_max_delay_ms
                              (below prefix (codes "retry_max_delay_ms"))
                            ++ report
                                (ltb_ℤ (pos 0) g.retry_base_delay_ms
                                  && ltb_ℤ (pos 0) g.retry_max_delay_ms
                                  && ltb_ℤ g.retry_max_delay_ms g.retry_base_delay_ms)
                                (below prefix (codes "retry_base_delay_ms")) Problem.inverted
                                Shown.nothing))))))

unfoldable pub validate_settings : Option Text → Settings → Path_ → Errors
unfolding check_choice check_non_negative validate_gitlab_settings
validate_settings rps s prefix =
    check_non_negative s.concurrency (below prefix (codes "concurrency"))
    ++ (check_choice (codes "debug" ∷ codes "info" ∷ codes "warn" ∷ codes "error" ∷ [])
          (to_lower s.log_level) s.log_level (below prefix (codes "log_level"))
        ++ (check_choice (codes "text" ∷ codes "json" ∷ []) (to_lower s.log_format) s.log_format
              (below prefix (codes "log_format"))
            ++ (check_choice (codes "table" ∷ codes "json" ∷ codes "csv" ∷ codes "markdown" ∷ [])
                  (to_lower s.report_format) s.report_format (below prefix (codes "report_format"))
                ++ validate_gitlab_settings rps s.gitlab (below prefix (codes "gitlab")))))
