-- ===== src/Config/Validator/Project.antt =====
-- internal/config/validator.go: the checks of push rules, project settings, retention, runners, compliance
-- and webhooks, with what they read of the types of internal/config/model.go.
use gitlab_fleet_governor.Common.{
  ℕ, Bool, true, false, not, ◌&&◌, ◌||◌, Option, some, none, List, [], ◌∷◌, ◌++◌, if◌then◌else◌,
  contains, ◌==◌,
}
use gitlab_fleet_governor.Common.Int.{ℤ, pos, int_eq}
use gitlab_fleet_governor.Common.Text.{Text, text_eq, codes, is_empty, trim_space}
use gitlab_fleet_governor.Config.Validator.{
  Path_, Problem, Shown, Errors, below, at_index, report, each, check_non_negative, check_choice,
  check_regex,
}

-- `PushRulesConfig`
pub record PushRules : Type 0 where
  pub author_email_regex : Text
  pub branch_name_regex : Text
  pub commit_message_regex : Text
  pub commit_message_negative_regex : Text
  pub file_name_regex : Text
  pub max_file_size : Option ℤ

-- `ContainerExpirationPolicyConfig` and `ProjectSettingsConfig`
pub record ExpirationPolicy : Type 0 where
  pub cadence : Text
  pub keep_n : Option ℤ
  pub older_than : Text
  pub name_regex : Text
  pub name_regex_delete : Text
  pub name_regex_keep : Text

pub record ProjectSettings : Type 0 where
  pub squash_option : Text
  pub merge_method : Text
  pub auto_cancel_pending_pipelines : Text
  pub container_expiration_policy : Option ExpirationPolicy

-- `RunnerConfig`, `ComplianceConfig` and the scheme and the host of a URL
pub record Runner : Type 0 where
  pub access_level : Text
  pub maximum_timeout : Option ℤ

pub record Compliance : Type 0 where
  pub framework_name : Text
  pub framework_id : Option ℤ

pub record Uri : Type 0 where
  pub scheme : Text
  pub host : Text

abbrev pub with_value : {A : Type 0} → Option A → (A → Errors) → Errors
with_value none check = []
with_value (some x) check = check x

-- A text that is missing or among those allowed, as it is written.
abbrev pub among : List Text → Text → Path_ → Errors
among allowed s = check_choice allowed s s

module _ (compiles : Text → Bool) where
  unfoldable pub validate_push_rules : PushRules → Path_ → Errors
  unfolding check_regex check_non_negative
  validate_push_rules r prefix =
      check_regex compiles r.author_email_regex (below prefix (codes "author_email_regex"))
      ++ (check_regex compiles r.branch_name_regex (below prefix (codes "branch_name_regex"))
          ++ (check_regex compiles r.commit_message_regex
                (below prefix (codes "commit_message_regex"))
              ++ (check_regex compiles r.commit_message_negative_regex
                    (below prefix (codes "commit_message_negative_regex"))
                  ++ (check_regex compiles r.file_name_regex
                        (below prefix (codes "file_name_regex"))
                      ++ with_value r.max_file_size
                          (λ n. check_non_negative n (below prefix (codes "max_file_size")))))))

  unfoldable pub validate_expiration_policy : ExpirationPolicy → Path_ → Errors
  unfolding check_regex check_choice
  validate_expiration_policy c prefix =
      among (codes "1d" ∷ codes "7d" ∷ codes "14d" ∷ codes "30d" ∷ codes "60d" ∷ codes "90d" ∷ [])
        c.cadence (below prefix (codes "cadence"))
      ++ (among (codes "7d" ∷ codes "14d" ∷ codes "30d" ∷ codes "60d" ∷ codes "90d" ∷ [])
            c.older_than (below prefix (codes "older_than"))
          ++ (with_value c.keep_n (λ n.
                report
                  (not
                    (contains n (pos 0 ∷ pos 1 ∷ pos 5 ∷ pos 10 ∷ pos 25 ∷ pos 50 ∷ pos 100 ∷ [])))
                  (below prefix (codes "keep_n")) Problem.not_allowed (Shown.number n))
              ++ (check_regex compiles c.name_regex (below prefix (codes "name_regex"))
                  ++ (check_regex compiles c.name_regex_delete
                        (below prefix (codes "name_regex_delete"))
                      ++ check_regex compiles c.name_regex_keep
                          (below prefix (codes "name_regex_keep"))))))

  unfoldable pub validate_project_settings : ProjectSettings → Path_ → Errors
  unfolding check_choice validate_expiration_policy
  validate_project_settings p prefix =
      among (codes "never" ∷ codes "always" ∷ codes "default_on" ∷ codes "default_off" ∷ [])
        p.squash_option (below prefix (codes "squash_option"))
      ++ (among (codes "merge" ∷ codes "rebase_merge" ∷ codes "ff" ∷ []) p.merge_method
            (below prefix (codes "merge_method"))
          ++ (among (codes "enabled" ∷ codes "disabled" ∷ []) p.auto_cancel_pending_pipelines
                (below prefix (codes "auto_cancel_pending_pipelines"))
              ++ with_value p.container_expiration_policy (λ c.
                validate_expiration_policy c (below prefix (codes "container_expiration_policy")))))

unfoldable pub validate_pipeline_retention : ℤ → Path_ → Errors
unfolding check_non_negative
validate_pipeline_retention days prefix =
    check_non_negative days (below prefix (codes "retention_days"))

unfoldable pub check_runner : Path_ → ℕ → Runner → Errors
unfolding check_choice check_non_negative
check_runner prefix i r =
    among (codes "ref_protected" ∷ codes "not_protected" ∷ []) r.access_level
      (below (at_index prefix i) (codes "access_level"))
    ++ with_value r.maximum_timeout
        (λ n. check_non_negative n (below (at_index prefix i) (codes "maximum_timeout")))

unfoldable pub validate_runners : List Runner → Path_ → Errors
unfolding each check_runner
validate_runners runners prefix = each (check_runner (below prefix (codes "runners"))) 0 runners

abbrev is_absent : Option ℤ → Bool
is_absent none = true
is_absent (some n) = false

unfoldable pub validate_compliance : Compliance → Path_ → Errors
validate_compliance c prefix =
    report (is_empty (trim_space c.framework_name) && is_absent c.framework_id) prefix
      Problem.no_framework Shown.nothing

abbrev is_web : Option Uri → Bool
is_web none = false
is_web (some u) = (u.scheme == codes "http" || u.scheme == codes "https") && not (is_empty u.host)

-- `parse_uri` is url.ParseRequestURI.
unfoldable pub validate_webhook : (Text → Option Uri) → Text → Path_ → Errors
validate_webhook parse_uri url prefix =
    if is_empty (trim_space url)
    then report true (below prefix (codes "url")) Problem.empty Shown.nothing
    else report (not (is_web (parse_uri url))) (below prefix (codes "url")) Problem.bad_url
        (Shown.text url)
