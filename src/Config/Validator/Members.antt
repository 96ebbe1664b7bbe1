-- ===== src/Config/Validator/Members.antt =====
-- internal/config/validator.go: validateMembers, with MembersConfig of internal/config/model.go. `is_date`
-- tells whether time.Parse takes a date.
use gitlab_fleet_governor.Common.{
  ℕ, Bool, false, not, ◌&&◌, ◌||◌, Option, some, none, List, [], ◌++◌, ◌==◌,
}
use gitlab_fleet_governor.Common.Int.{ℤ, pos, int_eq, ltb_ℤ}
use gitlab_fleet_governor.Common.Text.{Text, text_eq, codes, is_empty, trim_space}
use gitlab_fleet_governor.Config.Validator.{
  Path_, Problem, Shown, Errors, below, at_index, report, each,
}

-- What the validator reads of MemberRuleConfig and MembersConfig.
pub record MemberRule : Type 0 where
  pub username : Text
  pub access_level : ℤ
  pub expires_at : Text

pub record MembersConfig : Type 0 where
  pub min_access_level : Option ℤ
  pub max_access_level : Option ℤ
  pub max_expiration_days : Option ℤ
  pub allowed_members : List MemberRule

unfoldable pub is_valid_member_access_level : ℤ → Bool
is_valid_member_access_level level =
    level == pos 10 || level == pos 20 || level == pos 30 || level == pos 40 || level == pos 50

unfoldable pub check_member_level : ℤ → Path_ → Errors
unfolding is_valid_member_access_level
check_member_level level field =
    report (not (is_valid_member_access_level level)) field Problem.bad_level (Shown.number level)

abbrev pub optional : Option ℤ → Path_ → (ℤ → Path_ → Errors) → Errors
optional none field check = []
optional (some n) field check = check n field

unfoldable pub inverted_levels : Option ℤ → Option ℤ → Bool
inverted_levels (some low) (some high) = ltb_ℤ high low
inverted_levels (some low) none = false
inverted_levels none high = false

unfoldable pub check_member : (Text → Bool) → Path_ → ℕ → MemberRule → Errors
unfolding check_member_level
check_member is_date prefix i m =
    let field = at_index prefix i in
    report (is_empty (trim_space m.username)) (below field (codes "username")) Problem.empty
      Shown.nothing
    ++ (check_member_level m.access_level (below field (codes "access_level"))
        ++ report (not (is_empty m.expires_at) && not (is_date m.expires_at))
            (below field (codes "expires_at")) Problem.bad_date (Shown.text m.expires_at))

unfoldable pub validate_members : (Text → Bool) → MembersConfig → Path_ → Errors
unfolding each check_member check_member_level inverted_levels
validate_members is_date m prefix =
    optional m.min_access_level (below prefix (codes "min_access_level")) check_member_level
    ++ (optional m.max_access_level (below prefix (codes "max_access_level")) check_member_level
        ++ (report (inverted_levels m.min_access_level m.max_access_level) prefix Problem.inverted
              Shown.nothing
            ++ (optional m.max_expiration_days (below prefix (codes "max_expiration_days"))
                  (λ days field.
                    report (not (ltb_ℤ (pos 0) days)) field Problem.not_positive
                      (Shown.number days))
                ++ each (check_member is_date (below prefix (codes "allowed_members"))) 0
                    m.allowed_members)))
