-- ===== src/Config/Validator.antt =====
-- internal/config/validator.go: what a validation reports, and how a list of entries is checked. The
-- functions return the errors that the code appends to its list.
pub mod Seen
pub mod Settings
pub mod Targets
pub mod Variables
pub mod Access
pub mod Branches
pub mod Members
pub mod Environments
pub mod Project
pub mod Files
pub mod Policies
use gitlab_fleet_governor.Common.{
  ℕ, suc, Bool, true, false, not, ◌&&◌, List, [], ◌∷◌, ◌++◌, if◌then◌else◌, contains,
}
use gitlab_fleet_governor.Common.Int.{ℤ, pos, ltb_ℤ}
use gitlab_fleet_governor.Common.Text.{Text, text_eq, codes, is_empty, to_lower}

-- A step of the path in `Field`: a name after a dot, or an index in brackets.
pub data Step : Type 0 where
  key : Text → Step
  item : ℕ → Step

abbrev pub Path_ : Type 0
Path_ = List Step

-- What `Message` says; the constructors stand for its texts.
pub data Problem : Type 0 where
  nil_config negative not_positive not_allowed empty bad_path bad_regex inverted : Problem
  bad_key too_short bad_characters duplicate bad_level same_branch bad_date shadows : Problem
  traversal no_content two_contents content_with_parts below_one no_framework bad_url : Problem
  no_approvers : Problem

-- The value that an error shows.
pub data Shown : Type 0 where
  nothing redacted : Shown
  text : Text → Shown
  number : ℤ → Shown

-- `ValidationError` and `ValidationWarning`
pub record ValidationError : Type 0 where
  pub field : Path_
  pub problem : Problem
  pub value : Shown

abbrev pub Errors : Type 0
Errors = List ValidationError

-- The field `name` below the field `prefix`.
abbrev pub below : Path_ → Text → Path_
below prefix name = prefix ++ key name ∷ []

abbrev pub at_index : Path_ → ℕ → Path_
at_index prefix i = prefix ++ item i ∷ []

-- `if bad { errs = append(errs, ...) }`
abbrev pub report : Bool → Path_ → Problem → Shown → Errors
report true field problem value = record { field = field; problem = problem; value = value } ∷ []
report false field problem value = []

-- `for i, x := range xs`
unfoldable pub each : {A : Type 0} → (ℕ → A → Errors) → ℕ → List A → Errors
each check i [] = []
each check i (x ∷ xs) = check i x ++ each check (suc i) xs

-- A number that must not be negative.
unfoldable pub check_non_negative : ℤ → Path_ → Errors
check_non_negative n field = report (ltb_ℤ n (pos 0)) field Problem.negative (Shown.number n)

-- `if s != "" { switch s { case allowed...: default: errs = append(errs, ...) } }`
unfoldable pub check_choice : List Text → Text → Text → Path_ → Errors
check_choice allowed s shown field =
    report (not (is_empty shown) && not (contains s allowed)) field Problem.not_allowed
      (Shown.text shown)

unfoldable pub check_regex : (Text → Bool) → Text → Path_ → Errors
check_regex compiles pattern field =
    report (not (is_empty pattern) && not (compiles pattern)) field Problem.bad_regex
      (Shown.text pattern)
