-- ===== src/Config/Validator/Access.antt =====
-- internal/config/validator.go: validateProtectedBranch and validateProtectedTag, with the types of
-- internal/config/model.go.
use gitlab_fleet_governor.Common.{
  ℕ, suc, Bool, true, false, not, ◌&&◌, ◌||◌, List, [], ◌∷◌, ◌++◌, if◌then◌else◌, contains,
}
use gitlab_fleet_governor.Common.Int.{ℤ, pos, int_eq}
use gitlab_fleet_governor.Common.Text.{Text, text_eq, codes, is_empty, trim_space}
use gitlab_fleet_governor.Config.Validator.{
  Path_, Problem, Shown, Errors, below, at_index, report, each, check_non_negative,
}
use gitlab_fleet_governor.Governance.ProtectedBranches.Rules.{
  AccessDescription, ProtectedBranchRule,
}

-- `TagAccessDescription` and `ProtectedTagRuleConfig`
pub record TagAccess : Type 0 where
  pub access_level : ℤ
  pub user_id : ℤ
  pub group_id : ℤ
  pub username : Text
  pub group_path : Text

pub record ProtectedTagRule : Type 0 where
  pub name : Text
  pub allowed_to_create : List TagAccess

unfoldable pub check_level : List ℤ → ℤ → Path_ → Errors
check_level levels level field =
    report (not (contains level levels)) field Problem.bad_level (Shown.number level)

abbrev pub branch_levels : List ℤ
branch_levels = pos 0 ∷ pos 30 ∷ pos 40 ∷ pos 60 ∷ []

abbrev pub tag_levels : List ℤ
tag_levels = pos 0 ∷ pos 30 ∷ pos 40 ∷ pos 50 ∷ pos 60 ∷ []

unfoldable pub check_branch_access : Path_ → ℕ → AccessDescription → Errors
unfolding check_level check_non_negative
check_branch_access prefix i a =
    let field = at_index prefix i in
    check_level branch_levels a.access_level (below field (codes "access_level"))
    ++ (check_non_negative a.user_id (below field (codes "user_id"))
        ++ (check_non_negative a.group_id (below field (codes "group_id"))
            ++ check_non_negative a.deploy_key_id (below field (codes "deploy_key_id"))))

unfoldable pub check_tag_access : Path_ → ℕ → TagAccess → Errors
unfolding check_level check_non_negative
check_tag_access prefix i a =
    let field = at_index prefix i in
    check_level tag_levels a.access_level (below field (codes "access_level"))
    ++ (check_non_negative a.user_id (below field (codes "user_id"))
        ++ check_non_negative a.group_id (below field (codes "group_id")))

unfoldable pub validate_protected_branch : ProtectedBranchRule → Path_ → Errors
unfolding each check_branch_access
validate_protected_branch b prefix =
    report (is_empty (trim_space b.name)) (below prefix (codes "name")) Problem.empty Shown.nothing
    ++ (each (check_branch_access (below prefix (codes "allowed_to_push"))) 0 b.allowed_to_push
        ++ (each (check_branch_access (below prefix (codes "allowed_to_merge"))) 0
              b.allowed_to_merge
            ++ each (check_branch_access (below prefix (codes "allowed_to_unprotect"))) 0
                b.allowed_to_unprotect))

abbrev is_nil : {A : Type 0} → List A → Bool
is_nil [] = true
is_nil (x ∷ xs) = false

unfoldable pub validate_protected_tag : ProtectedTagRule → Path_ → Errors
unfolding each check_tag_access
validate_protected_tag t prefix =
    report (is_empty (trim_space t.name)) (below prefix (codes "name")) Problem.empty Shown.nothing
    ++ (report (is_nil t.allowed_to_create) (below prefix (codes "allowed_to_create")) Problem.empty
          Shown.nothing
        ++ each (check_tag_access (below prefix (codes "allowed_to_create"))) 0 t.allowed_to_create)

-- The loop of validatePolicies over the rules on tags.
unfoldable pub validate_tags_from : Path_ → List Text → ℕ → List ProtectedTagRule → Errors
unfolding validate_protected_tag
validate_tags_from prefix seen i [] = []
validate_tags_from prefix seen i (t ∷ ts) =
    let name = trim_space t.name in
    let field = at_index prefix i in
    validate_protected_tag t field
    ++ (report (not (is_empty name) && contains name seen) (below field (codes "name"))
          Problem.duplicate (Shown.text name)
        ++ validate_tags_from prefix
            (if is_empty name || contains name seen then seen else name ∷ seen) (suc i) ts)
