-- ===== src/Governance/ProtectedBranches/Options.antt =====
-- internal/governance/protectedbranches.go: the options of the calls that protect a branch.
use gitlab_fleet_governor.Common.{
  Bool, true, false, ◌&&◌, Option, some, none, List, [], ◌∷◌, map, ◌==◌, if◌then◌else◌,
}
use gitlab_fleet_governor.Common.Int.{ℤ, pos, int_eq, ltb_ℤ}
use gitlab_fleet_governor.Common.Text.{Text}
use gitlab_fleet_governor.Governance.Operation.{has_items}
use gitlab_fleet_governor.Governance.ProtectedBranches.Rules.{
  AccessDescription, ProtectedBranchRule,
}

-- `gogitlab.BranchPermissionOptions` and `gogitlab.ProtectRepositoryBranchesOptions`
pub record PermissionOptions : Type 0 where
  pub access_level : Option ℤ
  pub user_id : Option ℤ
  pub group_id : Option ℤ
  pub deploy_key_id : Option ℤ

pub record ProtectOptions : Type 0 where
  pub name : Text
  pub push_access_level : Option ℤ
  pub merge_access_level : Option ℤ
  pub unprotect_access_level : Option ℤ
  pub allow_force_push : Option Bool
  pub allowed_to_push : Option (List PermissionOptions)
  pub allowed_to_merge : Option (List PermissionOptions)
  pub allowed_to_unprotect : Option (List PermissionOptions)
  pub code_owner_approval_required : Option Bool

abbrev positive : ℤ → Option ℤ
positive n = if ltb_ℤ (pos 0) n then some n else none

unfoldable pub to_branch_permission_options : List AccessDescription → List PermissionOptions
to_branch_permission_options = map (λ (d : AccessDescription). record {
  access_level = positive d.access_level;
  user_id = positive d.user_id;
  group_id = positive d.group_id;
  deploy_key_id = positive d.deploy_key_id;
})

abbrev permissions : List AccessDescription → Option (List PermissionOptions)
permissions ds = if has_items ds then some (to_branch_permission_options ds) else none

-- The access level of the one entry that names no user, group and, if `keys`, deploy key.
abbrev single_level : Bool → List AccessDescription → Option ℤ
single_level keys (d ∷ []) =
    if d.user_id == pos 0
      && d.group_id == pos 0
      && (if keys then d.deploy_key_id == pos 0 else true)
    then some d.access_level
    else none
single_level keys _ = none

unfoldable pub to_protect_options : ProtectedBranchRule → ProtectOptions
unfolding to_branch_permission_options
to_protect_options rule = record {
  name = rule.name;
  push_access_level = single_level true rule.allowed_to_push;
  merge_access_level = single_level false rule.allowed_to_merge;
  unprotect_access_level = single_level false rule.allowed_to_unprotect;
  allow_force_push = rule.allow_force_push;
  allowed_to_push = permissions rule.allowed_to_push;
  allowed_to_merge = permissions rule.allowed_to_merge;
  allowed_to_unprotect = permissions rule.allowed_to_unprotect;
  code_owner_approval_required = rule.code_owner_approval_required;
}
