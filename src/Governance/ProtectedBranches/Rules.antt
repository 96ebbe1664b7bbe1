-- ===== src/Governance/ProtectedBranches/Rules.antt =====
-- internal/governance/protectedbranches.go: the rules on protected branches, the live protections, and
-- what is compared of them. `decimal` is how package fmt writes an integer.
use gitlab_fleet_governor.Common.{
  Bool, true, false, not, ◌&&◌, Option, some, none, List, [], ◌∷◌, ◌++◌, map, ◌==◌, if◌then◌else◌,
  length, nat_beq,
}
use gitlab_fleet_governor.Common.Int.{ℤ, pos, int_eq, ltb_ℤ}
use gitlab_fleet_governor.Common.Text.{Text, text_eq, codes, text_le}
use gitlab_fleet_governor.Common.Sort.{sort}
use gitlab_fleet_governor.Governance.Operation.{ActionType, nil, text, flag, Diff, has_items}
use gitlab_fleet_governor.Governance.Diff.{
  DiffBuilder, new_diff_builder, add, add_field, build, compare_bool_ptr,
}

-- `config.BranchAccessDescription`
pub record AccessDescription : Type 0 where
  pub access_level : ℤ
  pub user_id : ℤ
  pub group_id : ℤ
  pub username : Text
  pub group_path : Text
  pub deploy_key_id : ℤ

-- `config.ProtectedBranchRuleConfig`
pub record ProtectedBranchRule : Type 0 where
  pub name : Text
  pub allowed_to_push : List AccessDescription
  pub allowed_to_merge : List AccessDescription
  pub allowed_to_unprotect : List AccessDescription
  pub allow_force_push : Option Bool
  pub code_owner_approval_required : Option Bool

-- What the program reads of client-go's BranchAccessDescription and ProtectedBranch.
pub record BranchAccess : Type 0 where
  pub access_level : ℤ
  pub user_id : ℤ
  pub group_id : ℤ

pub record ProtectedBranch : Type 0 where
  pub name : Text
  pub push_access_levels : List BranchAccess
  pub merge_access_levels : List BranchAccess
  pub unprotect_access_levels : List BranchAccess
  pub allow_force_push : Bool
  pub code_owner_approval_required : Bool

unfoldable pub live_access_to_descriptions : List BranchAccess → List AccessDescription
live_access_to_descriptions = map (λ (l : BranchAccess). record {
  access_level = l.access_level;
  user_id = l.user_id;
  group_id = l.group_id;
  username = [];
  group_path = [];
  deploy_key_id = pos 0;
})

-- The comparison of two entries at one index.
abbrev pub same_access : AccessDescription → AccessDescription → Bool
same_access a b =
    a.access_level == b.access_level && a.user_id == b.user_id && a.group_id == b.group_id

abbrev pub all_same : List AccessDescription → List AccessDescription → Bool
all_same [] bs = true
all_same (a ∷ as_) [] = false
all_same (a ∷ as_) (b ∷ bs) = same_access a b && all_same as_ bs

abbrev join_comma : List Text → Text
join_comma [] = []
join_comma (s ∷ []) = s
join_comma (s ∷ t ∷ ts) = s ++ (codes ", " ++ join_comma (t ∷ ts))

module _ (decimal : ℤ → Text) where
  -- `"%d:%d:%d"`
  unfoldable pub access_key : AccessDescription → Text
  access_key a =
      decimal a.access_level ++ (b':' ∷ (decimal a.user_id ++ (b':' ∷ decimal a.group_id)))

  abbrev pub access_le : AccessDescription → AccessDescription → Bool
  access_le a b = text_le (access_key a) (access_key b)

  unfoldable pub equal_access_descriptions : List AccessDescription → List AccessDescription → Bool
  equal_access_descriptions a b =
      nat_beq (length a) (length b) && all_same (sort access_le a) (sort access_le b)

  unfoldable pub format_access : AccessDescription → Text
  format_access d =
      if ltb_ℤ (pos 0) d.user_id
      then codes "user_id:" ++ decimal d.user_id
      else if ltb_ℤ (pos 0) d.group_id
      then codes "group_id:" ++ decimal d.group_id
      else if ltb_ℤ (pos 0) d.deploy_key_id
      then codes "deploy_key_id:" ++ decimal d.deploy_key_id
      else codes "level:" ++ decimal d.access_level

  unfoldable pub format_access_descriptions : List AccessDescription → Text
  unfolding format_access
  format_access_descriptions descs = join_comma (map format_access descs)

  -- An access list of a rule that creates a protection, and one that is compared with the live one.
  unfoldable pub add_created : Text → List AccessDescription → DiffBuilder → DiffBuilder
  unfolding format_access_descriptions
  add_created field desired b =
      if has_items desired
      then add_field b field nil (text (format_access_descriptions desired)) ActionType.create
      else b

  unfoldable pub add_compared :
      Text → List BranchAccess → List AccessDescription → DiffBuilder → DiffBuilder
  unfolding format_access_descriptions
  add_compared field live desired b =
      let current = live_access_to_descriptions live in
      if has_items desired && not (equal_access_descriptions current desired)
      then add_field b field (text (format_access_descriptions current))
          (text (format_access_descriptions desired)) ActionType.update
      else b

  abbrev add_created_flag : Text → Option Bool → DiffBuilder → DiffBuilder
  add_created_flag field none b = b
  add_created_flag field (some v) b = add_field b field nil (flag v) ActionType.create

  unfoldable pub build_create_diff : ProtectedBranchRule → Diff
  unfolding add_created
  build_create_diff rule =
      let named =
        add_field new_diff_builder (codes "name") nil (text rule.name) ActionType.create in
      let push = add_created (codes "allowed_to_push") rule.allowed_to_push named in
      let merge = add_created (codes "allowed_to_merge") rule.allowed_to_merge push in
      let unprotect = add_created (codes "allowed_to_unprotect") rule.allowed_to_unprotect merge in
      let force = add_created_flag (codes "allow_force_push") rule.allow_force_push unprotect in
      let owner =
        add_created_flag (codes "code_owner_approval_required") rule.code_owner_approval_required
          force in
      build owner (codes "protected_branch:" ++ rule.name) ActionType.create

  unfoldable pub build_update_diff : ProtectedBranch → ProtectedBranchRule → Diff
  unfolding add_compared
  build_update_diff live rule =
      let push =
        add_compared (codes "allowed_to_push") live.push_access_levels rule.allowed_to_push
          new_diff_builder in
      let merge =
        add_compared (codes "allowed_to_merge") live.merge_access_levels rule.allowed_to_merge
          push in
      let unprotect =
        add_compared (codes "allowed_to_unprotect") live.unprotect_access_levels
          rule.allowed_to_unprotect merge in
      let force =
        add unprotect (
          compare_bool_ptr (codes "allow_force_push") live.allow_force_push
            rule.allow_force_push) in
      let owner = add force (
        compare_bool_ptr (codes "code_owner_approval_required") live.code_owner_approval_required
          rule.code_owner_approval_required) in
      build owner (codes "protected_branch:" ++ rule.name) ActionType.update

unfoldable pub is_only_code_owner_approval_changed : Diff → Bool
is_only_code_owner_approval_changed d = elim d.fields [
  | f ∷ [] ↦ f.field == codes "code_owner_approval_required"
  | _ ↦ false
]
