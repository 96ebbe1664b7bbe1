-- ===== src/Resources.antt =====
-- The resources that the program passes around: what it reads of client-go's Project and Group, and
-- the targets that discovery makes of them (internal/discovery/discovery.go).
use gitlab_fleet_governor.Common.{ℕ, Bool, Option, List}
use gitlab_fleet_governor.Common.Int.{ℤ}
use gitlab_fleet_governor.Common.Text.{Text}

-- A `time.Time`, in nanoseconds since a fixed epoch.
abbrev pub Time : Type 0
Time = ℤ

-- `*gitlab.Project`. `namespace` is `Namespace.FullPath` behind the pointer `Namespace`.
pub record Project : Type 0 where
  pub id : ℤ
  pub name : Text
  pub path : Text
  pub path_with_namespace : Text
  pub default_branch : Text
  pub visibility : Text
  pub archived : Bool
  pub marked_for_deletion_at : Option Time
  pub namespace : Option Text
  pub topics : List Text
  pub tag_list : List Text

-- `*gitlab.Group`
pub record Group : Type 0 where
  pub id : ℤ
  pub name : Text
  pub path : Text
  pub full_path : Text
  pub parent_id : ℤ
  pub visibility : Text
  pub description : Text
  pub web_url : Text

pub record TargetProject : Type 0 where
  pub id : ℤ
  pub name : Text
  pub path : Text
  pub path_with_namespace : Text
  pub default_branch : Text
  pub visibility : Text
  pub archived : Bool
  pub marked_for_deletion : Bool
  pub marked_for_deletion_at : Option Time
  pub topics : List Text
  pub namespace_full_path : Text
  pub parent_group_id : ℤ
  pub raw : Option Project

pub record TargetGroup : Type 0 where
  pub id : ℤ
  pub name : Text
  pub path : Text
  pub full_path : Text
  pub parent_id : ℤ
  pub raw : Option Group

-- `TargetFleet`. Its maps from identifiers keep the order of insertion.
pub record TargetFleet : Type 0 where
  pub projects : List (ℤ × TargetProject)
  pub groups : List (ℤ × TargetGroup)
  pub scanned_projects_count : ℕ
  pub scanned_groups_count : ℕ
  pub matched_projects_count : ℕ
  pub matched_groups_count : ℕ
