-- ===== src/Examples/Samples.antt =====
-- Sample resources, targets and operations.
use gitlab_fleet_governor.Common.{
  ℕ, ◌+◌, true, false, Option, some, none, [], ◌∷◌, if◌then◌else◌, ltb,
}
use gitlab_fleet_governor.Common.Int.{ℤ, pos}
use gitlab_fleet_governor.Common.Text.{Text, codes}
use gitlab_fleet_governor.Resources.{Project, Group, TargetProject, TargetGroup}
use gitlab_fleet_governor.Governance.Operation.{
  ResourceType, Error, external, Operation, PlanResult, ApplyResult, new_skipped_plan_result,
  new_noop_apply_result,
}
use gitlab_fleet_governor.Governance.Registry.{OperationsRegistry}

abbrev pub widget : Project
widget = record {
  id = pos 7;
  name = codes "Widget";
  path = codes "widget";
  path_with_namespace = codes "org/tools/widget";
  default_branch = codes "main";
  visibility = codes "private";
  archived = false;
  marked_for_deletion_at = none;
  namespace = some (codes "Org/Tools/");
  topics = codes "Go" ∷ codes " go " ∷ [];
  tag_list = codes "infra" ∷ [];
}

abbrev pub group_of : ℕ → Group
group_of n = record {
  id = pos n;
  name = codes "group";
  path = codes "group";
  full_path = codes "org/group";
  parent_id = pos 0;
  visibility = codes "private";
  description = [];
  web_url = [];
}

abbrev pub target : TargetProject
target = record {
  id = pos 7;
  name = codes "Widget";
  path = codes "widget";
  path_with_namespace = codes "org/tools/widget";
  default_branch = codes "main";
  visibility = codes "private";
  archived = false;
  marked_for_deletion = false;
  marked_for_deletion_at = none;
  topics = [];
  namespace_full_path = codes "org/tools";
  parent_group_id = pos 1;
  raw = some widget;
}

abbrev pub doomed : TargetProject
doomed = record target { marked_for_deletion = true }

abbrev pub target_group : TargetGroup
target_group = record {
  id = pos 1;
  name = codes "Org";
  path = codes "org";
  full_path = codes "org";
  parent_id = pos 0;
  raw = none;
}

-- An operation that counts its calls in the world, and fails from the third call on.
abbrev pub counting_plan : Text → ℕ → (Option PlanResult × Option Error) × ℕ
counting_plan name w =
    if ltb w 2
    then ((some (new_skipped_plan_result name ResourceType.project (pos 7) [] []), none), w + 1)
    else ((none, some (external (codes "unreachable"))), w + 1)

abbrev pub counting_apply : Text → ℕ → (Option ApplyResult × Option Error) × ℕ
counting_apply name w =
    if ltb w 2
    then ((some (new_noop_apply_result name ResourceType.project (pos 7) []), none), w + 1)
    else ((none, some (external (codes "unreachable"))), w + 1)

abbrev pub counting : {Config : Type 0} → Text → ℤ → Operation Config ℕ
counting name order = record {
  name = name;
  order = order;
  plan = λ p c w. counting_plan name w;
  apply = λ p c w. counting_apply name w;
  plan_group = λ g c w. counting_plan name w;
  apply_group = λ g c w. counting_apply name w;
}

abbrev pub settings : Operation Unit ℕ
settings = counting (codes "settings") (pos 20)

abbrev pub branches : Operation Unit ℕ
branches = counting (codes "branches") (pos 10)

abbrev pub registry : OperationsRegistry Unit ℕ
registry = (codes "settings", settings) ∷ (codes "branches", branches) ∷ []

abbrev pub never : ℕ → Option Error
never n = none
