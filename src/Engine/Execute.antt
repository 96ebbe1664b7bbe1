-- ===== src/Engine/Execute.antt =====
-- `executeProject` and `executeGroup` of internal/engine/engine.go.
pub mod Summary
pub mod DryRun
use gitlab_fleet_governor.Common.{
  ℕ, Bool, true, false, Option, some, none, List, [], ◌∷◌, ◌++◌, map, not, ◌&&◌, ◌||◌,
  if◌then◌else◌,
}
use gitlab_fleet_governor.Common.Int.{ℤ}
use gitlab_fleet_governor.Common.Text.{Text, codes}
use gitlab_fleet_governor.Resources.{TargetProject, TargetGroup}
use gitlab_fleet_governor.Governance.Operation.{
  ActionType, ResourceType, StatusType, Error, PlanResult, ApplyResult,
}
use gitlab_fleet_governor.Governance.Registry.{
  OperationsRegistry, plan_target_project, apply_target_project, plan_target_group,
  apply_target_group,
}
use gitlab_fleet_governor.Engine.Results.{
  OperationResult, TargetResult, is_some, plan_outcome, apply_outcome,
}

-- One round of the loop over the results.
absorb : TargetResult → OperationResult → TargetResult
absorb res op = record res {
  operations = res.operations ++ op ∷ [];
  has_changes = res.has_changes || op.has_changes;
  success = res.success && op.success;
}

absorb_all : TargetResult → List OperationResult → TargetResult
absorb_all res [] = res
absorb_all res (op ∷ ops) = absorb_all (absorb res op) ops

-- The statements behind the registry call: record its error, then absorb what it reports.
unfoldable pub conclude :
    {R World : Type 0} (outcome : R → OperationResult)
    → TargetResult
    → (List R × Option Error) × World
    → (TargetResult × Option Error) × World
unfolding absorb absorb_all
conclude outcome res ((rs, none), w) = ((absorb_all res (map outcome rs), none), w)
conclude outcome res ((rs, some e), w) =
    ((absorb_all (record res { success = false; error = some e }) (map outcome rs), some e), w)

unfoldable pub new_project_result : TargetProject → Bool → TargetResult
new_project_result t dry_run = record {
  target_id = t.id;
  target_path = t.path_with_namespace;
  target_name = t.name;
  resource_type = ResourceType.project;
  dry_run = dry_run;
  success = true;
  has_changes = false;
  operations = [];
  error = none;
}

unfoldable pub new_group_result : TargetGroup → Bool → TargetResult
new_group_result t dry_run = record {
  target_id = t.id;
  target_path = t.full_path;
  target_name = t.name;
  resource_type = ResourceType.group;
  dry_run = dry_run;
  success = true;
  has_changes = false;
  operations = [];
  error = none;
}

-- `target.MarkedForDeletion || target.MarkedForDeletionAt != nil || (target.Raw != nil && ...)`
unfoldable pub is_marked : TargetProject → Bool
is_marked t =
    t.marked_for_deletion
    || is_some t.marked_for_deletion_at
    || elim t.raw [ none ↦ false | some raw ↦ is_some raw.marked_for_deletion_at ]

unfoldable pub lifecycle_check : TargetProject → OperationResult
lifecycle_check t = record {
  operation_name = codes "lifecycle_check";
  resource_type = ResourceType.project;
  resource_id = t.id;
  resource_path = t.path_with_namespace;
  action = ActionType.skipped;
  status = StatusType.skipped;
  has_changes = false;
  success = true;
  diffs = [];
  details = codes "Repository is marked for deletion; skipping reconciliation";
  error = none;
}

-- The result of a project that is marked for deletion.
unfoldable pub skipped_project_result : TargetProject → Bool → TargetResult
unfolding new_project_result lifecycle_check
skipped_project_result t dry_run =
    let res = new_project_result t dry_run in
    record res { operations = res.operations ++ lifecycle_check t ∷ [] }

module _ {Config World : Type 0} (done : World → Option Error)
    (registry : OperationsRegistry Config World) (cfg : Config) where
  unfoldable pub execute_project :
      TargetProject → Bool → World → (TargetResult × Option Error) × World
  execute_project t dry_run w =
      let res = new_project_result t dry_run in
      if is_marked t
      then ((skipped_project_result t dry_run, none), w)
      else if dry_run
      then conclude plan_outcome res (plan_target_project done registry t cfg w)
      else conclude apply_outcome res (apply_target_project done registry t cfg w)

  unfoldable pub execute_group : TargetGroup → Bool → World → (TargetResult × Option Error) × World
  execute_group t dry_run w =
      let res = new_group_result t dry_run in
      if dry_run
      then conclude plan_outcome res (plan_target_group done registry t cfg w)
      else conclude apply_outcome res (apply_target_group done registry t cfg w)
