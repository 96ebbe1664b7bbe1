-- ===== src/Engine/Results.antt =====
-- The result models of internal/engine/engine.go. Durations are not kept.
use gitlab_fleet_governor.Common.{
  ℕ, ◌+◌, Bool, true, false, Option, some, none, List, [], ◌∷◌, ◌++◌, not, ◌&&◌, ◌||◌,
  if◌then◌else◌, length,
}
use gitlab_fleet_governor.Common.Int.{ℤ}
use gitlab_fleet_governor.Common.Text.{Text}
use gitlab_fleet_governor.Governance.Operation.{
  ActionType, ResourceType, StatusType, Error, Diff, PlanResult, ApplyResult, drifted,
}

pub record OperationResult : Type 0 where
  pub operation_name : Text
  pub resource_type : ResourceType
  pub resource_id : ℤ
  pub resource_path : Text
  pub action : ActionType
  pub status : StatusType
  pub has_changes : Bool
  pub success : Bool
  pub diffs : List Diff
  pub details : Text
  pub error : Option Error

abbrev pub is_some {ℓ} : {A : Type ℓ} → Option A → Bool
is_some none = false
is_some (some a) = true

abbrev plan_status : Option Error → ActionType → StatusType
plan_status (some e) action = StatusType.failed
plan_status none ActionType.noop = StatusType.noop
plan_status none ActionType.skipped = StatusType.skipped
plan_status none _ = StatusType.success

-- `OperationResultFromPlan` of a pointer that is not nil.
unfoldable pub plan_outcome : PlanResult → OperationResult
plan_outcome pr = record {
  operation_name = pr.operation_name;
  resource_type = pr.resource_type;
  resource_id = pr.resource_id;
  resource_path = pr.resource_path;
  action = pr.action;
  status = plan_status pr.error pr.action;
  has_changes = pr.has_changes;
  success = not (is_some pr.error);
  diffs = pr.diffs;
  details = pr.details;
  error = pr.error;
}

unfoldable pub operation_result_from_plan : Option PlanResult → Option OperationResult
unfolding plan_outcome
operation_result_from_plan none = none
operation_result_from_plan (some pr) = some (plan_outcome pr)

-- `OperationResultFromApply` of a pointer that is not nil.
unfoldable pub apply_outcome : ApplyResult → OperationResult
apply_outcome ar = record {
  operation_name = ar.operation_name;
  resource_type = ar.resource_type;
  resource_id = ar.resource_id;
  resource_path = ar.resource_path;
  action = ar.action;
  status = ar.status;
  has_changes = drifted ar.action ar.diffs;
  success = ar.success;
  diffs = ar.diffs;
  details = ar.details;
  error = ar.error;
}

unfoldable pub operation_result_from_apply : Option ApplyResult → Option OperationResult
unfolding apply_outcome
operation_result_from_apply none = none
operation_result_from_apply (some ar) = some (apply_outcome ar)

pub record TargetResult : Type 0 where
  pub target_id : ℤ
  pub target_path : Text
  pub target_name : Text
  pub resource_type : ResourceType
  pub dry_run : Bool
  pub success : Bool
  pub has_changes : Bool
  pub operations : List OperationResult
  pub error : Option Error

-- The loops that collect the items that pass a test.
abbrev pub keep {ℓ} : {A : Type ℓ} → (A → Bool) → List A → List A
keep test [] = []
keep test (x ∷ xs) = let rest = keep test xs in if test x then x ∷ rest else rest

abbrev pub op_failed : OperationResult → Bool
op_failed op = not op.success || is_some op.error

unfoldable pub changed_operations : TargetResult → List OperationResult
changed_operations tr = keep (λ op. op.has_changes) tr.operations

unfoldable pub failed_operations : TargetResult → List OperationResult
failed_operations tr = keep op_failed tr.operations

collect_diffs : List OperationResult → List Diff
collect_diffs [] = []
collect_diffs (op ∷ ops) = op.diffs ++ collect_diffs ops

-- `TargetResult.Diffs`
unfoldable pub target_diffs : TargetResult → List Diff
unfolding collect_diffs
target_diffs tr = collect_diffs tr.operations

abbrev pub target_failed : TargetResult → Bool
target_failed tr = not tr.success || is_some tr.error

-- What `ExecutionResult` keeps of `TargetResults`, by their filters.
unfoldable pub changed_targets : List TargetResult → List TargetResult
changed_targets = keep (λ tr. tr.has_changes)

unfoldable pub unchanged_targets : List TargetResult → List TargetResult
unchanged_targets = keep (λ tr. not tr.has_changes && tr.success)

unfoldable pub failed_targets : List TargetResult → List TargetResult
failed_targets = keep target_failed

unfoldable pub total_diffs : List TargetResult → ℕ
unfolding target_diffs
total_diffs [] = 0
total_diffs (tr ∷ trs) = length (target_diffs tr) + total_diffs trs
