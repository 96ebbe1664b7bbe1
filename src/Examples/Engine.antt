-- ===== src/Examples/Engine.antt =====
-- Runs of the engine and of its metrics.
use gitlab_fleet_governor.Common.{
  ℕ, ◌+◌, true, false, Option, some, none, List, [], ◌∷◌, map, ◌≡◌, length,
}
use gitlab_fleet_governor.Common.Int.{pos}
use gitlab_fleet_governor.Common.Text.{codes}
use gitlab_fleet_governor.Resources.{Project, Group}
use gitlab_fleet_governor.Governance.Operation.{
  ActionType, ResourceType, StatusType, Error, external, Operation, ApplyResult,
}
use gitlab_fleet_governor.Engine.Results.{OperationResult, TargetResult, keep, failed_targets}
use gitlab_fleet_governor.Engine.Execute.{execute_project, execute_group}
use gitlab_fleet_governor.Engine.Execute.Summary.{
  ConcludesProject, ConcludesGroup, execute-IsConclusion,
}
use gitlab_fleet_governor.Engine.Execute.DryRun.{replace_all_apply, execute_dry_run}
use gitlab_fleet_governor.Engine.Metrics.{new_summary_metrics}
use gitlab_fleet_governor.Engine.Metrics.Totals.{record_all, changed_only, clean, record_all-totals}
use gitlab_fleet_governor.Examples.Samples.{target, target_group, registry, never}

execute-IsConclusion_example :
    ConcludesProject never registry tt target false 0
    × ConcludesGroup never registry tt target_group false 0
execute-IsConclusion_example = execute-IsConclusion never registry tt target target_group false 0

-- Mutating methods that jump the world ahead.
abbrev wreck :
    Operation (Unit {0}) ℕ → Project → Unit {0} → ℕ → (Option ApplyResult × Option Error) × ℕ
wreck op p c w = ((none, some (external (codes "called"))), w + 1000)

abbrev wreck_group :
    Operation (Unit {0}) ℕ → Group → Unit {0} → ℕ → (Option ApplyResult × Option Error) × ℕ
wreck_group op g c w = ((none, some (external (codes "called"))), w + 1000)

execute_dry_run_example :
    (execute_project never (replace_all_apply wreck wreck_group registry) tt target true 0
      ≡ execute_project never registry tt target true 0)
    × (execute_group never (replace_all_apply wreck wreck_group registry) tt target_group true 0
        ≡ execute_group never registry tt target_group true 0)
execute_dry_run_example = execute_dry_run wreck wreck_group never registry tt target target_group 0

abbrev renamed : OperationResult
renamed = record {
  operation_name = codes "settings";
  resource_type = ResourceType.project;
  resource_id = pos 7;
  resource_path = codes "org/tools/widget";
  action = ActionType.update;
  status = StatusType.success;
  has_changes = true;
  success = true;
  diffs = [];
  details = [];
  error = none;
}

abbrev changed_target : TargetResult
changed_target = record {
  target_id = pos 7;
  target_path = codes "org/tools/widget";
  target_name = codes "Widget";
  resource_type = ResourceType.project;
  dry_run = false;
  success = true;
  has_changes = true;
  operations = renamed ∷ [];
  error = none;
}

abbrev broken_target : TargetResult
broken_target = record changed_target {
  target_path = codes "org/app";
  success = false;
  operations = record renamed { success = false; status = StatusType.failed } ∷ [];
}

abbrev results : List TargetResult
results = changed_target ∷ broken_target ∷ []

record_all-totals_example :
    ((record_all (new_summary_metrics false) results).total_failed
      ≡ length (failed_targets results))
    × ((record_all (new_summary_metrics false) results).total_changed
        ≡ length (keep changed_only results))
    × ((record_all (new_summary_metrics false) results).total_unchanged
        ≡ length (keep clean results))
    × ((record_all (new_summary_metrics false) results).total_failed
          + (record_all (new_summary_metrics false) results).total_changed
          + (record_all (new_summary_metrics false) results).total_unchanged
        ≡ length results)
    × ((record_all (new_summary_metrics false) results).drift_summary.failed_resources
        ≡ map (λ (tr : TargetResult). tr.target_path) (failed_targets results))
    × ((record_all (new_summary_metrics false) results).drift_summary.changed_resources
        ≡ map (λ (tr : TargetResult). tr.target_path) (keep changed_only results))
record_all-totals_example = record_all-totals false results
