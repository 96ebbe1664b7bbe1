-- ===== src/Engine/Metrics/Totals.antt =====
-- The totals of targets in metrics.go against the targets that were recorded.
use mathlib.Core.List.{append-nil, append_assoc}
use gitlab_fleet_governor.Common.{
  ◌+◌, Bool, some, List, [], ◌∷◌, ◌++◌, map, not, ◌&&◌, ◌≡◌, refl, insert, length, arith,
}
use gitlab_fleet_governor.Common.Text.{text_eq}
use gitlab_fleet_governor.Governance.Operation.{ActionType}
use gitlab_fleet_governor.Engine.Results.{
  OperationResult, TargetResult, target_failed, keep, failed_targets,
}
use gitlab_fleet_governor.Engine.Metrics.{
  SummaryMetrics, new_summary_metrics, record_target_result, record_outcome, record_operations,
  record_operation_locked, count_totals, count_drift, count_result, summary_of,
}

-- The calls that a run makes, one for each result.
abbrev pub record_all : SummaryMetrics → List TargetResult → SummaryMetrics
record_all m [] = m
record_all m (tr ∷ trs) = record_all (record_target_result m (some tr)) trs

-- What recording an operation leaves alone.
record SameTargets (m n : SummaryMetrics) : Type 0 where
  changed : n.total_changed ≡ m.total_changed
  unchanged : n.total_unchanged ≡ m.total_unchanged
  pub failed : n.total_failed ≡ m.total_failed
  pub changed_paths : n.drift_summary.changed_resources ≡ m.drift_summary.changed_resources
  pub failed_paths : n.drift_summary.failed_resources ≡ m.drift_summary.failed_resources

count_totals-SameTargets : (a : ActionType) (m : SummaryMetrics) → SameTargets m (count_totals a m)
unfolding count_totals
count_totals-SameTargets ActionType.create m = ground arith
count_totals-SameTargets _ m = ground arith

count_drift-SameTargets :
    (op : OperationResult) (m : SummaryMetrics) → SameTargets m (count_drift op m)
unfolding count_drift
count_drift-SameTargets op m = ground arith

record_operation_locked-SameTargets :
    (m : SummaryMetrics) (op : OperationResult) → SameTargets m (record_operation_locked m op)
unfolding record_operation_locked
record_operation_locked-SameTargets m op =
    let counted = record m {
      operation_counts =
          insert op.operation_name (count_result op (summary_of m op.operation_name))
            m.operation_counts;
    } in
    ground (
      arith,
      count_totals-SameTargets op.action counted,
      count_drift-SameTargets op (count_totals op.action counted),
    )

record_operations-SameTargets :
    (ops : List OperationResult) (m : SummaryMetrics) → SameTargets m (record_operations m ops)
unfolding record_operations
record_operations-SameTargets [] m = ground arith
record_operations-SameTargets (op ∷ ops) m = ground (
  arith,
  record_operation_locked-SameTargets m op,
  record_operations-SameTargets ops (record_operation_locked m op),
)

abbrev pub changed_only : TargetResult → Bool
changed_only tr = not (target_failed tr) && tr.has_changes

abbrev pub clean : TargetResult → Bool
clean tr = not (target_failed tr) && not tr.has_changes

-- What the metrics say of the targets, above what they said at the start.
pub record Counts (m n : SummaryMetrics) (trs : List TargetResult) : Type 0 where
  pub failed : n.total_failed ≡ m.total_failed + length (keep target_failed trs)
  pub changed : n.total_changed ≡ m.total_changed + length (keep changed_only trs)
  pub unchanged : n.total_unchanged ≡ m.total_unchanged + length (keep clean trs)
  pub failed_paths :
      n.drift_summary.failed_resources
      ≡ m.drift_summary.failed_resources
        ++ map (λ (tr : TargetResult). tr.target_path) (keep target_failed trs)
  pub changed_paths :
      n.drift_summary.changed_resources
      ≡ m.drift_summary.changed_resources
        ++ map (λ (tr : TargetResult). tr.target_path) (keep changed_only trs)

pub record_all-Counts :
    (trs : List TargetResult) (m : SummaryMetrics) → Counts m (record_all m trs) trs
unfolding record_target_result record_outcome
record_all-Counts [] m =
    let d = m.drift_summary in
    ground (arith, append-nil d.failed_resources, append-nil d.changed_resources)
record_all-Counts (tr ∷ trs) m =
    let d = m.drift_summary in
    let n = record_outcome m tr in
    let path = tr.target_path ∷ [] in
    let paths = λ (l : List TargetResult). map (λ (t : TargetResult). t.target_path) l in
    ground (
      arith,
      record_operations-SameTargets tr.operations n,
      record_all-Counts trs (record_operations n tr.operations),
      append_assoc d.failed_resources path (paths (keep target_failed trs)),
      append_assoc d.changed_resources path (paths (keep changed_only trs)),
    )

split :
    (trs : List TargetResult)
    → length (keep target_failed trs) + length (keep changed_only trs) + length (keep clean trs)
      ≡ length trs
split [] = refl
split (tr ∷ trs) = ground (arith, split trs)

-- After a run's results were recorded, every target is counted once: as failed, as changed or as
-- unchanged, by its own flags; and the failed and the changed paths are listed in that order.
pub record_all-totals :
    (dry_run : Bool) (trs : List TargetResult)
    → ((record_all (new_summary_metrics dry_run) trs).total_failed ≡ length (failed_targets trs))
      × ((record_all (new_summary_metrics dry_run) trs).total_changed
          ≡ length (keep changed_only trs))
      × ((record_all (new_summary_metrics dry_run) trs).total_unchanged ≡ length (keep clean trs))
      × ((record_all (new_summary_metrics dry_run) trs).total_failed
            + (record_all (new_summary_metrics dry_run) trs).total_changed
            + (record_all (new_summary_metrics dry_run) trs).total_unchanged
          ≡ length trs)
      × ((record_all (new_summary_metrics dry_run) trs).drift_summary.failed_resources
          ≡ map (λ (tr : TargetResult). tr.target_path) (failed_targets trs))
      × ((record_all (new_summary_metrics dry_run) trs).drift_summary.changed_resources
          ≡ map (λ (tr : TargetResult). tr.target_path) (keep changed_only trs))
unfolding new_summary_metrics failed_targets
record_all-totals dry_run trs =
    let c = record_all-Counts trs (new_summary_metrics dry_run) in
    let s = split trs in
    (
      omega (arith, c.failed),
      omega (arith, c.changed),
      omega (arith, c.unchanged),
      omega (arith, c.failed, c.changed, c.unchanged, s),
      c.failed_paths,
      c.changed_paths,
    )
