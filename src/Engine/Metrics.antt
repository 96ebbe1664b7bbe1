-- ===== src/Engine/Metrics.antt =====
-- internal/engine/metrics.go: the accumulator of a run's metrics. Its lock makes each method atomic;
-- clock readings are left out, and the counters are numbers, since no run counts to 2^63.
pub mod Totals
pub mod Operations
use gitlab_fleet_governor.Common.{
  ℕ, zero, suc, ◌+◌, Bool, true, false, Option, some, none, List, [], ◌∷◌, ◌++◌, not, ◌&&◌, ◌||◌,
  ◌≡◌, ◌↔◌, if◌then◌else◌, length, lookup, insert, Eq, ◌==◌, nat_eq, nat_beq, arith,
}
use gitlab_fleet_governor.Common.Text.{Text, text_eq, text_le}
use gitlab_fleet_governor.Common.Sort.{sort}
use gitlab_fleet_governor.Resources.{TargetFleet}
use gitlab_fleet_governor.Governance.Operation.{ActionType, StatusType, Diff, has_items}
use gitlab_fleet_governor.Governance.Diff.{has_changes}
use gitlab_fleet_governor.Engine.Results.{OperationResult, TargetResult, is_some, target_failed}

pub record OperationSummary : Type 0 where
  pub operation_name : Text
  pub total : ℕ
  pub created : ℕ
  pub updated : ℕ
  pub deleted : ℕ
  pub noop : ℕ
  pub audit : ℕ
  pub skipped : ℕ
  pub failed : ℕ

abbrev pub action_code : ActionType → ℕ
action_code ActionType.create = 0
action_code ActionType.update = 1
action_code ActionType.delete = 2
action_code ActionType.noop = 3
action_code ActionType.audit = 4
action_code ActionType.skipped = 5
action_code ActionType.unset = 6

abbrev pub action_beq : ActionType → ActionType → Bool
action_beq a b = nat_beq (action_code a) (action_code b)

pub action_beq_iff : (a b : ActionType) → (action_beq a b ≡ true) ↔ (a ≡ b)
action_beq_iff a b = ground arith

instance abbrev pub action_eq : Eq ActionType
action_eq = record { same = action_beq; same_iff = action_beq_iff }

pub record DriftSummary : Type 0 where
  pub total_drift_fields : ℕ
  pub drift_by_action : List (ActionType × ℕ)
  pub drift_by_operation : List (Text × ℕ)
  pub drift_by_resource : List (Text × ℕ)
  pub changed_resources : List Text
  pub failed_resources : List Text

pub record SummaryMetrics : Type 0 where
  pub dry_run : Bool
  pub scanned_projects : ℕ
  pub scanned_groups : ℕ
  pub total_scanned : ℕ
  pub targeted_projects : ℕ
  pub targeted_groups : ℕ
  pub total_targeted : ℕ
  pub total_changed : ℕ
  pub total_unchanged : ℕ
  pub total_failed : ℕ
  pub total_skipped : ℕ
  pub total_applied : ℕ
  pub total_noop : ℕ
  pub operation_counts : List (Text × OperationSummary)
  pub drift_summary : DriftSummary

unfoldable pub new_summary_metrics : Bool → SummaryMetrics
new_summary_metrics dry_run = record {
  dry_run = dry_run;
  scanned_projects = 0;
  scanned_groups = 0;
  total_scanned = 0;
  targeted_projects = 0;
  targeted_groups = 0;
  total_targeted = 0;
  total_changed = 0;
  total_unchanged = 0;
  total_failed = 0;
  total_skipped = 0;
  total_applied = 0;
  total_noop = 0;
  operation_counts = [];
  drift_summary = record {
    total_drift_fields = 0;
    drift_by_action = [];
    drift_by_operation = [];
    drift_by_resource = [];
    changed_resources = [];
    failed_resources = [];
  };
}

unfoldable pub record_discovery : SummaryMetrics → Option TargetFleet → SummaryMetrics
record_discovery m none = m
record_discovery m (some fleet) = record m {
  scanned_projects = fleet.scanned_projects_count;
  scanned_groups = fleet.scanned_groups_count;
  total_scanned = fleet.scanned_projects_count + fleet.scanned_groups_count;
  targeted_projects = fleet.matched_projects_count;
  targeted_groups = fleet.matched_groups_count;
  total_targeted = fleet.matched_projects_count + fleet.matched_groups_count;
}

-- `m[k]++`
unfoldable pub increment : {K : Type 0} ⦃e : Eq K⦄ → K → List (K × ℕ) → List (K × ℕ)
increment k m = insert k (elim (lookup k m) [ none ↦ 1 | some n ↦ n + 1 ]) m

abbrev pub fresh_summary : Text → OperationSummary
fresh_summary name = record {
  operation_name = name;
  total = 0;
  created = 0;
  updated = 0;
  deleted = 0;
  noop = 0;
  audit = 0;
  skipped = 0;
  failed = 0;
}

-- The summary that a result is counted in.
unfoldable pub summary_of : SummaryMetrics → Text → OperationSummary
summary_of m name = elim (lookup name m.operation_counts) [ none ↦ fresh_summary name | some s ↦ s ]

abbrev pub result_failed : OperationResult → Bool
result_failed op =
    not op.success || is_some op.error || elim op.status [ StatusType.failed ↦ true | _ ↦ false ]

-- The part of `switch op.Action` that counts in the summary.
unfoldable pub count_action : ActionType → OperationSummary → OperationSummary
count_action ActionType.create s = record s { created = s.created + 1 }
count_action ActionType.update s = record s { updated = s.updated + 1 }
count_action ActionType.delete s = record s { deleted = s.deleted + 1 }
count_action ActionType.audit s = record s { audit = s.audit + 1 }
count_action ActionType.skipped s = record s { skipped = s.skipped + 1 }
count_action ActionType.noop s = record s { noop = s.noop + 1 }
count_action ActionType.unset s = s

unfoldable pub count_result : OperationResult → OperationSummary → OperationSummary
count_result op s =
    count_action op.action (record s {
      total = s.total + 1;
      failed = if result_failed op then s.failed + 1 else s.failed;
    })

abbrev pub drift_action : SummaryMetrics → ActionType → DriftSummary
drift_action m action = record (m.drift_summary) {
  drift_by_action = increment action m.drift_summary.drift_by_action;
}

-- The part of `switch op.Action` that counts in the metrics.
unfoldable pub count_totals : ActionType → SummaryMetrics → SummaryMetrics
count_totals ActionType.create m = record m {
  total_applied = m.total_applied + 1;
  drift_summary = drift_action m ActionType.create;
}
count_totals ActionType.update m = record m {
  total_applied = m.total_applied + 1;
  drift_summary = drift_action m ActionType.update;
}
count_totals ActionType.delete m = record m {
  total_applied = m.total_applied + 1;
  drift_summary = drift_action m ActionType.delete;
}
count_totals ActionType.audit m = record m { drift_summary = drift_action m ActionType.audit }
count_totals ActionType.skipped m = record m { total_skipped = m.total_skipped + 1 }
count_totals ActionType.noop m = record m { total_noop = m.total_noop + 1 }
count_totals ActionType.unset m = m

-- The fields that the diffs of a changed operation add to `TotalDriftFields`.
unfoldable pub drift_fields : List Diff → ℕ
drift_fields [] = 0
drift_fields (d ∷ ds) =
    length d.fields + (if not (has_items d.fields) && has_changes d then 1 else 0) + drift_fields ds

unfoldable pub count_drift : OperationResult → SummaryMetrics → SummaryMetrics
count_drift op m =
    let d = m.drift_summary in
    if op.has_changes
    then record m {
      drift_summary = record d {
        drift_by_operation = increment op.operation_name d.drift_by_operation;
        drift_by_resource = increment op.resource_path d.drift_by_resource;
        total_drift_fields = d.total_drift_fields + drift_fields op.diffs;
      };
    }
    else m

-- `recordOperationLocked`. The map holds pointers, so counting in a summary changes its entry.
unfoldable pub record_operation_locked : SummaryMetrics → OperationResult → SummaryMetrics
record_operation_locked m op =
    let summary = count_result op (summary_of m op.operation_name) in
    let counted = record m {
      operation_counts = insert op.operation_name summary m.operation_counts;
    } in
    count_drift op (count_totals op.action counted)

unfoldable pub record_operation_result : SummaryMetrics → Option OperationResult → SummaryMetrics
record_operation_result m none = m
record_operation_result m (some op) = record_operation_locked m op

unfoldable pub record_operations : SummaryMetrics → List OperationResult → SummaryMetrics
record_operations m [] = m
record_operations m (op ∷ ops) = record_operations (record_operation_locked m op) ops

-- The part of `RecordTargetResult` before its loop.
unfoldable pub record_outcome : SummaryMetrics → TargetResult → SummaryMetrics
record_outcome m tr =
    let d = m.drift_summary in
    if target_failed tr
    then record m {
      total_failed = m.total_failed + 1;
      drift_summary = record d { failed_resources = d.failed_resources ++ tr.target_path ∷ [] };
    }
    else if tr.has_changes
    then record m {
      total_changed = m.total_changed + 1;
      drift_summary = record d { changed_resources = d.changed_resources ++ tr.target_path ∷ [] };
    }
    else record m { total_unchanged = m.total_unchanged + 1 }

unfoldable pub record_target_result : SummaryMetrics → Option TargetResult → SummaryMetrics
record_target_result m none = m
record_target_result m (some tr) = record_operations (record_outcome m tr) tr.operations

-- `SummaryMetricsSnapshot`, without the fields that repeat another under a second name.
pub record SummaryMetricsSnapshot : Type 0 where
  pub metrics : SummaryMetrics
  pub total_applied_operations : ℕ
  pub total_skipped_operations : ℕ
  pub total_failed_operations : ℕ

abbrev pub sum_of : (OperationSummary → ℕ) → List (Text × OperationSummary) → ℕ
sum_of f [] = 0
sum_of f ((k, s) ∷ m) = f s + sum_of f m

-- `Snapshot`: a copy of the metrics, its resources sorted, and the sums over the summaries.
unfoldable pub snapshot : SummaryMetrics → SummaryMetricsSnapshot
snapshot m =
    let d = m.drift_summary in
    record {
      metrics = record m {
        drift_summary = record d {
          changed_resources = sort text_le d.changed_resources;
          failed_resources = sort text_le d.failed_resources;
        };
      };
      total_applied_operations = sum_of (λ s. s.created + s.updated + s.deleted) m.operation_counts;
      total_skipped_operations = sum_of (λ s. s.skipped) m.operation_counts;
      total_failed_operations = sum_of (λ s. s.failed) m.operation_counts;
    }
