-- ===== src/Engine/Metrics/Operations.antt =====
-- The totals of operations in metrics.go, and the sums that its snapshot takes over the summaries.
use gitlab_fleet_governor.Common.{
  ℕ, ◌+◌, Bool, true, false, some, none, List, [], ◌∷◌, ◌++◌, ◌≡◌, refl, if◌then◌else◌, length,
  arith, lookup, insert,
}
use gitlab_fleet_governor.Common.Text.{Text, text_eq}
use gitlab_fleet_governor.Governance.Operation.{ActionType}
use gitlab_fleet_governor.Engine.Results.{OperationResult, TargetResult, keep}
use gitlab_fleet_governor.Engine.Metrics.{
  SummaryMetrics, OperationSummary, new_summary_metrics, record_target_result, record_outcome,
  record_operations, record_operation_locked, count_totals, count_drift, count_result, count_action,
  summary_of, sum_of, snapshot, fresh_summary, result_failed,
}
use gitlab_fleet_governor.Engine.Metrics.Totals.{record_all}

abbrev pub mutates : ActionType → Bool
mutates ActionType.create = true
mutates ActionType.update = true
mutates ActionType.delete = true
mutates _ = false

abbrev pub skips : ActionType → Bool
skips ActionType.skipped = true
skips _ = false

abbrev pub op_mutates : OperationResult → Bool
op_mutates op = mutates op.action

abbrev pub op_skips : OperationResult → Bool
op_skips op = skips op.action

-- All the operations that were run, target by target.
abbrev pub all_operations : List TargetResult → List OperationResult
all_operations [] = []
all_operations (tr ∷ trs) = tr.operations ++ all_operations trs

abbrev applied : OperationSummary → ℕ
applied s = s.created + s.updated + s.deleted

abbrev one : Bool → ℕ
one b = if b then 1 else 0

sum_of-insert :
    (f : OperationSummary → ℕ) (k : Text) (s : OperationSummary)
    (m : List (Text × OperationSummary))
    → sum_of f (insert k s m) + elim (lookup k m) [ none ↦ 0 | some u ↦ f u ] ≡ sum_of f m + f s
unfolding insert lookup
sum_of-insert f k s [] = omega arith
sum_of-insert f k s ((j, u) ∷ m) = ground (arith, sum_of-insert f k s m)

-- A sum over the summaries after one summary was replaced.
sum_of-count :
    (f : OperationSummary → ℕ) (m : SummaryMetrics) (op : OperationResult) (n : ℕ)
    → f (fresh_summary op.operation_name) ≡ 0
    → f (count_result op (summary_of m op.operation_name)) ≡ f (summary_of m op.operation_name) + n
    → sum_of f (
        insert op.operation_name
          (count_result op (summary_of m op.operation_name))
          m.operation_counts)
      ≡ sum_of f m.operation_counts + n
unfolding summary_of
sum_of-count f m op n z h = ground (
  arith,
  sum_of-insert f op.operation_name (count_result op (summary_of m op.operation_name))
      m.operation_counts,
)

count_totals-keeps :
    (a : ActionType) (m : SummaryMetrics)
    → ((count_totals a m).operation_counts ≡ m.operation_counts)
      × ((count_totals a m).total_applied ≡ m.total_applied + one (mutates a))
      × ((count_totals a m).total_skipped ≡ m.total_skipped + one (skips a))
unfolding count_totals
count_totals-keeps ActionType.create m = ground arith
count_totals-keeps _ m = ground arith

count_drift-keeps :
    (op : OperationResult) (m : SummaryMetrics)
    → ((count_drift op m).operation_counts ≡ m.operation_counts)
      × ((count_drift op m).total_applied ≡ m.total_applied)
      × ((count_drift op m).total_skipped ≡ m.total_skipped)
unfolding count_drift
count_drift-keeps op m = ground arith

count_action-sums :
    (a : ActionType) (s : OperationSummary)
    → (applied (count_action a s) ≡ applied s + one (mutates a))
      × ((count_action a s).skipped ≡ s.skipped + one (skips a))
      × ((count_action a s).failed ≡ s.failed)
unfolding count_action
count_action-sums ActionType.create s = ground arith
count_action-sums _ s = ground arith

count_result-sums :
    (op : OperationResult) (s : OperationSummary)
    → (applied (count_result op s) ≡ applied s + one (mutates op.action))
      × ((count_result op s).skipped ≡ s.skipped + one (skips op.action))
      × ((count_result op s).failed ≡ s.failed + one (result_failed op))
unfolding count_result
count_result-sums op s =
    let s' = record s {
      total = s.total + 1;
      failed = if result_failed op then s.failed + 1 else s.failed;
    } in
    let h = count_action-sums op.action s' in (h.0, h.1, ground arith)

-- The operations that were counted between two states of the metrics.
record Counted (m n : SummaryMetrics) (ops : List OperationResult) : Type 0 where
  applied_total : n.total_applied ≡ m.total_applied + length (keep op_mutates ops)
  skipped_total : n.total_skipped ≡ m.total_skipped + length (keep op_skips ops)
  applied_sum :
      sum_of applied n.operation_counts
      ≡ sum_of applied m.operation_counts + length (keep op_mutates ops)
  skipped_sum :
      sum_of (λ s. s.skipped) n.operation_counts
      ≡ sum_of (λ s. s.skipped) m.operation_counts + length (keep op_skips ops)
  failed_sum :
      sum_of (λ s. s.failed) n.operation_counts
      ≡ sum_of (λ s. s.failed) m.operation_counts + length (keep result_failed ops)

record_operation_locked-Counted :
    (m : SummaryMetrics) (op : OperationResult) → Counted m (record_operation_locked m op) (op ∷ [])
unfolding record_operation_locked
record_operation_locked-Counted m op =
    let summary = count_result op (summary_of m op.operation_name) in
    let counted = record m {
      operation_counts = insert op.operation_name summary m.operation_counts;
    } in
    let t = count_totals-keeps op.action counted in
    let d = count_drift-keeps op (count_totals op.action counted) in
    let r = count_result-sums op (summary_of m op.operation_name) in
    record {
      applied_total = ground (arith, t, d);
      skipped_total = ground (arith, t, d);
      applied_sum = ground (arith, t, d, sum_of-count applied m op (one (op_mutates op)) refl r.0);
      skipped_sum =
          ground (arith, t, d, sum_of-count (λ s. s.skipped) m op (one (op_skips op)) refl r.1);
      failed_sum =
          ground (arith, t, d, sum_of-count (λ s. s.failed) m op (one (result_failed op)) refl r.2);
    }

record_operations-Counted :
    (ops : List OperationResult) (m : SummaryMetrics) → Counted m (record_operations m ops) ops
unfolding record_operations
record_operations-Counted [] m = ground arith
record_operations-Counted (op ∷ ops) m = ground (
  arith,
  record_operation_locked-Counted m op,
  record_operations-Counted ops (record_operation_locked m op),
)

record_outcome-keeps :
    (m : SummaryMetrics) (tr : TargetResult)
    → ((record_outcome m tr).operation_counts ≡ m.operation_counts)
      × ((record_outcome m tr).total_applied ≡ m.total_applied)
      × ((record_outcome m tr).total_skipped ≡ m.total_skipped)
unfolding record_outcome
record_outcome-keeps m tr = ground arith

keep-append :
    (test : OperationResult → Bool) (xs ys : List OperationResult)
    → length (keep test (xs ++ ys)) ≡ length (keep test xs) + length (keep test ys)
keep-append test [] ys = omega arith
keep-append test (x ∷ xs) ys = ground (arith, keep-append test xs ys)

record_all-Counted :
    (trs : List TargetResult) (m : SummaryMetrics)
    → Counted m (record_all m trs) (all_operations trs)
unfolding record_target_result
record_all-Counted [] m = ground arith
record_all-Counted (tr ∷ trs) m =
    let n = record_outcome m tr in
    ground (
      arith,
      record_outcome-keeps m tr,
      record_operations-Counted tr.operations n,
      record_all-Counted trs (record_operations n tr.operations),
      keep-append op_mutates tr.operations (all_operations trs),
      keep-append op_skips tr.operations (all_operations trs),
      keep-append result_failed tr.operations (all_operations trs),
    )

-- The snapshot of a run's metrics counts its operations: those that created, updated or deleted
-- (which the accumulator's own total counts too), those that were skipped (likewise), and those
-- that failed.
pub snapshot-operations :
    (dry_run : Bool) (trs : List TargetResult)
    → ((snapshot (record_all (new_summary_metrics dry_run) trs)).total_applied_operations
        ≡ length (keep op_mutates (all_operations trs)))
      × ((record_all (new_summary_metrics dry_run) trs).total_applied
          ≡ length (keep op_mutates (all_operations trs)))
      × ((snapshot (record_all (new_summary_metrics dry_run) trs)).total_skipped_operations
          ≡ length (keep op_skips (all_operations trs)))
      × ((record_all (new_summary_metrics dry_run) trs).total_skipped
          ≡ length (keep op_skips (all_operations trs)))
      × ((snapshot (record_all (new_summary_metrics dry_run) trs)).total_failed_operations
          ≡ length (keep result_failed (all_operations trs)))
unfolding snapshot new_summary_metrics
snapshot-operations dry_run trs =
    let c = record_all-Counted trs (new_summary_metrics dry_run) in
    (
      omega (arith, c.applied_sum),
      omega (arith, c.applied_total),
      omega (arith, c.skipped_sum),
      omega (arith, c.skipped_total),
      omega (arith, c.failed_sum),
    )
