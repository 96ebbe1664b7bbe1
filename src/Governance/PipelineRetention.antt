-- ===== src/Governance/PipelineRetention.antt =====
-- internal/governance/pipelineretention.go: the operation that sets for how long a project keeps its
-- pipelines. The client's calls, and how package fmt writes an integer, are parameters.
pub mod Converges
use gitlab_fleet_governor.Common.{
  ℕ, zero, suc, ◌+◌, ◌/◌, Bool, true, false, Option, some, none, List, [], ◌∷◌, ◌++◌, ◌==◌,
  if◌then◌else◌,
}
use gitlab_fleet_governor.Common.Int.{ℤ, pos, negsuc, int_eq}
use gitlab_fleet_governor.Common.Text.{Text, codes}
use gitlab_fleet_governor.Resources.{Project, Group}
use gitlab_fleet_governor.Governance.Operation.{
  ActionType, ResourceType, StatusType, Error, wrapped, Reply, ok, fail, Value, int, Diff,
  PlanResult, ApplyResult, Operation, new_plan_result, new_noop_plan_result,
  new_skipped_plan_result, new_apply_result, new_noop_apply_result, new_skipped_apply_result,
}
use gitlab_fleet_governor.Governance.Diff.{new_diff_builder, add_field, set_details, build}
use gitlab_fleet_governor.Gitlab.Transport.{times64}

pub record RetentionClient (World : Type 0) : Type 0 where
  pub get_retention : ℤ → World → Reply ℤ × World
  pub set_retention : ℤ → ℤ → World → Option Error × World

abbrev pub retention_name : Text
retention_name = codes "pipeline_retention"

-- `RetentionDays * 86400`, which wraps around.
unfoldable pub seconds : ℤ → ℤ
unfolding times64
seconds days = times64 86400 days

abbrev negated : ℕ → ℤ
negated zero = pos 0
negated (suc n) = negsuc n

-- Go's division by 86400, towards zero.
unfoldable pub whole_days : ℤ → ℤ
whole_days (pos n) = pos (n / 86400)
whole_days (negsuc n) = negated ((n + 1) / 86400)

module _ {World : Type 0} (client : RetentionClient World) (decimal : ℤ → Text) where
  unfoldable pub retention_diff : (current days : ℤ) → Diff
  unfolding seconds whole_days
  retention_diff current days =
      let fields =
        add_field
          (add_field new_diff_builder (codes "ci_delete_pipelines_in_seconds") (int current)
            (int (seconds days)) ActionType.update)
          (codes "retention_days") (int (whole_days current)) (int days) ActionType.update in
      build
        (set_details fields (
          codes "Update pipeline retention from "
          ++ (decimal (whole_days current)
              ++ (codes " days ("
                  ++ (decimal current
                      ++ (codes " sec) to "
                          ++ (decimal days
                              ++ (codes " days ("
                                  ++ (decimal (seconds days) ++ codes " sec)")))))))))
        (codes "pipeline_retention") ActionType.update

  abbrev pub noop_plan : Project → PlanResult
  noop_plan p = new_noop_plan_result retention_name ResourceType.project p.id p.path_with_namespace

  abbrev pub update_plan : Project → ℤ → ℤ → PlanResult
  update_plan p current days =
      new_plan_result retention_name ResourceType.project p.id p.path_with_namespace
        ActionType.update (retention_diff current days ∷ [])

  -- `Plan` with the answer of the client.
  unfoldable pub plan_answered :
      Project → ℤ → Reply ℤ × World → (Option PlanResult × Option Error) × World
  unfolding retention_diff
  plan_answered p days (fail e, w) =
      ((none, some (wrapped (codes "failed to fetch project pipeline retention") e)), w)
  plan_answered p days (ok current, w) = (
    (some (if current == seconds days then noop_plan p else update_plan p current days), none),
    w,
  )

  abbrev pub retention_result :
      Project → ActionType → StatusType → List Diff → Option Error → ApplyResult
  retention_result p =
      new_apply_result retention_name ResourceType.project p.id p.path_with_namespace

  abbrev pub noop_apply : Project → ApplyResult
  noop_apply p =
      new_noop_apply_result retention_name ResourceType.project p.id p.path_with_namespace

  -- `Apply` with the answer to SetProjectPipelineRetention.
  unfoldable pub settled :
      Project → List Diff → Option Error × World → (Option ApplyResult × Option Error) × World
  settled p diffs (none, w) =
      ((some (retention_result p ActionType.update StatusType.success diffs none), none), w)
  settled p diffs (some e, w) =
      let err = wrapped (codes "failed to update pipeline retention on project") e in
      (
        (some (retention_result p ActionType.update StatusType.failed diffs (some err)), some err),
        w,
      )

  -- `Apply` with the plan. Without a plan and an error the code would panic; `plan_answered` gives one of them.
  unfoldable pub apply_planned :
      Project
      → ℤ
      → (Option PlanResult × Option Error) × World
      → (Option ApplyResult × Option Error) × World
  unfolding seconds settled
  apply_planned p days ((planned, some e), w) =
      ((some (retention_result p ActionType.noop StatusType.failed [] (some e)), some e), w)
  apply_planned p days ((none, none), w) = ((none, none), w)
  apply_planned p days ((some pr, none), w) =
      if pr.has_changes
      then settled p pr.diffs (client.set_retention p.id (seconds days) w)
      else ((some (noop_apply p), none), w)

  module _ {Config : Type 0} (days_of : Config → Option ℤ) where
    -- `days_of` is the days of `cfg.Policies.PipelineRetention`, and none for a nil configuration.
    unfoldable pub plan_retention :
        Project → Config → World → (Option PlanResult × Option Error) × World
    unfolding plan_answered
    plan_retention p cfg w = elim (days_of cfg) [
      | none ↦ ((some (noop_plan p), none), w)
      | some days ↦ plan_answered p days (client.get_retention p.id w)
    ]

    unfoldable pub apply_retention :
        Project → Config → World → (Option ApplyResult × Option Error) × World
    unfolding plan_answered apply_planned
    apply_retention p cfg w = elim (days_of cfg) [
      | none ↦ ((some (noop_apply p), none), w)
      | some days ↦ apply_planned p days (plan_answered p days (client.get_retention p.id w))
    ]

    -- The operation, which skips groups.
    unfoldable pub pipeline_retention : Operation Config World
    unfolding plan_retention apply_retention
    pipeline_retention = record {
      name = retention_name;
      order = pos 50;
      plan = plan_retention;
      apply = apply_retention;
      plan_group = λ g cfg w. (
        (
          some (
              new_skipped_plan_result retention_name ResourceType.group g.id g.full_path
                (codes "Pipeline retention is not applicable to groups")),
          none,
        ),
        w,
      );
      apply_group = λ g cfg w. (
        (
          some (
              new_skipped_apply_result retention_name ResourceType.group g.id g.full_path
                (codes "Pipeline retention is not applicable to groups")),
          none,
        ),
        w,
      );
    }
