-- ===== src/Engine/Run/Report.antt =====
-- internal/engine/engine.go: what the result of a run tells of its targets.
use mathlib.Core.List.{Permᴰ}
use mathlib.Core.List.Permᴰ
use gitlab_fleet_governor.Common.{Bool, true, Option, List, ◌++◌, ◌≡◌, ◌↔◌, All, values}
use gitlab_fleet_governor.Common.Sort.{IsSorted}
use gitlab_fleet_governor.Resources.{TargetProject, TargetGroup, TargetFleet}
use gitlab_fleet_governor.Governance.Operation.{Error}
use gitlab_fleet_governor.Governance.Registry.{OperationsRegistry}
use gitlab_fleet_governor.Discovery.Fleet.Lists.{project_le, group_le}
use gitlab_fleet_governor.Engine.Execute.{execute_project, execute_group}
use gitlab_fleet_governor.Config.Model.{PolicyConfig}
use gitlab_fleet_governor.Engine.Run.Outcomes.{TargetOutcome, Executed, listed, failures, IsFine}
use gitlab_fleet_governor.Engine.Run.{ExecutionResult, result_le}

module _ {Policy World : Type 0} (done : World → Option Error)
    (registry : OperationsRegistry (PolicyConfig Policy) World) (cfg : PolicyConfig Policy)
    (dry_run : Bool) (fleet : TargetFleet) where
  -- What the result of a run tells of the executions on the groups and the projects of a fleet.
  pub record IsReport (w : World) (out : ExecutionResult × World) : Type 0 where
    pub groups : List TargetGroup
    pub projects : List TargetProject
    pub all_groups : Permᴰ groups (values fleet.groups) × IsSorted group_le groups
    pub all_projects : Permᴰ projects (values fleet.projects) × IsSorted project_le projects
    pub group_outcomes : List TargetOutcome
    pub project_outcomes : List TargetOutcome
    pub between : World
    pub executed_groups :
        Executed (λ g. execute_group done registry cfg g dry_run) groups w group_outcomes between
    pub executed_projects :
        Executed
          (λ p. execute_project done registry cfg p dry_run)
          projects
          between
          project_outcomes
          out.1
    pub group_results : out.0.group_results ≡ listed group_outcomes
    pub project_results : out.0.project_results ≡ listed project_outcomes
    pub errors : out.0.errors ≡ failures (group_outcomes ++ project_outcomes)
    pub target_results :
        Permᴰ out.0.target_results (listed (group_outcomes ++ project_outcomes))
        × IsSorted result_le out.0.target_results
    pub success : (out.0.success ≡ true) ↔ All IsFine (group_outcomes ++ project_outcomes)
