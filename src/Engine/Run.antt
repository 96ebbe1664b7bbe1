-- ===== src/Engine/Run.antt =====
-- `runWithOptions` of internal/engine/engine.go: discovery, the license check, the groups and then the
-- projects, and the report. The items of a ParallelMap are run one after the other, which is one of the
-- orders of its workers (Engine/Pool); start and end times are not kept. The standard outcome of each
-- phase is a value; the client's streams are read from the world at the start.
pub mod Outcomes
pub mod Report
pub mod Gate
use gitlab_fleet_governor.Common.{
  ℕ, ◌+◌, Bool, true, false, not, ◌&&◌, ◌||◌, Option, some, none, List, [], ◌∷◌, ◌++◌, map, nat_beq,
  ◌==◌, if◌then◌else◌, length, values,
}
use gitlab_fleet_governor.Common.Int.{ℤ}
use gitlab_fleet_governor.Common.Text.{Text, codes, is_empty}
use gitlab_fleet_governor.Common.Sort.{sort}
use gitlab_fleet_governor.Resources.{Time, TargetProject, TargetGroup, TargetFleet}
use gitlab_fleet_governor.Governance.Operation.{
  ActionType, Error, external, wrapped, Reply, ok, fail, has_items,
}
use gitlab_fleet_governor.Governance.Registry.{OperationsRegistry}
use gitlab_fleet_governor.Engine.Results.{OperationResult, TargetResult, is_some}
use gitlab_fleet_governor.Engine.Execute.{execute_project, execute_group}
use gitlab_fleet_governor.Engine.Metrics.{
  SummaryMetrics, SummaryMetricsSnapshot, new_summary_metrics, record_discovery, snapshot,
}
use gitlab_fleet_governor.Engine.Metrics.Totals.{record_all}
use gitlab_fleet_governor.Discovery.Filter.{Regexp, FilterError}
use gitlab_fleet_governor.Discovery.Groups.{GroupSelector, Outcome}
use gitlab_fleet_governor.Discovery.Fleet.Lists.{path_le, project_list, group_list, fleet_is_empty}
use gitlab_fleet_governor.Discovery.Coordinator.{Stream, discover_fleet}
use gitlab_fleet_governor.License.Version.{Info, Calendar}
use gitlab_fleet_governor.License.Enforce.{
  EnforcementOptions, Library, Denial, permitted, denied, enforce,
}
use gitlab_fleet_governor.Config.Model.{RulePolicy, Policies, PolicyConfig}

pub record ProjectChange : Type 0 where
  pub project_id : ℤ
  pub project_path : Text
  pub action : ActionType
  pub operations : List Text

pub record ExecutionResult : Type 0 where
  pub mode : Text
  pub dry_run : Bool
  pub success : Bool
  pub fleet : Option TargetFleet
  pub group_results : List TargetResult
  pub project_results : List TargetResult
  pub target_results : List TargetResult
  pub metrics : SummaryMetricsSnapshot
  pub project_changes : List ProjectChange
  pub errors : List Error

-- `len(p.Rules) > 0 || (p.Prune != nil && *p.Prune)` behind a pointer that is not nil.
abbrev pub has_rules : {Policy : Type 0} → Option (RulePolicy Policy) → Bool
has_rules none = false
has_rules (some p) = has_items p.rules || elim p.prune [ none ↦ false | some b ↦ b ]

abbrev when : Bool → Text → List Text
when true name = name ∷ []
when false name = []

-- The features that a configuration asks for; `in_lambda` tells of the two variables of AWS Lambda.
unfoldable pub required_features : {Policy : Type 0} → Policies Policy → Bool → List Text
required_features p in_lambda =
    when (has_rules p.protected_environments) (codes "governance.protected_environments")
    ++ (when (has_rules p.protected_tags) (codes "governance.protected_tags")
        ++ (when (is_some p.approval_rules) (codes "governance.approval_rules")
            ++ (when (has_items p.branch_merges) (codes "governance.branch_merges")
                ++ (when (is_some p.target_branch_rules) (codes "governance.target_branch_rules")
                    ++ (when (is_some p.runners) (codes "governance.runners")
                        ++ (when (has_items p.webhooks) (codes "governance.webhooks")
                            ++ (when (is_some p.pipeline_retention)
                                  (codes "governance.pipeline_retention")
                                ++ (when (is_some p.compliance)
                                      (codes "governance.compliance_frameworks")
                                    ++ when in_lambda (codes "runtime.lambda")))))))))

-- The last action and all the names of the operations with changes.
unfoldable pub changing : List OperationResult → ActionType → List Text → ActionType × List Text
changing [] action names = (action, names)
changing (op ∷ ops) action names =
    let next : ActionType = if op.has_changes then op.action else action in
    changing ops next (if op.has_changes then names ++ op.operation_name ∷ [] else names)

unfoldable pub project_change : TargetResult → ProjectChange
unfolding changing
project_change r =
    let (action, names) = changing r.operations ActionType.update [] in
    record {
      project_id = r.target_id;
      project_path = r.target_path;
      action = action;
      operations = names;
    }

unfoldable pub project_changes : List TargetResult → List ProjectChange
unfolding project_change
project_changes [] = []
project_changes (r ∷ rs) =
    let rest = project_changes rs in if r.has_changes then project_change r ∷ rest else rest

abbrev pub result_le : TargetResult → TargetResult → Bool
result_le a b = path_le a.target_path a.target_id b.target_path b.target_id

module _ {World : Type 0} where
  -- The results that `ParallelMap` returns and that are not nil, and its errors: an item whose call
  -- fails leaves no result.
  unfoldable pub run_all :
      {A : Type 0}
      → (A → World → (TargetResult × Option Error) × World)
      → List A
      → World
      → (List TargetResult × List Error) × World
  run_all execute [] w = (([], []), w)
  run_all execute (a ∷ items) w =
      let ((r, e), w') = execute a w in
      let ((rs, es), w'') = run_all execute items w' in
      (elim e [ none ↦ (r ∷ rs, es) | some failure ↦ (rs, failure ∷ es) ], w'')

-- The result of a run that ends before its governance phases.
unfoldable pub early_result :
    Bool → Bool → Option TargetFleet → SummaryMetrics → List Error → ExecutionResult
early_result dry_run success fleet metrics errors = record {
  mode = if dry_run then codes "plan" else codes "apply";
  dry_run = dry_run;
  success = success;
  fleet = fleet;
  group_results = [];
  project_results = [];
  target_results = [];
  metrics = snapshot metrics;
  project_changes = [];
  errors = errors;
}

abbrev pub nil_config : Error
nil_config = external (codes "policy config cannot be nil")

-- What the run reads of its surroundings: the streams of the client, the context, the expressions of
-- filters, the group traverser, the client's server time, and the environment.
pub record Surroundings : Type 0 where
  pub group_stream : ℤ → Stream
  pub instance_stream : Stream
  pub canceled : ℕ → Option Error
  pub compile : Text → Option Regexp
  pub bad_filter : FilterError → Error
  pub traversed : GroupSelector → Outcome
  pub server_time : Option Time
  pub in_lambda : Bool
  pub now : Time

-- What the license check is asked.
unfoldable pub enforcement_options :
    {Policy : Type 0} → Surroundings → PolicyConfig Policy → Bool → TargetFleet → EnforcementOptions
unfolding required_features
enforcement_options env cfg dry_run fleet = record {
  discovered_projects = length fleet.projects;
  is_dry_run = dry_run;
  gitlab_base_url = cfg.settings.gitlab.base_url;
  target_paths =
      map (λ (p : TargetProject). p.path_with_namespace) (values fleet.projects)
      ++ map (λ (g : TargetGroup). g.full_path) (values fleet.groups);
  license_key = cfg.settings.license.key;
  license_file = cfg.settings.license.file;
  command = codes "run";
  evaluation_time = none;
  gitlab_server_time = env.server_time;
  required_features = required_features cfg.policies env.in_lambda;
}

module _ {Policy World : Type 0} (done : World → Option Error)
    (registry : OperationsRegistry (PolicyConfig Policy) World) where
  -- The phases behind the license check.
  unfoldable pub govern :
      PolicyConfig Policy → Bool → TargetFleet → SummaryMetrics → World → ExecutionResult × World
  unfolding run_all project_changes
  govern cfg dry_run fleet metrics w =
      let ((groups, group_errors), w') =
        run_all (λ g. execute_group done registry cfg g dry_run) (group_list fleet) w in
      let ((projects, project_errors), w'') =
        run_all (λ p. execute_project done registry cfg p dry_run) (project_list fleet) w' in
      let snap = snapshot (record_all (record_all metrics groups) projects) in
      let errors = group_errors ++ project_errors in
      (
        record {
          mode = if dry_run then codes "plan" else codes "apply";
          dry_run = dry_run;
          success = not (has_items errors) && nat_beq snap.metrics.total_failed 0;
          fleet = some fleet;
          group_results = groups;
          project_results = projects;
          target_results = sort result_le (groups ++ projects);
          metrics = snap;
          project_changes = project_changes projects;
          errors = errors;
        },
        w'',
      )

module _ {Claims Policy World : Type 0} (lib : Library Claims) (cal : Calendar) (info : Info)
    (denial_error : Denial → Error) (done : World → Option Error)
    (registry : OperationsRegistry (PolicyConfig Policy) World) where
  -- The run on a fleet that was discovered.
  unfoldable pub run_on_fleet :
      Surroundings
      → PolicyConfig Policy
      → Bool
      → TargetFleet
      → World
      → (ExecutionResult × Option Error) × World
  unfolding enforcement_options govern
  run_on_fleet env cfg dry_run fleet w =
      let metrics = record_discovery (new_summary_metrics dry_run) (some fleet) in
      elim (enforce lib cal info env.now (enforcement_options env cfg dry_run fleet)) [
        | denied status why ↦ (
          (
            early_result dry_run false (some fleet) metrics (denial_error why ∷ []),
            some (denial_error why),
          ),
          w,
        )
        | permitted status ↦ elim (fleet_is_empty fleet) [
          | true ↦ ((early_result dry_run true (some fleet) metrics [], none), w)
          | false ↦
              let (result, w') = govern done registry cfg dry_run fleet metrics w in
              ((result, none), w')
        ]
      ]

  -- The run behind the discovery. `none` is a traversal that was cut off.
  unfoldable pub run_discovered :
      Surroundings
      → PolicyConfig Policy
      → Bool
      → World
      → Option (Reply TargetFleet)
      → Option ((Option ExecutionResult × Option Error) × World)
  unfolding run_on_fleet
  run_discovered env cfg dry_run w none = none
  run_discovered env cfg dry_run w (some (fail e)) =
      let failure = wrapped (codes "fleet discovery failed") e in
      some (
        (
          some (early_result dry_run false none (new_summary_metrics dry_run) (failure ∷ [])),
          some e,
        ),
        w,
      )
  run_discovered env cfg dry_run w (some (ok fleet)) =
      let ((result, e), w') = run_on_fleet env cfg dry_run fleet w in some ((some result, e), w')

  -- `runWithOptions`, with a client that is not nil.
  unfoldable pub run_with_options :
      Surroundings
      → Option (PolicyConfig Policy)
      → Bool
      → World
      → Option ((Option ExecutionResult × Option Error) × World)
  unfolding run_discovered
  run_with_options env none dry_run w = some ((none, some nil_config), w)
  run_with_options env (some cfg) dry_run w = run_discovered env cfg dry_run w (
      discover_fleet env.group_stream env.instance_stream env.canceled env.compile env.bad_filter
        env.traversed cfg.targets)
