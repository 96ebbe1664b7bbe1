-- ===== src/Examples/Run.antt =====
-- Runs of the engine from discovery to report.
use gitlab_fleet_governor.Common.{
  ℕ, true, false, Option, some, none, [], ◌∷◌, ◌≡◌, ◌↔◌, refl, In, keys, ◌+◌,
}
use gitlab_fleet_governor.Common.Int.{ℤ, pos}
use gitlab_fleet_governor.Common.Text.{codes}
use gitlab_fleet_governor.Resources.{Project, TargetFleet}
use gitlab_fleet_governor.Governance.Operation.{
  Error, external, wrapped, ok, Operation, ApplyResult,
}
use gitlab_fleet_governor.Governance.Registry.{OperationsRegistry}
use gitlab_fleet_governor.Gitlab.Pagination.{value, err}
use gitlab_fleet_governor.Engine.Metrics.{new_summary_metrics}
use gitlab_fleet_governor.Engine.Execute.DryRun.{replace_all_apply}
use gitlab_fleet_governor.Engine.Run.{
  ExecutionResult, Surroundings, early_result, run_discovered, run_with_options,
}
use gitlab_fleet_governor.Engine.Run.Gate.{
  Untouched, run_with_options_error, run_with_options_dry_run,
}
use gitlab_fleet_governor.License.Enforce.{Denial}
use gitlab_fleet_governor.Discovery.Filter.{built, empty_filter, new_project_filter, matches}
use gitlab_fleet_governor.Discovery.Groups.{DiscoveredGroup, found, GroupSelector}
use gitlab_fleet_governor.Discovery.Fleet.{to_fleet, new_fleet_accumulator}
use gitlab_fleet_governor.Discovery.Coordinator.{
  TargetSelectors, Stream, discover_fleet, add_discovered_groups, scan_group_projects,
  scan_instance_projects,
}
use gitlab_fleet_governor.Discovery.Coordinator.Found.{discover_fleet_iff}
use gitlab_fleet_governor.Config.Model.{Settings, Policies, PolicyConfig}
use gitlab_fleet_governor.Examples.License.{library, calendar, release}
use gitlab_fleet_governor.Examples.Samples.{widget, group_of, target, target_group, counting, never}

abbrev settings : Settings
settings = record {
  dry_run = none;
  concurrency = pos 0;
  log_level = [];
  log_format = [];
  report_format = [];
  gitlab = record {
    base_url = codes "https://gitlab.com";
    token = [];
    token_type = [];
    timeout_seconds = pos 0;
    rate_limit_burst = pos 0;
    max_retries = pos 0;
    retry_base_delay_ms = pos 0;
    retry_max_delay_ms = pos 0;
  };
  license = record { key = []; file = []; crl = []; crl_file = []; crl_url = [] };
}

abbrev policies : Policies ℕ
policies = record {
  protected_tags = none;
  protected_environments = none;
  approval_rules = none;
  pipeline_retention = none;
  runners = none;
  compliance = none;
  webhooks = [];
  target_branch_rules = none;
  branch_merges = 1 ∷ [];
}

abbrev everywhere : GroupSelector
everywhere = record {
  group_ids_include = [];
  group_ids_exclude = [];
  group_paths_include = [];
  group_paths_exclude = [];
  recursive = none;
}

abbrev by_groups : TargetSelectors
by_groups = record { group_selector = some everywhere; project_selector = none }

abbrev config : PolicyConfig ℕ
config = record {
  version = codes "v1";
  settings = settings;
  targets = record { group_selector = none; project_selector = none };
  policies = policies;
}

abbrev registry : OperationsRegistry (PolicyConfig ℕ) ℕ
registry = (codes "settings", counting (codes "settings") (pos 20)) ∷ []

abbrev fleet : TargetFleet
fleet = record {
  projects = (pos 7, target) ∷ [];
  groups = (pos 1, target_group) ∷ [];
  scanned_projects_count = 1;
  scanned_groups_count = 1;
  matched_projects_count = 1;
  matched_groups_count = 1;
}

abbrev the_group : DiscoveredGroup
the_group = record {
  id = pos 1;
  name = codes "group";
  path = codes "group";
  full_path = codes "org/group";
  parent_id = pos 0;
  root_parent_id = pos 1;
  depth = 0;
  visibility = codes "private";
  description = [];
  web_url = [];
  raw = group_of 1;
}

abbrev one_project : ℤ → Stream
one_project group = value (some widget) ∷ value none ∷ []

abbrev broken_stream : Stream
broken_stream = value (some widget) ∷ err (external (codes "timeout")) ∷ []

abbrev not_canceled : ℕ → Option Error
not_canceled n = none

abbrev env : Surroundings
env = record {
  group_stream = one_project;
  instance_stream = broken_stream;
  canceled = not_canceled;
  compile = λ s. none;
  bad_filter = λ e. external (codes "filter");
  traversed = λ sel. found (the_group ∷ []);
  server_time = none;
  in_lambda = false;
  now = pos 1790000000000000000;
}

abbrev denial_error : Denial → Error
denial_error d = external (codes "denied")

-- Mutating methods that jump the world ahead.
abbrev wreck :
    {Target : Type 0}
    → Operation (PolicyConfig ℕ) ℕ
    → Target
    → PolicyConfig ℕ
    → ℕ
    → (Option ApplyResult × Option Error) × ℕ
wreck op t c w = ((none, some (external (codes "called"))), w + 1000)

run_with_options_dry_run_example :
    run_with_options library calendar release denial_error never
      (replace_all_apply wreck wreck registry)
      env
      (some (record config { targets = by_groups }))
      true
      0
    ≡ run_with_options library calendar release denial_error never registry env
        (some (record config { targets = by_groups }))
        true
        0
run_with_options_dry_run_example =
    run_with_options_dry_run library calendar release denial_error never wreck wreck registry env
      (some (record config { targets = by_groups })) 0

abbrev broken : Error
broken = wrapped (codes "failed to stream instance projects") (external (codes "timeout"))

abbrev report : ExecutionResult
report =
    early_result false false none (new_summary_metrics false)
      (wrapped (codes "fleet discovery failed") broken ∷ [])

stream_breaks :
    run_with_options library calendar release denial_error never registry env (some config) false 0
    ≡ some ((some report, some broken), 0)
unfolding run_with_options run_discovered discover_fleet scan_instance_projects new_project_filter
    early_result new_summary_metrics
stream_breaks = refl

run_with_options_error_example : (◌≡◌ {A = ℕ} 0 0) × Untouched (some report)
run_with_options_error_example =
    run_with_options_error library calendar release denial_error never registry env (some config)
      false 0 0 (some report) broken stream_breaks

abbrev discovered : TargetFleet
discovered =
    to_fleet
      (scan_group_projects one_project broken_stream not_canceled empty_filter 0 none
        (add_discovered_groups new_fleet_accumulator (the_group ∷ [])) (the_group ∷ [])).0

discovers :
    discover_fleet one_project broken_stream not_canceled env.compile env.bad_filter env.traversed
      by_groups
    ≡ some (ok discovered)
unfolding discover_fleet new_project_filter scan_group_projects
discovers = refl

no_selector : new_project_filter env.compile none ≡ built empty_filter
unfolding new_project_filter
no_selector = refl

discover_fleet_iff_example : In (pos 7) (keys discovered.projects) ↔ (
    (p : Project) × (g : DiscoveredGroup) × In g (the_group ∷ [])
    × In (value (some p)) (one_project g.id)
    × (matches (some empty_filter) (some p) ≡ true)
    × (p.id ≡ pos 7))
discover_fleet_iff_example =
    discover_fleet_iff one_project broken_stream not_canceled env.compile env.bad_filter
      env.traversed by_groups everywhere (the_group ∷ []) empty_filter discovered (pos 7)
      no_selector refl refl discovers
