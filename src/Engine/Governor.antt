-- ===== src/Engine/Governor.antt =====
-- `GovernanceEngine` of internal/engine/engine.go and its entry points. The client is there or nil; the
-- registry that replaces a nil one is the caller's.
use gitlab_fleet_governor.Common.{
  zero, suc, Bool, true, false, not, ◌||◌, Option, some, none, if◌then◌else◌, ltb,
}
use gitlab_fleet_governor.Common.Int.{ℤ, pos, negsuc}
use gitlab_fleet_governor.Common.Text.{codes}
use gitlab_fleet_governor.Governance.Operation.{Error, external, Reply, ok, fail, has_items}
use gitlab_fleet_governor.Governance.Registry.{OperationsRegistry}
use gitlab_fleet_governor.License.Version.{Info, Calendar}
use gitlab_fleet_governor.License.Enforce.{Library, Denial}
use gitlab_fleet_governor.Config.Model.{PolicyConfig}
use gitlab_fleet_governor.Engine.Run.{ExecutionResult, Surroundings, nil_config, run_with_options}

pub record GovernanceEngine (Policy World : Type 0) : Type 0 where
  pub has_client : Bool
  pub config : Option (PolicyConfig Policy)
  pub registry : OperationsRegistry (PolicyConfig Policy) World
  pub concurrency : ℤ
  pub dry_run : Bool

abbrev pub nil_client : Error
nil_client = external (codes "gitlab client cannot be nil")

-- `if x > 0 { ... }` on a concurrency.
abbrev pub positive_else : ℤ → ℤ → ℤ
positive_else default (pos zero) = default
positive_else default (pos (suc n)) = pos (suc n)
positive_else default (negsuc n) = default

abbrev pub flag_or : Bool → Option Bool → Bool
flag_or default none = default
flag_or default (some b) = b

module _ {Policy World : Type 0} where
  -- `NewGovernanceEngine` without options: the mode is a dry run unless the configuration says no.
  unfoldable pub new_governance_engine :
      Bool
      → Option (PolicyConfig Policy)
      → OperationsRegistry (PolicyConfig Policy) World
      → Reply (GovernanceEngine Policy World)
  new_governance_engine false cfg default_registry = fail nil_client
  new_governance_engine true none default_registry = fail nil_config
  new_governance_engine true (some cfg) default_registry = ok (record {
    has_client = true;
    config = some cfg;
    registry = default_registry;
    concurrency = positive_else (pos 10) cfg.settings.concurrency;
    dry_run = flag_or true cfg.settings.dry_run;
  })

  -- `NewEngine` without options.
  unfoldable pub new_engine :
      Bool → OperationsRegistry (PolicyConfig Policy) World → GovernanceEngine Policy World
  new_engine has_client default_registry = record {
    has_client = has_client;
    config = none;
    registry = default_registry;
    concurrency = pos 10;
    dry_run = true;
  }

module _ {Claims Policy World : Type 0} (lib : Library Claims) (cal : Calendar) (info : Info)
    (denial_error : Denial → Error) (done : World → Option Error) (env : Surroundings)
    (e : GovernanceEngine Policy World) where
  abbrev Answer : Type 0
  Answer = Option ((Option ExecutionResult × Option Error) × World)

  abbrev run_config : Option (PolicyConfig Policy) → Bool → World → Answer
  run_config cfg dry_run w =
      if not e.has_client
      then some ((none, some nil_client), w)
      else run_with_options lib cal info denial_error done e.registry env cfg dry_run w

  -- `Execute`, which reads the mode from the configuration it is given.
  unfoldable pub execute : Option (PolicyConfig Policy) → World → Answer
  execute none w = some ((none, some nil_config), w)
  execute (some cfg) w = run_config (some cfg) (flag_or e.dry_run cfg.settings.dry_run) w

  unfoldable pub run : World → Answer
  run = run_config e.config e.dry_run

  unfoldable pub plan : World → Answer
  plan = run_config e.config true

  unfoldable pub apply : World → Answer
  apply = run_config e.config false

-- `ExecutionResult.HasChanges`, of a result with metrics.
unfoldable pub result_has_changes : ExecutionResult → Bool
result_has_changes r = ltb 0 r.metrics.metrics.total_changed

unfoldable pub result_has_errors : ExecutionResult → Bool
result_has_errors r = not r.success || has_items r.errors || ltb 0 r.metrics.metrics.total_failed
