-- ===== src/Engine/Run/Gate.antt =====
-- internal/engine/engine.go: runs that must not change anything.
use mathlib.Core.Path.{fun_ext}
use gitlab_fleet_governor.Common.{
  Bool, true, false, Option, some, none, List, [], ◌≡◌, ◌⊎◌, inl, inr, refl, sym, ap, ◌∙◌, arith,
}
use gitlab_fleet_governor.Resources.{TargetFleet, Project, Group}
use gitlab_fleet_governor.Governance.Operation.{Error, Reply, ok, fail, Operation, ApplyResult}
use gitlab_fleet_governor.Governance.Registry.{OperationsRegistry}
use gitlab_fleet_governor.Engine.Results.{TargetResult}
use gitlab_fleet_governor.Engine.Execute.{execute_group}
use gitlab_fleet_governor.Engine.Execute.DryRun.{
  replace_all_apply, execute_project_dry_run, execute_group_dry_run,
}
use gitlab_fleet_governor.Engine.Metrics.{SummaryMetrics, new_summary_metrics, record_discovery}
use gitlab_fleet_governor.License.Version.{Info, Calendar}
use gitlab_fleet_governor.License.Enforce.{Library, Denial, Decision, permitted, denied, enforce}
use gitlab_fleet_governor.Discovery.Fleet.Lists.{group_list, project_list}
use gitlab_fleet_governor.Config.Model.{PolicyConfig}
use gitlab_fleet_governor.Engine.Run.{
  ExecutionResult, Surroundings, early_result, enforcement_options, govern, run_all, run_on_fleet,
  run_discovered, run_with_options,
}

some_triple :
    {A B C : Type 0} {a a' : A} {b b' : B} {c c' : C}
    → ◌≡◌ {A = Option ((A × B) × C)} (some ((a, b), c)) (some ((a', b'), c'))
    → (a ≡ a') × (b ≡ b') × (c ≡ c')
some_triple h = (cc, cc, cc)

run_all-same :
    {A World : Type 0} {f g : A → World → (TargetResult × Option Error) × World}
    → ((a : A) (w : World) → f a w ≡ g a w)
    → (items : List A) (w : World) → run_all f items w ≡ run_all g items w
run_all-same same items w = ap (λ h. run_all h items w) (fun_ext (λ a. fun_ext (same a)))

-- A result of a run in which no target was touched.
abbrev pub Untouched : Option ExecutionResult → Type 0
Untouched r =
    (r ≡ none)
    ⊎ ((result : ExecutionResult) × (r ≡ some result)
        × (result.success ≡ false)
        × (result.target_results ≡ []))

module _ {Claims Policy World : Type 0} (lib : Library Claims) (cal : Calendar) (info : Info)
    (denial_error : Denial → Error) (done : World → Option Error)
    (registry : OperationsRegistry (PolicyConfig Policy) World) where
  run_on_fleet_error :
      (env : Surroundings) (cfg : PolicyConfig Policy) (dry_run : Bool) (fleet : TargetFleet)
      (w : World) (d : Decision Claims) (e : Error)
      → enforce lib cal info env.now (enforcement_options env cfg dry_run fleet) ≡ d
      → (run_on_fleet lib cal info denial_error done registry env cfg dry_run fleet w).0.1 ≡ some e
      → ((run_on_fleet lib cal info denial_error done registry env cfg dry_run fleet w).1 ≡ w)
        × ((run_on_fleet lib cal info denial_error done registry env cfg dry_run fleet
              w).0.0.success
            ≡ false)
        × ((run_on_fleet lib cal info denial_error done registry env cfg dry_run fleet
              w).0.0.target_results
            ≡ [])
  unfolding run_on_fleet early_result
  run_on_fleet_error env cfg dry_run fleet w (denied status why) e h r = ground (arith, h, r)
  run_on_fleet_error env cfg dry_run fleet w (permitted status) e h r = ground (arith, h, r)

  run_discovered_error :
      (env : Surroundings) (cfg : PolicyConfig Policy) (dry_run : Bool) (w w' : World)
      (found : Option (Reply TargetFleet)) (result : Option ExecutionResult) (e : Error)
      → run_discovered lib cal info denial_error done registry env cfg dry_run w found
        ≡ some ((result, some e), w')
      → (w' ≡ w) × Untouched result
  unfolding run_discovered early_result
  run_discovered_error env cfg dry_run w w' none result e h = absurd (cc)
  run_discovered_error env cfg dry_run w w' (some (fail err)) result e h =
      let (r, _, same) = some_triple h in (sym same, inr (_, sym r, refl, refl))
  run_discovered_error env cfg dry_run w w' (some (ok fleet)) result e h =
      let (r, failure, same) = some_triple h in
      let (kept, fails, none_touched) =
        run_on_fleet_error env cfg dry_run fleet w _ e refl failure in
      (sym same ∙ kept, inr (_, sym r, fails, none_touched))

-- Where a run returns an error, whatever the surroundings and the configuration, it left the world as
-- it was, and it has no result or one that tells of no success and lists no target.
pub run_with_options_error :
    {Claims Policy World : Type 0} (lib : Library Claims) (cal : Calendar) (info : Info)
    (denial_error : Denial → Error) (done : World → Option Error)
    (registry : OperationsRegistry (PolicyConfig Policy) World) (env : Surroundings)
    (config : Option (PolicyConfig Policy)) (dry_run : Bool) (w w' : World)
    (result : Option ExecutionResult) (e : Error)
    → run_with_options lib cal info denial_error done registry env config dry_run w
      ≡ some ((result, some e), w')
    → (w' ≡ w) × Untouched result
unfolding run_with_options
run_with_options_error lib cal info denial_error done registry env none dry_run w w' result e h =
    let (r, _, same) = some_triple h in (sym same, inl (sym r))
run_with_options_error lib cal info denial_error done registry env (some cfg) dry_run w w' result e
      h =
    run_discovered_error lib cal info denial_error done registry env cfg dry_run w w' _ result e h

module _ {Claims Policy World : Type 0} (lib : Library Claims) (cal : Calendar) (info : Info)
    (denial_error : Denial → Error) (done : World → Option Error)
    (apply : Operation (PolicyConfig Policy) World
      → Project
      → PolicyConfig Policy
      → World
      → (Option ApplyResult × Option Error) × World)
    (apply_group : Operation (PolicyConfig Policy) World
      → Group
      → PolicyConfig Policy
      → World
      → (Option ApplyResult × Option Error) × World)
    (registry : OperationsRegistry (PolicyConfig Policy) World) where
  abbrev other : OperationsRegistry (PolicyConfig Policy) World
  other = replace_all_apply apply apply_group registry

  govern_dry_run :
      (cfg : PolicyConfig Policy) (fleet : TargetFleet) (metrics : SummaryMetrics) (w : World)
      → govern done other cfg true fleet metrics w ≡ govern done registry cfg true fleet metrics w
  unfolding govern
  govern_dry_run cfg fleet metrics w =
      rw
        (
          run_all-same (execute_group_dry_run apply apply_group done registry cfg)
              (group_list fleet) w,
          run_all-same (execute_project_dry_run apply apply_group done registry cfg)
              (project_list fleet)
              (run_all (λ g. execute_group done registry cfg g true) (group_list fleet) w).1,
        )
        refl

  run_discovered_dry_run :
      (env : Surroundings) (cfg : PolicyConfig Policy) (w : World)
      (found : Option (Reply TargetFleet))
      → run_discovered lib cal info denial_error done other env cfg true w found
        ≡ run_discovered lib cal info denial_error done registry env cfg true w found
  unfolding run_discovered run_on_fleet
  run_discovered_dry_run env cfg w none = refl
  run_discovered_dry_run env cfg w (some (fail e)) = refl
  run_discovered_dry_run env cfg w (some (ok fleet)) =
      ground (
        arith,
        govern_dry_run cfg fleet (record_discovery (new_summary_metrics true) (some fleet)) w,
      )

  -- A dry run, on every configuration and whatever is discovered, gives the same result, the same error
  -- and the same world for every choice of the operations' mutating methods: none of them is called.
  pub run_with_options_dry_run :
      (env : Surroundings) (config : Option (PolicyConfig Policy)) (w : World)
      → run_with_options lib cal info denial_error done
          (replace_all_apply apply apply_group registry)
          env
          config
          true
          w
        ≡ run_with_options lib cal info denial_error done registry env config true w
  unfolding run_with_options
  run_with_options_dry_run env none w = refl
  run_with_options_dry_run env (some cfg) w = run_discovered_dry_run env cfg w _
