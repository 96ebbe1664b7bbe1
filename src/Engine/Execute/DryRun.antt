-- ===== src/Engine/Execute/DryRun.antt =====
-- A dry run never reaches the mutating methods: it is the same whatever they do.
use mathlib.Core.Path.{fun_ext}
use gitlab_fleet_governor.Common.{
  true, Option, List, [], ◌∷◌, map, ◌≡◌, refl, ◌∙◌, ap, Option-cases, values, inl, inr,
}
use gitlab_fleet_governor.Common.Sort.{sort, sort-map}
use gitlab_fleet_governor.Resources.{Project, Group, TargetProject, TargetGroup}
use gitlab_fleet_governor.Governance.Operation.{Operation, Error, PlanResult, ApplyResult}
use gitlab_fleet_governor.Governance.Registry.{
  OperationsRegistry, op_le, ordered_operations, run_operations, plan_project, plan_group,
  plan_target_project, plan_target_group,
}
use gitlab_fleet_governor.Governance.Registry.Run.{run_operations-go, run_operations-stop}
use gitlab_fleet_governor.Engine.Execute.{execute_project, execute_group}

module _ {Config World : Type 0}
    (apply : Operation Config World
      → Project
      → Config
      → World
      → (Option ApplyResult × Option Error) × World)
    (apply_group : Operation Config World
      → Group
      → Config
      → World
      → (Option ApplyResult × Option Error) × World) where
  -- An operation with other mutating methods.
  abbrev pub replace_apply : Operation Config World → Operation Config World
  replace_apply op = record op { apply = apply op; apply_group = apply_group op }

  abbrev pub replace_all_apply : OperationsRegistry Config World → OperationsRegistry Config World
  replace_all_apply [] = []
  replace_all_apply ((k, op) ∷ r) = (k, replace_apply op) ∷ replace_all_apply r

  values-replace :
      (r : OperationsRegistry Config World)
      → values (replace_all_apply r) ≡ map replace_apply (values r)
  values-replace [] = refl
  values-replace ((k, op) ∷ r) = ap (◌∷◌ (replace_apply op)) (values-replace r)

  ordered-replace :
      (r : OperationsRegistry Config World)
      → ordered_operations (replace_all_apply r) ≡ map replace_apply (ordered_operations r)
  unfolding ordered_operations
  ordered-replace r =
      ap (sort op_le) (values-replace r)
      ∙ sort-map op_le op_le replace_apply (λ a b. refl) (values r)

  module _ (done : World → Option Error) where
    run-replace :
        (call : Operation Config World → World → (Option PlanResult × Option Error) × World)
        (fallback : Operation Config World → Error → PlanResult)
        (wrap : Operation Config World → Error → Error)
        → ((op : Operation Config World) → call (replace_apply op) ≡ call op)
        → ((op : Operation Config World) → fallback (replace_apply op) ≡ fallback op)
        → ((op : Operation Config World) → wrap (replace_apply op) ≡ wrap op)
        → (ops : List (Operation Config World)) (w : World)
        → run_operations done call fallback wrap (map replace_apply ops) w
          ≡ run_operations done call fallback wrap ops w
    run-replace call fallback wrap c f g [] w = refl
    run-replace call fallback wrap c f g (op ∷ ops) w =
        let op' = replace_apply op in
        let ops' = map replace_apply ops in
        elim (Option-cases (done w)) [
          | inl n ↦ rw (
            run_operations-go done call fallback wrap op' ops' w n,
            run_operations-go done call fallback wrap op ops w n,
            c op,
            f op,
            g op,
            fun_ext (run-replace call fallback wrap c f g ops),
          )
          | inr (e, s) ↦ rw (
            run_operations-stop done call fallback wrap op' ops' w e s,
            run_operations-stop done call fallback wrap op ops w e s,
          )
        ]

    plan_project-replace :
        (r : OperationsRegistry Config World) (p : Project) (cfg : Config) (w : World)
        → plan_project done (replace_all_apply r) p cfg w ≡ plan_project done r p cfg w
    unfolding plan_project
    plan_project-replace r p cfg w =
        rw (ordered-replace r)
          (run-replace _ _ _ (λ op. refl) (λ op. refl) (λ op. refl) (ordered_operations r) w)

    plan_group-replace :
        (r : OperationsRegistry Config World) (g : Group) (cfg : Config) (w : World)
        → plan_group done (replace_all_apply r) g cfg w ≡ plan_group done r g cfg w
    unfolding plan_group
    plan_group-replace r g cfg w =
        rw (ordered-replace r)
          (run-replace _ _ _ (λ op. refl) (λ op. refl) (λ op. refl) (ordered_operations r) w)

    pub execute_project_dry_run :
        (r : OperationsRegistry Config World) (cfg : Config) (p : TargetProject) (w : World)
        → execute_project done (replace_all_apply r) cfg p true w
          ≡ execute_project done r cfg p true w
    unfolding execute_project plan_target_project
    execute_project_dry_run r cfg p w = rw plan_project-replace

    pub execute_group_dry_run :
        (r : OperationsRegistry Config World) (cfg : Config) (g : TargetGroup) (w : World)
        → execute_group done (replace_all_apply r) cfg g true w ≡ execute_group done r cfg g true w
    unfolding execute_group plan_target_group
    execute_group_dry_run r cfg g w = rw plan_group-replace

    -- In a dry run the outcome on a project or a group, and the world that is left, are the same
    -- for every choice of the operations' mutating methods: none of them is called.
    pub execute_dry_run :
        (r : OperationsRegistry Config World) (cfg : Config) (p : TargetProject) (g : TargetGroup)
        (w : World)
        → (execute_project done (replace_all_apply r) cfg p true w
            ≡ execute_project done r cfg p true w)
          × (execute_group done (replace_all_apply r) cfg g true w
              ≡ execute_group done r cfg g true w)
    execute_dry_run r cfg p g w =
        (execute_project_dry_run r cfg p w, execute_group_dry_run r cfg g w)
