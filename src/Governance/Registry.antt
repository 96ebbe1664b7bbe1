-- ===== src/Governance/Registry.antt =====
-- internal/governance/registry.go: the registered operations, their order, and the loops that plan
-- and apply them on a project or a group. The registry's lock makes its methods atomic.
pub mod Order
pub mod Run
pub mod Stops
pub mod Registered
use gitlab_fleet_governor.Common.{
  ℕ, zero, suc, Bool, true, false, Option, some, none, List, [], ◌∷◌, not, ◌&&◌, ◌||◌, ◌==◌,
  if◌then◌else◌, lookup, insert, values,
}
use gitlab_fleet_governor.Common.Int.{ℤ, pos, int_eq, ltb_ℤ}
use gitlab_fleet_governor.Common.Text.{Text, codes, text_eq, text_le}
use gitlab_fleet_governor.Common.Sort.{sort}
use gitlab_fleet_governor.Resources.{Project, Group, TargetProject, TargetGroup}
use gitlab_fleet_governor.Governance.Operation.{
  ActionType, ResourceType, StatusType, Error, operation_failed, PlanResult, ApplyResult, Operation,
}

-- `operations map[string]GovernanceOperation`
abbrev pub OperationsRegistry : Type 0 → Type 0 → Type 0
OperationsRegistry Config World = List (Text × Operation Config World)

-- One round of the loop: what became of the operation, and the loop over the later ones.
unfoldable pub settle :
    {World R : Type 0} (fallback : Error → R) (wrap : Error → Error)
    → (Option R × Option Error) × World
    → (World → (List R × Option Error) × World)
    → (List R × Option Error) × World
settle fallback wrap ((some r, some e), w) later = ((r ∷ [], some (wrap e)), w)
settle fallback wrap ((none, some e), w) later = ((fallback e ∷ [], some (wrap e)), w)
settle fallback wrap ((some r, none), w) later =
    let rest = later w in ((r ∷ rest.0.0, rest.0.1), rest.1)
settle fallback wrap ((none, none), w) later = later w

module _ {Config World : Type 0} where
  unfoldable pub new_operations_registry : OperationsRegistry Config World
  new_operations_registry = []

  unfoldable pub register :
      OperationsRegistry Config World → Operation Config World → OperationsRegistry Config World
  register r op = insert op.name op r

  unfoldable pub register_all :
      OperationsRegistry Config World
      → List (Operation Config World)
      → OperationsRegistry Config World
  unfolding register
  register_all r [] = r
  register_all r (op ∷ ops) = register_all (register r op) ops

  -- `NewDefaultRegistry`, of the reconcilers in the order in which it registers them.
  unfoldable pub new_default_registry :
      List (Operation Config World) → OperationsRegistry Config World
  unfolding new_operations_registry register_all
  new_default_registry reconcilers = register_all new_operations_registry reconcilers

  unfoldable pub get : OperationsRegistry Config World → Text → Option (Operation Config World)
  get r name = lookup name r

  -- The comparison that `sort.Slice` is given.
  abbrev pub op_less : Operation Config World → Operation Config World → Bool
  op_less a b = if a.order == b.order then not (text_le b.name a.name) else ltb_ℤ a.order b.order

  abbrev pub op_le : Operation Config World → Operation Config World → Bool
  op_le a b = not (op_less b a)

  unfoldable pub ordered_operations :
      OperationsRegistry Config World → List (Operation Config World)
  ordered_operations r = sort op_le (values r)

  -- The loop that the four methods below share: `done` is `ctx.Err()` once `ctx.Done()` is closed.
  unfoldable pub run_operations :
      {R : Type 0} (done : World → Option Error)
      (call : Operation Config World → World → (Option R × Option Error) × World)
      (fallback : Operation Config World → Error → R)
      (wrap : Operation Config World → Error → Error)
      → List (Operation Config World)
      → World
      → (List R × Option Error) × World
  unfolding settle
  run_operations done call fallback wrap [] w = (([], none), w)
  run_operations done call fallback wrap (op ∷ ops) w = elim (done w) [
    | some e ↦ (([], some e), w)
    | none ↦ settle (fallback op) (wrap op) (call op w) (run_operations done call fallback wrap ops)
  ]

  module _ (done : World → Option Error) where
    unfoldable pub plan_project :
        OperationsRegistry Config World
        → Project
        → Config
        → World
        → (List PlanResult × Option Error) × World
    plan_project r project cfg =
        run_operations done (λ op. op.plan project cfg)
          (λ op e. record {
            operation_name = op.name;
            resource_type = ResourceType.project;
            resource_id = project.id;
            resource_path = project.path_with_namespace;
            action = ActionType.unset;
            diffs = [];
            has_changes = false;
            details = [];
            error = some e;
          })
          (λ op. operation_failed (codes "planning on project") op.name project.id)
          (ordered_operations r)

    unfoldable pub apply_project :
        OperationsRegistry Config World
        → Project
        → Config
        → World
        → (List ApplyResult × Option Error) × World
    apply_project r project cfg =
        run_operations done (λ op. op.apply project cfg)
          (λ op e. record {
            operation_name = op.name;
            resource_type = ResourceType.project;
            resource_id = project.id;
            resource_path = project.path_with_namespace;
            action = ActionType.unset;
            diffs = [];
            status = StatusType.failed;
            success = false;
            details = [];
            error = some e;
          })
          (λ op. operation_failed (codes "applying on project") op.name project.id)
          (ordered_operations r)

    unfoldable pub plan_group :
        OperationsRegistry Config World
        → Group
        → Config
        → World
        → (List PlanResult × Option Error) × World
    plan_group r group cfg =
        run_operations done (λ op. op.plan_group group cfg)
          (λ op e. record {
            operation_name = op.name;
            resource_type = ResourceType.group;
            resource_id = group.id;
            resource_path = group.full_path;
            action = ActionType.unset;
            diffs = [];
            has_changes = false;
            details = [];
            error = some e;
          })
          (λ op. operation_failed (codes "planning on group") op.name group.id)
          (ordered_operations r)

    unfoldable pub apply_group :
        OperationsRegistry Config World
        → Group
        → Config
        → World
        → (List ApplyResult × Option Error) × World
    apply_group r group cfg =
        run_operations done (λ op. op.apply_group group cfg)
          (λ op e. record {
            operation_name = op.name;
            resource_type = ResourceType.group;
            resource_id = group.id;
            resource_path = group.full_path;
            action = ActionType.unset;
            diffs = [];
            status = StatusType.failed;
            success = false;
            details = [];
            error = some e;
          })
          (λ op. operation_failed (codes "applying on group") op.name group.id)
          (ordered_operations r)

-- The project that a target stands for where discovery kept no raw one.
unfoldable pub project_of_target : TargetProject → Project
project_of_target t = elim t.raw [
  | some raw ↦ raw
  | none ↦ record {
    id = t.id;
    name = t.name;
    path = t.path;
    path_with_namespace = t.path_with_namespace;
    default_branch = t.default_branch;
    visibility = [];
    archived = t.archived;
    marked_for_deletion_at = t.marked_for_deletion_at;
    namespace = none;
    topics = [];
    tag_list = [];
  }
]

unfoldable pub group_of_target : TargetGroup → Group
group_of_target t = elim t.raw [
  | some raw ↦ raw
  | none ↦ record {
    id = t.id;
    name = t.name;
    path = t.path;
    full_path = t.full_path;
    parent_id = t.parent_id;
    visibility = [];
    description = [];
    web_url = [];
  }
]

module _ {Config World : Type 0} (done : World → Option Error)
    (r : OperationsRegistry Config World) where
  unfoldable pub plan_target_project :
      TargetProject → Config → World → (List PlanResult × Option Error) × World
  plan_target_project t = plan_project done r (project_of_target t)

  unfoldable pub apply_target_project :
      TargetProject → Config → World → (List ApplyResult × Option Error) × World
  apply_target_project t = apply_project done r (project_of_target t)

  unfoldable pub plan_target_group :
      TargetGroup → Config → World → (List PlanResult × Option Error) × World
  plan_target_group t = plan_group done r (group_of_target t)

  unfoldable pub apply_target_group :
      TargetGroup → Config → World → (List ApplyResult × Option Error) × World
  apply_target_group t = apply_group done r (group_of_target t)
