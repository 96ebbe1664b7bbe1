-- ===== src/Examples/Governance.antt =====
-- Runs of the registry and of the diff builder.
use mathlib.Core.List.{Permᴰ}
use gitlab_fleet_governor.Common.{ℕ, true, Option, some, List, [], ◌∷◌, ◌≡◌, refl, arith}
use gitlab_fleet_governor.Common.Int.{pos}
use gitlab_fleet_governor.Common.Text.{Text, codes, text_eq}
use gitlab_fleet_governor.Governance.Operation.{
  ResourceType, Error, external, operation_failed, Operation, PlanResult, FieldDiff,
  new_skipped_plan_result,
}
use gitlab_fleet_governor.Governance.Diff.{compare_string, compare_bool_ptr}
use gitlab_fleet_governor.Governance.Registry.{ordered_operations, run_operations}
use gitlab_fleet_governor.Governance.Registry.Order.{IsRegistry, ordered_operations_unique}
use gitlab_fleet_governor.Governance.Registry.Stops.{Stops, run_operations-Stops}
use gitlab_fleet_governor.Examples.Samples.{
  widget, counting_plan, settings, branches, registry, never,
}

registry-IsRegistry : IsRegistry registry
registry-IsRegistry = record { distinct = ground arith; named = (refl, (refl, tt)) }

ordered_operations_unique_example : branches ∷ settings ∷ [] ≡ ordered_operations registry
ordered_operations_unique_example =
    ordered_operations_unique registry (branches ∷ settings ∷ []) registry-IsRegistry
      (Permᴰ.swap refl refl) ((refl, tt), (tt, tt))

abbrev call : Operation Unit ℕ → ℕ → (Option PlanResult × Option Error) × ℕ
call op w = op.plan widget tt w

-- Calls that report under the operation's own name.
abbrev named_call : Operation Unit ℕ → ℕ → (Option PlanResult × Option Error) × ℕ
named_call op w = counting_plan op.name w

abbrev failure : Operation Unit ℕ → Error → PlanResult
failure op e = record (new_skipped_plan_result op.name ResourceType.project (pos 7) [] []) {
  error = some e;
}

abbrev wrap : Operation Unit ℕ → Error → Error
wrap op e = operation_failed (codes "planning on project") op.name (pos 7) e

abbrev twice : List (Operation Unit ℕ)
twice = branches ∷ settings ∷ branches ∷ settings ∷ []

-- The third call fails, and the fourth is not made.
third_fails : run_operations never named_call failure wrap twice 0 ≡ (
  (
    new_skipped_plan_result branches.name ResourceType.project (pos 7) [] []
        ∷ new_skipped_plan_result settings.name ResourceType.project (pos 7) [] []
        ∷ failure branches (external (codes "unreachable"))
        ∷ [],
    some (wrap branches (external (codes "unreachable"))),
  ),
  3,
)
unfolding run_operations
third_fails = refl

run_operations-Stops_example :
    Stops never named_call failure wrap twice 0
      (run_operations never named_call failure wrap twice 0)
run_operations-Stops_example = run_operations-Stops never named_call failure wrap twice 0

abbrev reports : List (Option FieldDiff)
reports =
    compare_string (codes "visibility") (codes "public") (codes "private")
    ∷ compare_bool_ptr (codes "lfs_enabled") true (some true)
    ∷ []

abbrev live_topics : List Text
live_topics = codes "b" ∷ codes "a" ∷ []
