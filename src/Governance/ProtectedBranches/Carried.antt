-- ===== src/Governance/ProtectedBranches/Carried.antt =====
-- internal/governance/protectedbranches.go: Apply carries out what Plan announces.
use gitlab_fleet_governor.Common.{
  ℕ, true, Option, some, none, List, [], ◌∷◌, ◌++◌, ◌≡◌, refl, arith, lookup, inl, inr,
  Option-cases, Bool-cases,
}
use gitlab_fleet_governor.Common.Int.{ℤ}
use gitlab_fleet_governor.Common.Text.{Text, text_eq}
use gitlab_fleet_governor.Resources.{Project}
use gitlab_fleet_governor.Governance.Operation.{
  ActionType, Error, Reply, ok, fail, Diff, PlanResult, ApplyResult, has_items, new_plan_result,
  new_noop_plan_result, new_apply_result, new_noop_apply_result,
}
use gitlab_fleet_governor.Governance.Diff.{has_changes}
use gitlab_fleet_governor.Governance.ProtectedBranches.Options.{to_protect_options}
use gitlab_fleet_governor.Governance.ProtectedBranches.Rules.{
  ProtectedBranchRule, ProtectedBranch, build_create_diff, build_update_diff,
}
use gitlab_fleet_governor.Governance.ProtectedBranches.{
  BranchClient, or_action, reprotect, plan_rules, apply_rules, plan, apply, applied, planned,
  fetch_all_live_protected_branches, live_map, apply_fetched, plan_fetched,
}

-- An answer of `Plan` that says of a project what the result of an `Apply` says, and the result a success.
pub record Announced (ar : ApplyResult) (answer : Option PlanResult × Option Error) : Type 0 where
  pub plan_result : PlanResult
  pub answered : answer ≡ (some plan_result, none)
  pub same_diffs : ar.diffs ≡ plan_result.diffs
  pub same_action : ar.action ≡ plan_result.action
  pub succeeded : ar.success ≡ true

module _ {World : Type 0} (client : BranchClient World) (decimal : ℤ → Text) where
  apply_rules-applied :
      (p : Project) (live : List (Text × ProtectedBranch)) (rules : List ProtectedBranchRule)
      (diffs : List Diff) (action : ActionType) (w : World) (ar : ApplyResult)
      → (apply_rules client decimal p live rules diffs action w).0 ≡ (some ar, none)
      → ar ≡ applied client decimal p (plan_rules decimal live rules diffs action)
  unfolding apply_rules plan_rules
  apply_rules-applied p live [] diffs action w ar h = cc
  apply_rules-applied p live (rule ∷ rules) diffs action w ar h =
      elim (Option-cases (lookup rule.name live)) [
        | inl missing ↦ ground (
          arith,
          missing,
          h,
          Option-cases (client.protect p.id (to_protect_options rule) w).0,
          apply_rules-applied p live rules (diffs ++ build_create_diff decimal rule ∷ [])
              (or_action action ActionType.create)
              (client.protect p.id (to_protect_options rule) w).1 ar,
        )
        | inr (branch, there) ↦ ground (
          arith,
          there,
          h,
          Bool-cases (has_changes (build_update_diff decimal branch rule)),
          Option-cases
              (reprotect client decimal p.id rule (build_update_diff decimal branch rule) w).0,
          apply_rules-applied p live rules diffs action w ar,
          apply_rules-applied p live rules (diffs ++ build_update_diff decimal branch rule ∷ [])
              (or_action action ActionType.update)
              (reprotect client decimal p.id rule (build_update_diff decimal branch rule) w).1 ar,
        )
      ]

  -- The results of a plan and of an apply over the same diffs.
  announced :
      (p : Project) (found : List Diff × ActionType) (answer : Option PlanResult × Option Error)
      → answer ≡ (some (planned client decimal p found), none)
      → Announced (applied client decimal p found) answer
  unfolding new_plan_result new_apply_result new_noop_plan_result new_noop_apply_result
  announced p ([], action) answer h = record {
    plan_result = planned client decimal p ([], action);
    answered = h;
    same_diffs = refl;
    same_action = refl;
    succeeded = refl;
  }
  announced p (d ∷ ds, action) answer h = record {
    plan_result = planned client decimal p (d ∷ ds, action);
    answered = h;
    same_diffs = refl;
    same_action = refl;
    succeeded = refl;
  }

  fetched-Announced :
      (p : Project) (rules : List ProtectedBranchRule)
      (fetched : Reply (List ProtectedBranch) × World) (ar : ApplyResult)
      → (apply_fetched client decimal p rules fetched).0 ≡ (some ar, none)
      → Announced ar (plan_fetched client decimal p rules fetched).0
  unfolding apply_fetched plan_fetched
  fetched-Announced p rules (fail e, w) ar h = absurd (ground (arith, h))
  fetched-Announced p rules (ok branches, w) ar h =
      rw (apply_rules-applied p (live_map branches []) rules [] ActionType.noop w ar h)
        (announced p (plan_rules decimal (live_map branches []) rules [] ActionType.noop) _ refl)

  module _ {Config : Type 0} (fuel : ℕ) (rules_of : Config → List ProtectedBranchRule) where
    -- Where applying the rules on protected branches to a project answers a result without an error, planning them on
    -- the same world answers without an error, with the diffs and the action of that result, which is a success.
    pub apply-Announced :
        (p : Project) (cfg : Config) (w : World) (ar : ApplyResult)
        → (apply client decimal fuel rules_of p cfg w).0 ≡ (some ar, none)
        → Announced ar (plan client decimal fuel rules_of p cfg w).0
    unfolding apply plan
    apply-Announced p cfg w ar h = elim (Bool-cases (has_items (rules_of cfg))) [
      | inl some_rules ↦ rw some_rules (
          fetched-Announced p (rules_of cfg)
            (fetch_all_live_protected_branches client decimal p.id fuel 1 [] w) ar
            (ground (arith, h, some_rules)))
      | inr no_rules ↦
          let none_applied : ar ≡ applied client decimal p ([], ActionType.noop) =
            ground (arith, h, no_rules) in
          rw (no_rules, none_applied) (announced p ([], ActionType.noop) _ refl)
    ]
