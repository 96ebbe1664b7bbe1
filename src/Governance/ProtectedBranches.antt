-- ===== src/Governance/ProtectedBranches.antt =====
-- internal/governance/protectedbranches.go: the operation that brings the protections of a project's
-- branches in line with the rules of a configuration. The client's calls are parameters.
pub mod Rules
pub mod Options
pub mod Carried
pub mod Same
use gitlab_fleet_governor.Common.{
  ℕ, zero, suc, Bool, true, false, not, ◌&&◌, Option, some, none, List, [], ◌∷◌, ◌++◌, map, ◌==◌,
  if◌then◌else◌, nat_beq, lookup, insert,
}
use gitlab_fleet_governor.Common.Int.{ℤ, pos, int_eq, ltb_ℤ}
use gitlab_fleet_governor.Common.Text.{Text, text_eq, codes}
use gitlab_fleet_governor.Resources.{Project, Group}
use gitlab_fleet_governor.Governance.Operation.{
  ActionType, ResourceType, StatusType, Error, external, wrapped, Reply, ok, fail, Diff, PlanResult,
  ApplyResult, Operation, has_items, new_plan_result, new_noop_plan_result, new_skipped_plan_result,
  new_apply_result, new_noop_apply_result, new_skipped_apply_result,
}
use gitlab_fleet_governor.Governance.Diff.{has_changes}
use gitlab_fleet_governor.Governance.ProtectedBranches.Options.{ProtectOptions, to_protect_options}
use gitlab_fleet_governor.Governance.ProtectedBranches.Rules.{
  AccessDescription, ProtectedBranchRule, ProtectedBranch, build_create_diff, build_update_diff,
  is_only_code_owner_approval_changed,
}

abbrev is_some : Option Bool → Bool
is_some none = false
is_some (some b) = true

-- A page of `ListProtectedBranches` (a missing response names no next page), and the calls that change
-- a protection.
pub record BranchPage : Type 0 where
  pub branches : List ProtectedBranch
  pub next_page : ℕ

pub record BranchClient (World : Type 0) : Type 0 where
  pub list_page : ℤ → ℕ → World → Reply BranchPage × World
  pub protect : ℤ → ProtectOptions → World → Option Error × World
  pub unprotect : ℤ → Text → World → Option Error × World
  pub update : ℤ → Text → Option Bool → World → Option Error × World

abbrev pub operation_name : Text
operation_name = codes "protected_branches"

-- The answer of the model where the client names a next page each time.
abbrev pub endless_pages : Error
endless_pages = external (codes "pages without end")

-- `if overallAction == ActionNoop { overallAction = action }`
abbrev pub or_action : ActionType → ActionType → ActionType
or_action ActionType.noop action = action
or_action overall action = overall

-- `liveMap`: the last of several branches with one name.
unfoldable pub live_map :
    List ProtectedBranch → List (Text × ProtectedBranch) → List (Text × ProtectedBranch)
live_map [] m = m
live_map (b ∷ bs) m = live_map bs (insert b.name b m)

module _ (decimal : ℤ → Text) where
  -- The loop of `Plan` over the rules.
  unfoldable pub plan_rules :
      List (Text × ProtectedBranch)
      → List ProtectedBranchRule
      → List Diff
      → ActionType
      → List Diff × ActionType
  plan_rules live [] diffs action = (diffs, action)
  plan_rules live (rule ∷ rules) diffs action = elim (lookup rule.name live) [
    | none ↦
        plan_rules live rules (diffs ++ build_create_diff decimal rule ∷ [])
          (or_action action ActionType.create)
    | some branch ↦ elim (has_changes (build_update_diff decimal branch rule)) [
      | true ↦
          plan_rules live rules (diffs ++ build_update_diff decimal branch rule ∷ [])
            (or_action action ActionType.update)
      | false ↦ plan_rules live rules diffs action
    ]
  ]

module _ {World : Type 0} (client : BranchClient World) (decimal : ℤ → Text) where
  unfoldable pub fetch_all_live_protected_branches :
      ℤ → (fuel page : ℕ) → List ProtectedBranch → World → Reply (List ProtectedBranch) × World
  fetch_all_live_protected_branches id zero page all w = (fail endless_pages, w)
  fetch_all_live_protected_branches id (suc fuel) page all w =
      let (answered, w') = client.list_page id page w in
      elim answered [
        | fail e ↦ (fail e, w')
        | ok answer ↦ elim (nat_beq answer.next_page 0) [
          | true ↦ (ok (all ++ answer.branches), w')
          | false ↦
              fetch_all_live_protected_branches id fuel answer.next_page (all ++ answer.branches) w'
        ]
      ]

  -- An existing protection is patched where only the approval of code owners differs, and otherwise
  -- taken away and made again.
  unfoldable pub reprotect : ℤ → ProtectedBranchRule → Diff → World → Option Error × World
  unfolding to_protect_options
  reprotect id rule diff w =
      elim (is_only_code_owner_approval_changed diff && is_some rule.code_owner_approval_required) [
        | true ↦ client.update id rule.name rule.code_owner_approval_required w
        | false ↦
            let (e, w') = client.unprotect id rule.name w in
            elim e [
              | some err ↦ (some err, w')
              | none ↦ client.protect id (to_protect_options rule) w'
            ]
      ]

  abbrev pub Applied : Type 0
  Applied = (Option ApplyResult × Option Error) × World

  abbrev result : Project → ActionType → StatusType → List Diff → Option Error → ApplyResult
  result p = new_apply_result operation_name ResourceType.project p.id p.path_with_namespace

  abbrev failure : Project → ActionType → List Diff → Error → World → Applied
  failure p action diffs e w =
      ((some (result p action StatusType.failed diffs (some e)), some e), w)

  -- The result of an `Apply` without a failure.
  abbrev pub applied : Project → List Diff × ActionType → ApplyResult
  applied p ([], action) =
      new_noop_apply_result operation_name ResourceType.project p.id p.path_with_namespace
  applied p (d ∷ ds, action) = result p action StatusType.success (d ∷ ds) none

  -- The loop of `Apply` over the rules, and its end.
  unfoldable pub apply_rules :
      Project
      → List (Text × ProtectedBranch)
      → List ProtectedBranchRule
      → List Diff
      → ActionType
      → World
      → Applied
  unfolding reprotect
  apply_rules p live [] diffs action w = ((some (applied p (diffs, action)), none), w)
  apply_rules p live (rule ∷ rules) diffs action w = elim (lookup rule.name live) [
    | none ↦
        let diffs' = diffs ++ build_create_diff decimal rule ∷ [] in
        let (e, w') = client.protect p.id (to_protect_options rule) w in
        elim e [
          | some err ↦ failure p ActionType.create diffs' err w'
          | none ↦ apply_rules p live rules diffs' (or_action action ActionType.create) w'
        ]
    | some branch ↦ elim (has_changes (build_update_diff decimal branch rule)) [
      | false ↦ apply_rules p live rules diffs action w
      | true ↦
          let diffs' = diffs ++ build_update_diff decimal branch rule ∷ [] in
          let (e, w') = reprotect p.id rule (build_update_diff decimal branch rule) w in
          elim e [
            | some err ↦ failure p ActionType.update diffs' err w'
            | none ↦ apply_rules p live rules diffs' (or_action action ActionType.update) w'
          ]
    ]
  ]

  -- The result of a `Plan`.
  abbrev pub planned : Project → List Diff × ActionType → PlanResult
  planned p ([], action) =
      new_noop_plan_result operation_name ResourceType.project p.id p.path_with_namespace
  planned p (d ∷ ds, action) =
      new_plan_result operation_name ResourceType.project p.id p.path_with_namespace action (d ∷ ds)

  -- `Plan` and `Apply` after the live protections are fetched.
  unfoldable pub plan_fetched :
      Project
      → List ProtectedBranchRule
      → Reply (List ProtectedBranch) × World
      → (Option PlanResult × Option Error) × World
  unfolding live_map plan_rules
  plan_fetched p rules (fail e, w) =
      ((none, some (wrapped (codes "failed to list protected branches for project") e)), w)
  plan_fetched p rules (ok branches, w) = (
    (some (planned p (plan_rules decimal (live_map branches []) rules [] ActionType.noop)), none),
    w,
  )

  unfoldable pub apply_fetched :
      Project → List ProtectedBranchRule → Reply (List ProtectedBranch) × World → Applied
  unfolding live_map apply_rules
  apply_fetched p rules (fail e, w) = failure p ActionType.noop [] e w
  apply_fetched p rules (ok branches, w) =
      apply_rules p (live_map branches []) rules [] ActionType.noop w

  module _ {Config : Type 0} (fuel : ℕ) (rules_of : Config → List ProtectedBranchRule) where
    -- `Plan`; `rules_of` is `cfg.Policies.ProtectedBranches`, and no rules for a nil configuration.
    unfoldable pub plan : Project → Config → World → (Option PlanResult × Option Error) × World
    unfolding fetch_all_live_protected_branches plan_fetched
    plan p cfg w =
        if has_items (rules_of cfg)
        then plan_fetched p (rules_of cfg) (fetch_all_live_protected_branches p.id fuel 1 [] w)
        else ((some (planned p ([], ActionType.noop)), none), w)

    unfoldable pub apply : Project → Config → World → Applied
    unfolding fetch_all_live_protected_branches apply_fetched
    apply p cfg w =
        if has_items (rules_of cfg)
        then apply_fetched p (rules_of cfg) (fetch_all_live_protected_branches p.id fuel 1 [] w)
        else ((some (applied p ([], ActionType.noop)), none), w)

    -- The operation, which skips groups.
    unfoldable pub protected_branches : Operation Config World
    unfolding plan apply
    protected_branches = record {
      name = operation_name;
      order = pos 20;
      plan = plan;
      apply = apply;
      plan_group = λ g cfg w. (
        (
          some (
              new_skipped_plan_result operation_name ResourceType.group g.id g.full_path
                (codes "Protected branches are not applicable to groups")),
          none,
        ),
        w,
      );
      apply_group = λ g cfg w. (
        (
          some (
              new_skipped_apply_result operation_name ResourceType.group g.id g.full_path
                (codes "Protected branches are not applicable to groups")),
          none,
        ),
        w,
      );
    }
