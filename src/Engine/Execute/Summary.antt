-- ===== src/Engine/Execute/Summary.antt =====
-- What a target's result says of the operations that were run on it.
use mathlib.Core.List.{append-nil, append_assoc}
use gitlab_fleet_governor.Common.{
  Bool, true, false, Option, some, none, List, [], ◌∷◌, ◌++◌, map, not, ◌&&◌, ◌||◌, if◌then◌else◌,
  ◌≡◌, refl, sym, ap, ◌∙◌, any, all_of, arith, Bool-cases, inl, inr,
}
use gitlab_fleet_governor.Common.Int.{ℤ}
use gitlab_fleet_governor.Common.Text.{Text}
use gitlab_fleet_governor.Resources.{TargetProject, TargetGroup}
use gitlab_fleet_governor.Governance.Operation.{ResourceType, Error}
use gitlab_fleet_governor.Governance.Registry.{
  OperationsRegistry, plan_target_project, apply_target_project, plan_target_group,
  apply_target_group,
}
use gitlab_fleet_governor.Engine.Results.{
  OperationResult, TargetResult, is_some, plan_outcome, apply_outcome,
}
use gitlab_fleet_governor.Engine.Execute.{
  absorb, absorb_all, conclude, new_project_result, new_group_result, skipped_project_result,
  is_marked, lifecycle_check, execute_project, execute_group,
}

-- What the registry answers for a target, with its results as outcomes of operations.
abbrev pub Answer : Type 0 → Type 0
Answer World = (List OperationResult × Option Error) × World

abbrev pub outcomes :
    {R World : Type 0} → (R → OperationResult) → (List R × Option Error) × World → Answer World
outcomes outcome answer = ((map outcome answer.0.0, answer.0.1), answer.1)

-- A result that says of a target what the registry answered for it: all its outcomes in their order,
-- and its error, recorded and returned; the flags are those of the outcomes and of the error.
pub record IsConclusion {World : Type 0} (id : ℤ) (path name : Text) (kind : ResourceType)
    (dry_run : Bool) (answer : Answer World) (out : (TargetResult × Option Error) × World)
    : Type 0 where
  pub target :
      (out.0.0.target_id ≡ id)
      × (out.0.0.target_path ≡ path)
      × (out.0.0.target_name ≡ name)
      × (out.0.0.resource_type ≡ kind)
      × (out.0.0.dry_run ≡ dry_run)
  pub operations : out.0.0.operations ≡ answer.0.0
  pub recorded : out.0.0.error ≡ answer.0.1
  pub returned : out.0.1 ≡ answer.0.1
  pub world : out.1 ≡ answer.1
  pub changes : out.0.0.has_changes ≡ any (λ (op : OperationResult). op.has_changes) answer.0.0
  pub succeeds :
      out.0.0.success
      ≡ (not (is_some answer.0.1) && all_of (λ (op : OperationResult). op.success) answer.0.0)

absorb_all_lem :
    (res : TargetResult) (ops : List OperationResult)
    → ((absorb_all res ops).operations ≡ res.operations ++ ops)
      × ((absorb_all res ops).has_changes
          ≡ (res.has_changes || any (λ (op : OperationResult). op.has_changes) ops))
      × ((absorb_all res ops).success
          ≡ (res.success && all_of (λ (op : OperationResult). op.success) ops))
      × ((absorb_all res ops).error ≡ res.error)
unfolding absorb_all absorb
absorb_all_lem res [] = (sym (append-nil res.operations), ground arith, ground arith, refl)
absorb_all_lem res (op ∷ ops) =
    let (e, c, s, r) = absorb_all_lem (absorb res op) ops in
    (e ∙ append_assoc res.operations (op ∷ []) ops, ground arith, ground arith, r)

-- A result that nothing was recorded in yet.
record IsFresh (res : TargetResult) : Type 0 where
  operations : res.operations ≡ []
  changes : res.has_changes ≡ false
  succeeds : res.success ≡ true
  errs : res.error ≡ none

absorb_all-target :
    (res : TargetResult) (ops : List OperationResult)
    → ((absorb_all res ops).target_id ≡ res.target_id)
      × ((absorb_all res ops).target_path ≡ res.target_path)
      × ((absorb_all res ops).target_name ≡ res.target_name)
      × ((absorb_all res ops).resource_type ≡ res.resource_type)
      × ((absorb_all res ops).dry_run ≡ res.dry_run)
unfolding absorb_all absorb
absorb_all-target res [] = (refl, refl, refl, refl, refl)
absorb_all-target res (op ∷ ops) = absorb_all-target (absorb res op) ops

conclude-IsConclusion :
    {R World : Type 0} (outcome : R → OperationResult) (res : TargetResult)
    (r : (List R × Option Error) × World)
    → IsFresh res
    → IsConclusion res.target_id res.target_path res.target_name res.resource_type res.dry_run
        (outcomes outcome r)
        (conclude outcome res r)
unfolding conclude
conclude-IsConclusion outcome res ((rs, none), w) fresh =
    let (e, c, s, r) = absorb_all_lem res (map outcome rs) in
    record {
      target = absorb_all-target res (map outcome rs);
      operations = e ∙ ap (λ ops. ops ++ map outcome rs) fresh.operations;
      recorded = r ∙ fresh.errs;
      returned = refl;
      world = refl;
      changes =
          c
          ∙ ap (λ b. b || any (λ (op : OperationResult). op.has_changes) (map outcome rs))
              fresh.changes;
      succeeds =
          s
          ∙ ap (λ b. b && all_of (λ (op : OperationResult). op.success) (map outcome rs))
              fresh.succeeds;
    }
conclude-IsConclusion outcome res ((rs, some x), w) fresh =
    let res' = record res { success = false; error = some x } in
    let (e, c, s, r) = absorb_all_lem res' (map outcome rs) in
    record {
      target = absorb_all-target res' (map outcome rs);
      operations = e ∙ ap (λ ops. ops ++ map outcome rs) fresh.operations;
      recorded = r;
      returned = refl;
      world = refl;
      changes =
          c
          ∙ ap (λ b. b || any (λ (op : OperationResult). op.has_changes) (map outcome rs))
              fresh.changes;
      succeeds = s;
    }

project-IsFresh : (p : TargetProject) (d : Bool) → IsFresh (new_project_result p d)
unfolding new_project_result
project-IsFresh p d = record { operations = refl; changes = refl; succeeds = refl; errs = refl }

group-IsFresh : (g : TargetGroup) (d : Bool) → IsFresh (new_group_result g d)
unfolding new_group_result
group-IsFresh g d = record { operations = refl; changes = refl; succeeds = refl; errs = refl }

module _ {Config World : Type 0} (done : World → Option Error)
    (registry : OperationsRegistry Config World) (cfg : Config) where
  -- A project that is marked for deletion is left alone, beside the check that says so.
  abbrev pub answer_for_project : TargetProject → Bool → World → Answer World
  answer_for_project p dry_run w =
      if is_marked p
      then ((lifecycle_check p ∷ [], none), w)
      else if dry_run
      then outcomes plan_outcome (plan_target_project done registry p cfg w)
      else outcomes apply_outcome (apply_target_project done registry p cfg w)

  abbrev pub answer_for_group : TargetGroup → Bool → World → Answer World
  answer_for_group g dry_run w =
      if dry_run
      then outcomes plan_outcome (plan_target_group done registry g cfg w)
      else outcomes apply_outcome (apply_target_group done registry g cfg w)

  abbrev pub ConcludesProject : TargetProject → Bool → World → Type 0
  ConcludesProject p dry_run w =
      IsConclusion p.id p.path_with_namespace p.name ResourceType.project dry_run
        (answer_for_project p dry_run w) (execute_project done registry cfg p dry_run w)

  abbrev pub ConcludesGroup : TargetGroup → Bool → World → Type 0
  ConcludesGroup g dry_run w =
      IsConclusion g.id g.full_path g.name ResourceType.group dry_run (answer_for_group g dry_run w)
        (execute_group done registry cfg g dry_run w)

  project : (p : TargetProject) (d : Bool) (w : World) → ConcludesProject p d w
  unfolding execute_project new_project_result skipped_project_result
  project p d w = elim (Bool-cases (is_marked p)) [
    | inl marked ↦
        rw (marked, execute_project)
          (record {
            target = (refl, refl, refl, refl, refl);
            operations = refl;
            recorded = refl;
            returned = refl;
            world = refl;
            changes = refl;
            succeeds = refl;
          })
    | inr live ↦ elim (Bool-cases d) [
      | inl dry ↦
          rw (live, dry, execute_project)
            (conclude-IsConclusion plan_outcome (new_project_result p true)
              (plan_target_project done registry p cfg w) (project-IsFresh p true))
      | inr mutates ↦
          rw (live, mutates, execute_project)
            (conclude-IsConclusion apply_outcome (new_project_result p false)
              (apply_target_project done registry p cfg w) (project-IsFresh p false))
    ]
  ]

  group : (g : TargetGroup) (d : Bool) (w : World) → ConcludesGroup g d w
  unfolding execute_group new_group_result
  group g true w =
      conclude-IsConclusion plan_outcome (new_group_result g true)
        (plan_target_group done registry g cfg w) (group-IsFresh g true)
  group g false w =
      conclude-IsConclusion apply_outcome (new_group_result g false)
        (apply_target_group done registry g cfg w) (group-IsFresh g false)

  -- On every branch, of a project or of a group, in either mode: the result is that of its target and
  -- has exactly the outcomes that the registry's call for the mode answers with, in their order; the
  -- call's error is recorded in the result and returned; the world is the one the call left; the
  -- target has changes exactly if an outcome has, and succeeds exactly if there was no error and all
  -- outcomes succeeded. For a project that is marked for deletion no call is made, the one outcome is
  -- the skipped lifecycle check, and the world stays as it was.
  pub execute-IsConclusion :
      (p : TargetProject) (g : TargetGroup) (dry_run : Bool) (w : World)
      → ConcludesProject p dry_run w × ConcludesGroup g dry_run w
  execute-IsConclusion p g dry_run w = (project p dry_run w, group g dry_run w)
