-- ===== src/Governance/Operation.antt =====
-- internal/governance/operation.go: actions, outcomes and results of a governance operation. Clock
-- readings (Duration, ExecutedAt) are not kept.
use gitlab_fleet_governor.Common.{
  Bool, true, false, Option, none, List, [], ◌∷◌, not, ◌&&◌, ◌≡◌, ◌⊎◌, inl, inr, refl,
}
use gitlab_fleet_governor.Common.Int.{ℤ}
use gitlab_fleet_governor.Common.Text.{Text}
use gitlab_fleet_governor.Resources.{Project, Group}

-- `unset` is the empty string, the zero value of the Go type.
pub data ActionType : Type 0 where
  create update delete noop audit skipped unset : ActionType

pub data ResourceType : Type 0 where
  project group : ResourceType

pub data StatusType : Type 0 where
  success failed skipped noop unset : StatusType

-- Errors as Go builds them: `fmt.Errorf("...: %w", err)` around an error from elsewhere.
pub data Error : Type 0 where
  external : Text → Error
  operation_failed : (verb name : Text) (id : ℤ) → Error → Error
  wrapped : (context : Text) → Error → Error

-- What a call that can fail answers: a value, or an error.
pub data Reply (A : Type 0) : Type 0 where
  ok : A → Reply A
  fail : Error → Reply A

pub Reply-cases :
    {A : Type 0} (r : Reply A) → ((a : A) × (r ≡ ok a)) ⊎ ((err : Error) × (r ≡ fail err))
Reply-cases (ok a) = inl (a, refl)
Reply-cases (fail err) = inr (err, refl)

-- The values of type `any` that a field diff holds.
pub data Value : Type 0 where
  nil : Value
  text : Text → Value
  flag : Bool → Value
  int : ℤ → Value
  texts : List Text → Value

pub record FieldDiff : Type 0 where
  pub field : Text
  pub old_value : Value
  pub new_value : Value
  pub action : ActionType

pub record Diff : Type 0 where
  pub resource : Text
  pub action : ActionType
  pub fields : List FieldDiff
  pub details : Text

pub record PlanResult : Type 0 where
  pub operation_name : Text
  pub resource_type : ResourceType
  pub resource_id : ℤ
  pub resource_path : Text
  pub action : ActionType
  pub diffs : List Diff
  pub has_changes : Bool
  pub details : Text
  pub error : Option Error

pub record ApplyResult : Type 0 where
  pub operation_name : Text
  pub resource_type : ResourceType
  pub resource_id : ℤ
  pub resource_path : Text
  pub action : ActionType
  pub diffs : List Diff
  pub status : StatusType
  pub success : Bool
  pub details : Text
  pub error : Option Error

-- `GovernanceOperation`. `World` is what the GitLab client and the context reach; a method returns
-- its two results beside the world that it leaves.
pub record Operation (Config World : Type 0) : Type 0 where
  pub name : Text
  pub order : ℤ
  pub plan : Project → Config → World → (Option PlanResult × Option Error) × World
  pub apply : Project → Config → World → (Option ApplyResult × Option Error) × World
  pub plan_group : Group → Config → World → (Option PlanResult × Option Error) × World
  pub apply_group : Group → Config → World → (Option ApplyResult × Option Error) × World

abbrev pub is_noop_or_skipped : ActionType → Bool
is_noop_or_skipped ActionType.noop = true
is_noop_or_skipped ActionType.skipped = true
is_noop_or_skipped _ = false

abbrev pub has_items {ℓ} : {A : Type ℓ} → List A → Bool
has_items [] = false
has_items (x ∷ xs) = true

-- `action != ActionNoop && action != ActionSkipped && len(diffs) > 0`
abbrev pub drifted : ActionType → List Diff → Bool
drifted action diffs = not (is_noop_or_skipped action) && has_items diffs

unfoldable pub new_plan_result :
    Text → ResourceType → ℤ → Text → ActionType → List Diff → PlanResult
new_plan_result op kind id path action diffs = record {
  operation_name = op;
  resource_type = kind;
  resource_id = id;
  resource_path = path;
  action = action;
  diffs = diffs;
  has_changes = drifted action diffs;
  details = [];
  error = none;
}

unfoldable pub new_noop_plan_result : Text → ResourceType → ℤ → Text → PlanResult
new_noop_plan_result op kind id path = record {
  operation_name = op;
  resource_type = kind;
  resource_id = id;
  resource_path = path;
  action = ActionType.noop;
  diffs = [];
  has_changes = false;
  details = [];
  error = none;
}

unfoldable pub new_skipped_plan_result : Text → ResourceType → ℤ → Text → Text → PlanResult
new_skipped_plan_result op kind id path reason = record {
  operation_name = op;
  resource_type = kind;
  resource_id = id;
  resource_path = path;
  action = ActionType.skipped;
  diffs = [];
  has_changes = false;
  details = reason;
  error = none;
}

abbrev pub is_good_status : StatusType → Bool
is_good_status StatusType.success = true
is_good_status StatusType.noop = true
is_good_status StatusType.skipped = true
is_good_status _ = false

unfoldable pub new_apply_result :
    Text
    → ResourceType
    → ℤ
    → Text
    → ActionType
    → StatusType
    → List Diff
    → Option Error
    → ApplyResult
new_apply_result op kind id path action status diffs err = record {
  operation_name = op;
  resource_type = kind;
  resource_id = id;
  resource_path = path;
  action = action;
  diffs = diffs;
  status = status;
  success = is_good_status status;
  details = [];
  error = err;
}

unfoldable pub new_noop_apply_result : Text → ResourceType → ℤ → Text → ApplyResult
new_noop_apply_result op kind id path = record {
  operation_name = op;
  resource_type = kind;
  resource_id = id;
  resource_path = path;
  action = ActionType.noop;
  diffs = [];
  status = StatusType.noop;
  success = true;
  details = [];
  error = none;
}

unfoldable pub new_skipped_apply_result : Text → ResourceType → ℤ → Text → Text → ApplyResult
new_skipped_apply_result op kind id path reason = record {
  operation_name = op;
  resource_type = kind;
  resource_id = id;
  resource_path = path;
  action = ActionType.skipped;
  diffs = [];
  status = StatusType.skipped;
  success = true;
  details = reason;
  error = none;
}
