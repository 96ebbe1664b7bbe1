-- ===== src/Governance/Diff.antt =====
-- internal/governance/diff.go: comparing live attributes with desired ones, and building a diff. The
-- rendering of diffs as text is left out.
pub mod Compare
pub mod Builder
use gitlab_fleet_governor.Common.{
  Bool, true, false, Option, some, none, List, [], ◌∷◌, ◌++◌, not, ◌&&◌, ◌||◌, ◌==◌, if◌then◌else◌,
  list_beq,
}
use gitlab_fleet_governor.Common.Int.{ℤ, int_eq}
use gitlab_fleet_governor.Common.Text.{Text, text_eq, texts_eq, is_empty, text_le}
use gitlab_fleet_governor.Common.Sort.{sort}
use gitlab_fleet_governor.Governance.Operation.{
  ActionType, Value, nil, text, flag, int, texts, FieldDiff, Diff, has_items, drifted,
  is_noop_or_skipped,
}

abbrev updated : Text → Value → Value → Option FieldDiff
updated field live desired =
    some
      (record { field = field; old_value = live; new_value = desired; action = ActionType.update })

abbrev bool_beq : Bool → Bool → Bool
bool_beq true b = b
bool_beq false b = not b

unfoldable pub compare_string : (field live desired : Text) → Option FieldDiff
compare_string field live desired =
    if is_empty desired || live == desired then none else updated field (text live) (text desired)

unfoldable pub compare_string_ptr : (field live : Text) (desired : Option Text) → Option FieldDiff
compare_string_ptr field live none = none
compare_string_ptr field live (some desired) =
    if live == desired then none else updated field (text live) (text desired)

unfoldable pub compare_bool_ptr :
    (field : Text) (live : Bool) (desired : Option Bool) → Option FieldDiff
compare_bool_ptr field live none = none
compare_bool_ptr field live (some desired) =
    if bool_beq live desired then none else updated field (flag live) (flag desired)

unfoldable pub compare_int_ptr : (field : Text) (live : ℤ) (desired : Option ℤ) → Option FieldDiff
compare_int_ptr field live none = none
compare_int_ptr field live (some desired) =
    if live == desired then none else updated field (int live) (int desired)

-- `desired == nil` is told from an empty slice; `reflect.DeepEqual` sees two sorted copies, neither
-- of them nil.
unfoldable pub compare_string_slice :
    (field : Text) (live : List Text) (desired : Option (List Text)) → Option FieldDiff
compare_string_slice field live none = none
compare_string_slice field live (some desired) =
    if sort text_le live == sort text_le desired
    then none
    else updated field (texts live) (texts desired)

-- `DiffBuilder`. The methods change the receiver and return it: they return the new builder.
pub record DiffBuilder : Type 0 where
  pub fields : List FieldDiff
  pub details : Text

unfoldable pub new_diff_builder : DiffBuilder
new_diff_builder = record { fields = []; details = [] }

unfoldable pub add : DiffBuilder → Option FieldDiff → DiffBuilder
add b none = b
add b (some fd) = record b { fields = b.fields ++ fd ∷ [] }

unfoldable pub add_field : DiffBuilder → Text → Value → Value → ActionType → DiffBuilder
add_field b field old new action = record b {
  fields =
      b.fields ++ record { field = field; old_value = old; new_value = new; action = action } ∷ [];
}

unfoldable pub set_details : DiffBuilder → Text → DiffBuilder
set_details b details = record b { details = details }

unfoldable pub builder_has_changes : DiffBuilder → Bool
builder_has_changes b = has_items b.fields || not (is_empty b.details)

unfoldable pub build : DiffBuilder → Text → ActionType → Diff
build b resource default_action = record {
  resource = resource;
  action =
      if not (has_items b.fields) && is_empty b.details then ActionType.noop else default_action;
  fields = b.fields;
  details = b.details;
}

-- `Diff.HasChanges`
unfoldable pub has_changes : Diff → Bool
has_changes d =
    not (is_noop_or_skipped d.action) && (has_items d.fields || not (is_empty d.details))
