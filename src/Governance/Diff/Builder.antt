-- ===== src/Governance/Diff/Builder.antt =====
-- The diff builder of diff.go: what a sequence of comparisons amounts to.
use gitlab_fleet_governor.Common.{
  false, Option, some, none, List, [], ◌∷◌, ◌++◌, ◌≡◌, refl, sym, ◌∙◌, arith, if◌then◌else◌,
}
use mathlib.Core.List.{append-nil, append_assoc}
use gitlab_fleet_governor.Common.Text.{Text}
use gitlab_fleet_governor.Governance.Operation.{
  ActionType, FieldDiff, has_items, is_noop_or_skipped,
}
use gitlab_fleet_governor.Governance.Diff.{DiffBuilder, new_diff_builder, add, build, has_changes}

-- A chain of `Add` calls.
abbrev pub add_all : DiffBuilder → List (Option FieldDiff) → DiffBuilder
add_all b [] = b
add_all b (f ∷ fs) = add_all (add b f) fs

-- What they report.
abbrev pub found : List (Option FieldDiff) → List FieldDiff
found [] = []
found (none ∷ fs) = found fs
found (some f ∷ fs) = f ∷ found fs

add_all-fields :
    (b : DiffBuilder) (fs : List (Option FieldDiff))
    → ((add_all b fs).fields ≡ b.fields ++ found fs) × ((add_all b fs).details ≡ b.details)
unfolding add
add_all-fields b [] = (sym (append-nil b.fields), refl)
add_all-fields b (none ∷ fs) = add_all-fields b fs
add_all-fields b (some f ∷ fs) =
    let (e, d) = add_all-fields (record b { fields = b.fields ++ f ∷ [] }) fs in
    (e ∙ append_assoc b.fields (f ∷ []) (found fs), d)

-- A diff built from comparisons, with no details, lists what they report, in their order. It is a
-- NOOP if they all are silent and carries the given action if not; under an action that is neither
-- NOOP nor SKIPPED it has changes exactly if some comparison reports.
pub build-add_all :
    (resource : Text) (action : ActionType) (fs : List (Option FieldDiff))
    → is_noop_or_skipped action ≡ false
    → ((build (add_all new_diff_builder fs) resource action).fields ≡ found fs)
      × ((build (add_all new_diff_builder fs) resource action).action
          ≡ (if has_items (found fs) then action else ActionType.noop))
      × (has_changes (build (add_all new_diff_builder fs) resource action) ≡ has_items (found fs))
unfolding build has_changes new_diff_builder
build-add_all resource action fs h =
    let (e, d) = add_all-fields (record { fields = []; details = [] }) fs in
    (e, ground arith, ground arith)
