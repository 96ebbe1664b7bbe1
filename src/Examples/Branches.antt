-- ===== src/Examples/Branches.antt =====
-- Runs of the operation on protected branches.

use mathlib.Core.List.{Permᴰ}
use gitlab_fleet_governor.Common.{
  ℕ, zero, suc, ◌+◌, true, false, some, none, List, [], ◌∷◌, map, ◌≡◌, ◌↔◌, refl, ap, arith, In,
  lookup, insert,
}
use gitlab_fleet_governor.Common.Int.{ℤ, pos, negsuc}
use gitlab_fleet_governor.Common.Text.{Text, codes}
use gitlab_fleet_governor.Governance.Operation.{
  ActionType, StatusType, ResourceType, ok, ApplyResult, new_apply_result,
}
use gitlab_fleet_governor.Common.Sort.{sort}
use gitlab_fleet_governor.Governance.Diff.{
  has_changes, build, add, compare_bool_ptr, add_field, new_diff_builder,
}
use gitlab_fleet_governor.Governance.ProtectedBranches.Rules.{
  AccessDescription, ProtectedBranchRule, ProtectedBranch, equal_access_descriptions,
  build_create_diff, build_update_diff, live_access_to_descriptions,
  is_only_code_owner_approval_changed,
}
use gitlab_fleet_governor.Governance.ProtectedBranches.{BranchClient, operation_name, plan, apply}
use gitlab_fleet_governor.Governance.ProtectedBranches.Carried.{Announced, apply-Announced}
use gitlab_fleet_governor.Governance.ProtectedBranches.Same.{
  IsDecimal, who, equal_access_descriptions_iff,
}
use gitlab_fleet_governor.Examples.Samples.{widget}

-- Integers in unary.
abbrev strokes : ℕ → Text
strokes zero = []
strokes (suc n) = b'1' ∷ strokes n

abbrev unary : ℤ → Text
unary (pos n) = strokes n
unary (negsuc n) = b'-' ∷ strokes n

strokes-injective : (m n : ℕ) → strokes m ≡ strokes n → m ≡ n
strokes-injective zero zero e = refl
strokes-injective zero (suc n) e = ground (arith, e)
strokes-injective (suc m) zero e = ground (arith, e)
strokes-injective (suc m) (suc n) e = ground (arith, e, strokes-injective m n)

strokes-plain : (n c : ℕ) → In c (strokes n) → c ≡ b'1'
strokes-plain zero c h = elim h [ ]
strokes-plain (suc n) c h = ground (arith, h, strokes-plain n c)

unary-injective : (i j : ℤ) → unary i ≡ unary j → i ≡ j
unary-injective (pos m) (pos n) e = ground (arith, strokes-injective m n e)
unary-injective (pos zero) (negsuc n) e = ground (arith, e)
unary-injective (pos (suc m)) (negsuc n) e = ground (arith, e)
unary-injective (negsuc m) (pos zero) e = ground (arith, e)
unary-injective (negsuc m) (pos (suc n)) e = ground (arith, e)
unary-injective (negsuc m) (negsuc n) e = ground (arith, strokes-injective m n, e)

unary-plain : (i : ℤ) → In b':' (unary i) → ⊥
unary-plain (pos n) h = ground (arith, strokes-plain n b':' h)
unary-plain (negsuc n) h = ground (arith, strokes-plain n b':', h)

unary-IsDecimal : IsDecimal unary
unary-IsDecimal = record { injective = unary-injective; no_colon = unary-plain }

abbrev level : ℕ → AccessDescription
level n = record {
  access_level = pos n;
  user_id = pos 0;
  group_id = pos 0;
  username = [];
  group_path = [];
  deploy_key_id = pos 0;
}

abbrev key : AccessDescription
key = record (level 0) { deploy_key_id = pos 3 }

equal_access_descriptions_iff_example :
    (equal_access_descriptions unary (level 3 ∷ level 4 ∷ []) (level 4 ∷ level 3 ∷ []) ≡ true)
    ↔ Permᴰ (map who (level 3 ∷ level 4 ∷ [])) (map who (level 4 ∷ level 3 ∷ []))
equal_access_descriptions_iff_example =
    equal_access_descriptions_iff unary (level 3 ∷ level 4 ∷ []) (level 4 ∷ level 3 ∷ [])
      unary-IsDecimal

-- A deploy key is not told from no access at all.
key_unseen : equal_access_descriptions unary (level 0 ∷ []) (key ∷ []) ≡ true
unfolding equal_access_descriptions sort
key_unseen = refl

abbrev rule : Text → AccessDescription → ProtectedBranchRule
rule name push = record {
  name = name;
  allowed_to_push = push ∷ [];
  allowed_to_merge = [];
  allowed_to_unprotect = [];
  allow_force_push = some false;
  code_owner_approval_required = none;
}

abbrev main_branch : ProtectedBranch
main_branch = record {
  name = codes "main";
  push_access_levels = record { access_level = pos 3; user_id = pos 0; group_id = pos 0 } ∷ [];
  merge_access_levels = [];
  unprotect_access_levels = [];
  allow_force_push = false;
  code_owner_approval_required = false;
}

-- A server that protects `main`, and whose world counts the calls that change it.
abbrev server : BranchClient ℕ
server = record {
  list_page = λ id page w. (ok (record { branches = main_branch ∷ []; next_page = 0 }), w);
  protect = λ id opts w. (none, w + 1);
  unprotect = λ id name w. (none, w + 1);
  update = λ id name v w. (none, w + 1);
}

abbrev rules : List ProtectedBranchRule
rules = rule (codes "main") (level 4) ∷ rule (codes "dev") (level 3) ∷ []

abbrev carried_out : ApplyResult
carried_out =
    new_apply_result operation_name ResourceType.project widget.id widget.path_with_namespace
      ActionType.update StatusType.success
      (build_update_diff unary main_branch (rule (codes "main") (level 4))
        ∷ build_create_diff unary (rule (codes "dev") (level 3))
        ∷ [])
      none

-- `main` is taken away and made again, `dev` is made.
three_calls : apply server unary 2 (λ rs. rs) widget rules 0 ≡ ((some carried_out, none), 3)
unfolding apply build_update_diff build_create_diff lookup insert has_changes build add
    compare_bool_ptr equal_access_descriptions live_access_to_descriptions sort add_field
    new_diff_builder is_only_code_owner_approval_changed
three_calls = refl

apply-Announced_example : Announced carried_out (plan server unary 2 (λ rs. rs) widget rules 0).0
apply-Announced_example =
    apply-Announced server unary 2 (λ rs. rs) widget rules 0 carried_out (ap (λ r. r.0) three_calls)
