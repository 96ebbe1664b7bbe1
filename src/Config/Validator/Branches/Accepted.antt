-- ===== src/Config/Validator/Branches/Accepted.antt =====
-- internal/config/validator.go: which rules on target branches validateTargetBranchRules accepts.
use gitlab_fleet_governor.Common.{
  ℕ, suc, false, List, [], ◌∷◌, map, ◌≡◌, ◌≢◌, ◌↔◌, arith, All, Distinct, contains_iff,
}
use gitlab_fleet_governor.Common.Text.{Text, text_eq, text_beq_iff, trim_space, codes, is_empty}
use gitlab_fleet_governor.Config.Validator.Seen.{append-nil_iff, Fresh, Fresh-cons, Fresh-nil}
use gitlab_fleet_governor.Config.Validator.{Path_, below, at_index}
use gitlab_fleet_governor.Config.Validator.Branches.{
  TargetBranchRule, check_rule_target, validate_target_rules_from, validate_target_branch_rules,
}

-- The trimmed source pattern.
abbrev pub pattern_of : TargetBranchRule → Text
pattern_of r = trim_space r.name

abbrev pub IsRule : TargetBranchRule → Type 0
IsRule r =
    (pattern_of r ≢ [])
    × ((trim_space r.target_branch ≢ []) × (pattern_of r ≢ trim_space r.target_branch))

rule_iff :
    (name target : Text) (field : Path_)
    → ((is_empty name ≡ false) × (check_rule_target name target field ≡ []))
      ↔ ((name ≢ []) × ((target ≢ []) × (name ≢ target)))
unfolding check_rule_target
rule_iff [] target field = ground arith
rule_iff (c ∷ name) [] field = ground arith
rule_iff (c ∷ name) (d ∷ target) field = ground (arith, text_beq_iff (c ∷ name) (d ∷ target))

loop_iff :
    (prefix : Path_) (seen : List Text) (i : ℕ) (rs : List TargetBranchRule)
    → ((validate_target_rules_from prefix seen i rs).0 ≡ [])
      ↔ (All IsRule rs × (Distinct (map pattern_of rs) × Fresh seen (map pattern_of rs)))
unfolding validate_target_rules_from
loop_iff prefix seen i [] = ground arith
loop_iff prefix seen i (r ∷ rs) = ground (
  arith,
  rule_iff (pattern_of r) (trim_space r.target_branch) (at_index prefix i),
  append-nil_iff
      (check_rule_target (pattern_of r) (trim_space r.target_branch) (at_index prefix i)),
  contains_iff (pattern_of r) seen,
  loop_iff prefix (pattern_of r ∷ seen) (suc i) rs,
  Fresh-cons (pattern_of r) seen (map pattern_of rs),
)

-- The validation reports no error on the rules on target branches exactly where, blanks around them aside, each has a
-- source pattern and a target branch that differ, and no two have the same source pattern.
pub validate_target_branch_rules_iff :
    (prefix : Path_) (rs : List TargetBranchRule)
    → ((validate_target_branch_rules rs prefix).0 ≡ [])
      ↔ (All IsRule rs × Distinct (map pattern_of rs))
unfolding validate_target_branch_rules
validate_target_branch_rules_iff prefix rs =
    ground (arith, loop_iff (below prefix (codes "rules")) [] 0 rs, Fresh-nil (map pattern_of rs))
