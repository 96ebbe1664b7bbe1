-- ===== src/Config/Validator/Variables.antt =====
-- internal/config/validator.go: validateVariables, with VariableConfig of internal/config/model.go.
pub mod Accepted
use gitlab_fleet_governor.Common.{
  ℕ, suc, Bool, true, false, not, ◌&&◌, ◌||◌, Option, some, none, List, [], ◌∷◌, ◌++◌,
  if◌then◌else◌, contains, length, leb, ltb, nat_beq, nat_eq,
}
use gitlab_fleet_governor.Common.Text.{Text, text_eq, codes, is_empty, trim_space}
use gitlab_fleet_governor.Config.Validator.{
  Path_, Problem, Shown, Errors, below, at_index, report, check_choice,
}

-- `VariableConfig`
pub record VariableConfig : Type 0 where
  pub key : Text
  pub value : Text
  pub variable_type : Text
  pub protected_ : Option Bool
  pub masked : Option Bool
  pub raw : Option Bool
  pub environment_scope : Text
  pub description : Text

abbrev pub scope_of : VariableConfig → Text
scope_of v = if is_empty v.environment_scope then codes "*" else v.environment_scope

unfoldable pub composite_key : VariableConfig → Text
composite_key v = v.key ++ (b':' ∷ (b':' ∷ scope_of v))

abbrev between : ℕ → ℕ → ℕ → Bool
between low high c = leb low c && leb c high

-- `[a-zA-Z0-9_]`
unfoldable pub is_word : ℕ → Bool
is_word c = between b'a' b'z' c || between b'A' b'Z' c || between b'0' b'9' c || nat_beq c b'_'

-- `[a-zA-Z0-9_+=/@:~.-]`
unfoldable pub is_maskable : ℕ → Bool
unfolding is_word
is_maskable c = is_word c || contains c (codes "+=/@:~.-")

abbrev pub all : (ℕ → Bool) → Text → Bool
all p [] = true
all p (c ∷ s) = p c && all p s

-- The match of `^[...]+$`.
abbrev pub matches_all : (ℕ → Bool) → Text → Bool
matches_all p s = not (is_empty s) && all p s

abbrev pub is_masked : VariableConfig → Bool
is_masked v = elim v.masked [ some b ↦ b | none ↦ false ]

unfoldable pub check_key : Text → Path_ → Errors
unfolding is_word
check_key k field =
    if is_empty (trim_space k)
    then report true field Problem.empty Shown.nothing
    else report (not (matches_all is_word k)) field Problem.bad_key (Shown.text k)

unfoldable pub check_masked : VariableConfig → Path_ → Errors
unfolding is_maskable
check_masked v field =
    if is_masked v
    then (if ltb (length v.value) 8
        then report true field Problem.too_short Shown.redacted
        else report (not (matches_all is_maskable v.value)) field Problem.bad_characters
            Shown.redacted)
    else []

-- The checks of one variable, less that for a duplicate.
unfoldable pub check_variable : Path_ → VariableConfig → Errors
unfolding check_key check_choice check_masked
check_variable field v =
    check_key v.key (below field (codes "key"))
    ++ (check_choice (codes "env_var" ∷ codes "file" ∷ []) v.variable_type v.variable_type
          (below field (codes "variable_type"))
        ++ check_masked v (below field (codes "value")))

unfoldable pub validate_variables_from : Path_ → List Text → ℕ → List VariableConfig → Errors
unfolding check_variable composite_key
validate_variables_from prefix seen i [] = []
validate_variables_from prefix seen i (v ∷ vs) =
    let k = composite_key v in
    check_variable (at_index prefix i) v
    ++ (report (contains k seen) prefix Problem.duplicate Shown.nothing
        ++ validate_variables_from prefix (if contains k seen then seen else k ∷ seen) (suc i) vs)

unfoldable pub validate_variables : List VariableConfig → Path_ → Errors
unfolding validate_variables_from
validate_variables vars prefix = validate_variables_from prefix [] 0 vars
