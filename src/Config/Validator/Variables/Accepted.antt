-- ===== src/Config/Validator/Variables/Accepted.antt =====
-- internal/config/validator.go: which lists of variables validateVariables accepts.
use gitlab_fleet_governor.Common.{
  ℕ, suc, true, false, List, [], ◌∷◌, map, ◌≡◌, ◌↔◌, arith, In, All, Distinct, contains_iff,
  Bool-cases, ◌⊎◌, ◌≤◌, length,
}
use gitlab_fleet_governor.Common.Text.{
  split_colon, Text, text_eq, trim, is_space, trim_space, codes, is_empty,
}
use gitlab_fleet_governor.Config.Validator.Seen.{append-nil_iff, Fresh, Fresh-cons, Fresh-nil}
use gitlab_fleet_governor.Config.Validator.{Path_, below, at_index, check_choice}
use gitlab_fleet_governor.Config.Validator.Variables.{
  VariableConfig, scope_of, composite_key, is_word, is_maskable, all, matches_all, is_masked,
  check_key, check_masked, check_variable, validate_variables_from, validate_variables,
}

-- What a variable must be on its own: its key a word, its type one of the two that there are or not given, and
-- its value, where it is masked, of eight bytes or more that can be masked.
abbrev pub IsVariable : VariableConfig → Type 0
IsVariable v =
    (matches_all is_word v.key ≡ true)
    × (((v.variable_type ≡ []) ⊎ In v.variable_type (codes "env_var" ∷ codes "file" ∷ []))
        × (is_masked v ≡ true → (8 ≤ length v.value) × (matches_all is_maskable v.value ≡ true)))

-- The key and the scope that tell variables apart.
abbrev pub identity : VariableConfig → Text × Text
identity v = (v.key, scope_of v)

word-trim_space : (c : ℕ) (s : Text) → is_word c ≡ true → is_empty (trim_space (c ∷ s)) ≡ false
unfolding is_word trim_space is_space trim
word-trim_space c s h = ground (arith, h)

check_key_iff :
    (k : Text) (field : Path_) → (check_key k field ≡ []) ↔ (matches_all is_word k ≡ true)
unfolding check_key
check_key_iff [] field = ground arith
check_key_iff (c ∷ s) field = ground (arith, word-trim_space c s)

check_masked_iff :
    (v : VariableConfig) (field : Path_)
    → (check_masked v field ≡ [])
      ↔ (is_masked v ≡ true → (8 ≤ length v.value) × (matches_all is_maskable v.value ≡ true))
unfolding check_masked
check_masked_iff v field = ground (arith, Bool-cases (is_masked v))

check_type_iff :
    (s : Text) (field : Path_)
    → (check_choice (codes "env_var" ∷ codes "file" ∷ []) s s field ≡ [])
      ↔ ((s ≡ []) ⊎ In s (codes "env_var" ∷ codes "file" ∷ []))
unfolding check_choice
check_type_iff [] field = ground arith
check_type_iff (c ∷ s) field =
    ground (arith, contains_iff (c ∷ s) (codes "env_var" ∷ codes "file" ∷ []))

check_variable_iff :
    (field : Path_) (v : VariableConfig) → (check_variable field v ≡ []) ↔ IsVariable v
unfolding check_variable
check_variable_iff field v = ground (
  arith,
  check_key_iff v.key (below field (codes "key")),
  check_type_iff v.variable_type (below field (codes "variable_type")),
  check_masked_iff v (below field (codes "value")),
  append-nil_iff (check_key v.key (below field (codes "key"))),
  append-nil_iff (
      check_choice (codes "env_var" ∷ codes "file" ∷ []) v.variable_type v.variable_type
        (below field (codes "variable_type"))),
)

-- Nothing is reported from a place on exactly where the rest is fine on its own and fresh.
loop_iff :
    (prefix : Path_) (seen : List Text) (i : ℕ) (vs : List VariableConfig)
    → (validate_variables_from prefix seen i vs ≡ [])
      ↔ (All IsVariable vs × (Distinct (map composite_key vs) × Fresh seen (map composite_key vs)))
unfolding validate_variables_from
loop_iff prefix seen i [] = ground arith
loop_iff prefix seen i (v ∷ vs) = ground (
  arith,
  append-nil_iff (check_variable (at_index prefix i) v),
  check_variable_iff (at_index prefix i) v,
  contains_iff (composite_key v) seen,
  loop_iff prefix (composite_key v ∷ seen) (suc i) vs,
  Fresh-cons (composite_key v) seen (map composite_key vs),
)

-- The words before the colons of two keys, and the scopes after them.
all-plain : (s : Text) → all is_word s ≡ true → In b':' s → ⊥
unfolding is_word
all-plain [] h m = m
all-plain (c ∷ s) h m = ground (arith, h, m, all-plain s)

word-plain : (s : Text) → matches_all is_word s ≡ true → In b':' s → ⊥
word-plain s h = ground (arith, h, all-plain s)

identity-composite_key :
    (v w : VariableConfig) → identity v ≡ identity w → composite_key v ≡ composite_key w
unfolding composite_key
identity-composite_key v w e = ground (arith, e)

composite_key-injective :
    (v w : VariableConfig)
    → matches_all is_word v.key ≡ true
    → matches_all is_word w.key ≡ true
    → composite_key v ≡ composite_key w
    → identity v ≡ identity w
unfolding composite_key
composite_key-injective v w h k e =
    let (same_key, rest) =
      split_colon v.key (b':' ∷ scope_of v) w.key (b':' ∷ scope_of w) (word-plain v.key h)
        (word-plain w.key k) e in
    ground (arith, same_key, rest)

In-identity :
    (v : VariableConfig) (vs : List VariableConfig)
    → matches_all is_word v.key ≡ true
    → All IsVariable vs
    → In (composite_key v) (map composite_key vs) ↔ In (identity v) (map identity vs)
In-identity v [] h k = ground arith
In-identity v (w ∷ vs) h k =
    ground (
      arith,
      In-identity v vs h k.1,
      composite_key-injective v w h k.0.0,
      identity-composite_key v w,
    )

Distinct-identity :
    (vs : List VariableConfig)
    → All IsVariable vs
    → Distinct (map composite_key vs) ↔ Distinct (map identity vs)
Distinct-identity [] h = ground arith
Distinct-identity (v ∷ vs) h = ground (arith, In-identity v vs h.0.0 h.1, Distinct-identity vs h.1)

-- The validation reports nothing on a list of variables exactly where each is fine on its own, with a word as its
-- key, a known type or none, and a value that can be masked if it is, and no two have the same key and scope.
pub validate_variables_iff :
    (prefix : Path_) (vs : List VariableConfig)
    → (validate_variables vs prefix ≡ []) ↔ (All IsVariable vs × Distinct (map identity vs))
unfolding validate_variables
validate_variables_iff prefix vs =
    ground (arith, loop_iff prefix [] 0 vs, Distinct-identity vs, Fresh-nil (map composite_key vs))
