-- ===== src/Config/Envsubst.antt =====
-- internal/config/envsubst.go: `${VAR}` and `${VAR:-default}` in a configuration file. A text is its
-- runes here, as after `[]rune(s)`; Go's tables of letters, digits and spaces and the environment are
-- parameters. A position in the text is the text from there on, with what is still to be skipped.
pub mod Fuel
pub mod Literal
pub mod Reference
pub mod Cycle
use gitlab_fleet_governor.Common.{
  ℕ, zero, suc, ◌+◌, ◌-◌, Bool, true, false, not, ◌&&◌, ◌||◌, Option, some, none, List, [], ◌∷◌,
  ◌++◌, if◌then◌else◌, ltb, nat_beq, length, all_of,
}
use gitlab_fleet_governor.Common.Text.{Text, is_empty, trim}

-- Package unicode.
pub record Unicode : Type 0 where
  pub is_letter : ℕ → Bool
  pub is_digit : ℕ → Bool
  pub is_space : ℕ → Bool

pub data EnvError : Type 0 where
  depth_exceeded : EnvError
  unterminated : ℕ → EnvError
  invalid_name : Text → EnvError
  expanding : Text → ℕ → EnvError → EnvError

pub data Expansion : Type 0 where
  expanded : Text → Expansion
  failed : EnvError → Expansion
  out_of_fuel : Expansion

-- `i+1 < n && runes[i+1] == d`, at the runes from `i+1` on.
abbrev pub next_is : ℕ → Text → Bool
next_is d [] = false
next_is d (c ∷ s) = nat_beq c d

abbrev pub drop_one : Text → Text
drop_one [] = []
drop_one (c ∷ s) = s

-- What the scanner meets at a rune: `\$` or `$$`, `${`, or a rune that stands for itself.
pub data Token : Type 0 where
  escaped braced literal : Token

unfoldable pub token_at : ℕ → Text → Token
token_at c s =
    if (nat_beq c b'\\' || nat_beq c b'$') && next_is b'$' s
    then escaped
    else if nat_beq c b'$' && next_is b'{' s
    then braced
    else literal

pub data Brace : Type 0 where
  opening closing neither : Brace

unfoldable pub brace_at : ℕ → Text → Brace
brace_at c s =
    if nat_beq c b'$' && next_is b'{' s
    then opening
    else if nat_beq c b'}'
    then closing
    else neither

abbrev pub keep : ℕ → Option Text → Option Text
keep c none = none
keep c (some s) = some (c ∷ s)

-- The expression up to the brace that closes it, `depth` braces deep.
unfoldable pub close_brace : (depth skip : ℕ) → Text → Option Text
unfolding brace_at
close_brace depth skip [] = none
close_brace depth (suc skip) (c ∷ s) = keep c (close_brace depth skip s)
close_brace depth zero (c ∷ s) = elim (brace_at c s) [
  | opening ↦ keep c (close_brace (suc depth) 1 s)
  | closing ↦ elim (nat_beq (depth - 1) 0) [
    | true ↦ some []
    | false ↦ keep c (close_brace (depth - 1) 0 s)
  ]
  | neither ↦ keep c (close_brace depth 0 s)
]

abbrev pub write : Text → Expansion → Expansion
write v (expanded s) = expanded (v ++ s)
write v (failed e) = failed e
write v out_of_fuel = out_of_fuel

-- The value of `expr`, which stands at offset `i`, before the expansion of the rest.
abbrev pub splice : Text → ℕ → Expansion → Expansion → Expansion
splice expr i (expanded v) rest = write v rest
splice expr i (failed e) rest = failed (expanding expr i e)
splice expr i out_of_fuel rest = out_of_fuel

-- The loop of `expandEnvRecursive` from offset `i` on.
unfoldable pub scan : (Text → Expansion) → (i skip : ℕ) → Text → Expansion
unfolding token_at close_brace
scan evaluate i skip [] = expanded []
scan evaluate i (suc skip) (c ∷ s) = scan evaluate (i + 1) skip s
scan evaluate i zero (c ∷ s) = elim (token_at c s) [
  | escaped ↦ write (b'$' ∷ []) (scan evaluate (i + 1) 1 s)
  | braced ↦ elim (close_brace 1 0 (drop_one s)) [
    | none ↦ failed (unterminated i)
    | some expr ↦ splice expr i (evaluate expr) (scan evaluate (i + 1) (length expr + 2) s)
  ]
  | literal ↦ write (c ∷ []) (scan evaluate (i + 1) 0 s)
]

abbrev pub keep_name : ℕ → Option (Text × Text) → Option (Text × Text)
keep_name c none = none
keep_name c (some (name, default)) = some (c ∷ name, default)

-- What stands before and after the first `:-` outside all braces.
unfoldable pub split_default : (braces skip : ℕ) → Text → Option (Text × Text)
unfolding brace_at
split_default braces skip [] = none
split_default braces (suc skip) (c ∷ s) = keep_name c (split_default braces skip s)
split_default braces zero (c ∷ s) = elim (brace_at c s) [
  | opening ↦ keep_name c (split_default (suc braces) 1 s)
  | closing ↦ keep_name c (split_default (braces - 1) 0 s)
  | neither ↦ elim (nat_beq braces 0 && nat_beq c b':' && next_is b'-' s) [
    | true ↦ some ([], drop_one s)
    | false ↦ keep_name c (split_default braces 0 s)
  ]
]

unfoldable pub starts_name : Unicode → ℕ → Bool
starts_name unicode c = unicode.is_letter c || nat_beq c b'_'

unfoldable pub continues_name : Unicode → ℕ → Bool
continues_name unicode c = unicode.is_letter c || unicode.is_digit c || nat_beq c b'_'

unfoldable pub is_valid_var_identifier : Unicode → Text → Bool
unfolding starts_name continues_name
is_valid_var_identifier unicode [] = false
is_valid_var_identifier unicode (c ∷ s) = starts_name unicode c && all_of (continues_name unicode) s

abbrev pub max_env_subst_depth : ℕ
max_env_subst_depth = 32

module _ (unicode : Unicode) (env : Text → Text × Bool) where
  -- The lookup of a name, with what is done with a value that is set and not empty, and with any
  -- other.
  unfoldable pub resolve : (Text → Expansion) → (Text → Expansion) → Text → Expansion
  unfolding is_valid_var_identifier
  resolve on_value otherwise name = elim (is_valid_var_identifier unicode name) [
    | false ↦ failed (invalid_name name)
    | true ↦ elim ((env name).1 && not (is_empty (env name).0)) [
      | true ↦ on_value (env name).0
      | false ↦ otherwise (env name).0
    ]
  ]

  -- `on_value` and `on_default` are `expandEnvRecursive` at the depths `depth+1` and `depth`.
  unfoldable pub evaluate_expression : (on_value on_default : Text → Expansion) → Text → Expansion
  unfolding split_default resolve
  evaluate_expression on_value on_default expr = elim (split_default 0 0 expr) [
    | some (name, default) ↦
        resolve on_value (λ unset. on_default default) (trim unicode.is_space name)
    | none ↦ resolve on_value (λ value. expanded value) (trim unicode.is_space expr)
  ]

  unfoldable pub expand_env_recursive : (fuel depth : ℕ) → Text → Expansion
  unfolding scan evaluate_expression
  expand_env_recursive zero depth s = out_of_fuel
  expand_env_recursive (suc fuel) depth s = elim (ltb max_env_subst_depth depth) [
    | true ↦ failed depth_exceeded
    | false ↦
        scan
          (evaluate_expression (expand_env_recursive fuel (depth + 1 + 1))
            (expand_env_recursive fuel (depth + 1)))
          0 0 s
  ]

  unfoldable pub expand_env_with_lookup : Text → Expansion
  unfolding expand_env_recursive
  expand_env_with_lookup = expand_env_recursive 34 0
