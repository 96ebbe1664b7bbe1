-- ===== src/Examples/Config.antt =====
-- Runs of the environment substitution.
use gitlab_fleet_governor.Common.{
  ℕ, Bool, true, false, ◌&&◌, ◌||◌, [], ◌≡◌, ◌≢◌, refl, arith, leb, ◌==◌, if◌then◌else◌,
}
use gitlab_fleet_governor.Common.Text.{Text, codes, text_eq, is_space, trim}
use gitlab_fleet_governor.Config.Envsubst.{
  Unicode, Expansion, expanded, failed, out_of_fuel, splice, EnvError, depth_exceeded, unterminated,
  invalid_name, expanding, is_valid_var_identifier, starts_name, continues_name,
  expand_env_recursive, expand_env_with_lookup,
}
use gitlab_fleet_governor.Config.Envsubst.Fuel.{expand_env_with_lookup-ends}
use gitlab_fleet_governor.Config.Envsubst.Literal.{escape, expand_env-escape}
use gitlab_fleet_governor.Config.Envsubst.Reference.{
  IsUnicode, Nested, done, rune, group, reference, or_default, expand-reference,
}
use gitlab_fleet_governor.Config.Envsubst.Cycle.{root, expand_env-circle}

abbrev between : ℕ → ℕ → ℕ → Bool
between low high c = leb low c && leb c high

-- The runes of ASCII.
abbrev ascii : Unicode
ascii = record {
  is_letter = λ c. between b'a' b'z' c || between b'A' b'Z' c;
  is_digit = between b'0' b'9';
  is_space = is_space;
}

ascii-IsUnicode : IsUnicode ascii
unfolding continues_name is_space
ascii-IsUnicode = record {
  dollar = refl;
  colon = refl;
  brace = refl;
  space = λ c h. ground (arith, h);
}

-- `HOST` is set, `LOOP` refers to itself, nothing else is set.
abbrev env : Text → Text × Bool
env name =
    if name == codes "HOST"
    then (codes "gitlab.corp", true)
    else if name == codes "LOOP"
    then (codes "${LOOP}", true)
    else (codes "", false)

abbrev expand : Text → Expansion
expand = expand_env_with_lookup ascii env

replaced : expand (codes "https://${HOST}/^a$") ≡ expanded (codes "https://gitlab.corp/^a$")
unfolding expand_env_with_lookup trim is_space
replaced = refl

nested_default : expand (codes "${PORT:-${HOST}:80}") ≡ expanded (codes "gitlab.corp:80")
unfolding expand_env_with_lookup trim is_space
nested_default = refl

not_terminated : expand (codes "ab${HOST") ≡ failed (unterminated 2)
unfolding expand_env_with_lookup
not_terminated = refl

not_a_name : expand (codes "${1A}") ≡ failed (expanding (codes "1A") 0 (invalid_name (codes "1A")))
unfolding expand_env_with_lookup trim is_space
not_a_name = refl

expand_env-escape_example :
    expand_env_with_lookup ascii env (escape (codes "\\${HOST}$")) ≡ expanded (codes "\\${HOST}$")
expand_env-escape_example = expand_env-escape ascii env (codes "\\${HOST}$")

expand_env_with_lookup-ends_example :
    (expand_env_with_lookup ascii env (codes "${LOOP}") ≢ out_of_fuel)
    × (expand_env_recursive ascii env 40 0 (codes "${LOOP}")
        ≡ expand_env_with_lookup ascii env (codes "${LOOP}"))
expand_env_with_lookup-ends_example =
    expand_env_with_lookup-ends ascii env 40 (codes "${LOOP}") (omega arith)

abbrev loop : ℕ → Text
loop n = codes "LOOP"

loop_valid : (n : ℕ) → is_valid_var_identifier ascii (loop n) ≡ true
unfolding is_valid_var_identifier starts_name continues_name
loop_valid n = refl

expand_env-circle_example :
    (e : EnvError) × (expand_env_with_lookup ascii env (reference (codes "LOOP")) ≡ failed e)
    × (root e ≡ depth_exceeded)
expand_env-circle_example = expand_env-circle ascii env loop ascii-IsUnicode loop_valid (λ n. refl)

port_valid : is_valid_var_identifier ascii (codes "PORT") ≡ true
unfolding is_valid_var_identifier starts_name continues_name
port_valid = refl

host_in_braces : Nested (codes "${H}")
host_in_braces = group (rune (omega arith) (omega arith) done) done

expand-reference_example :
    (expand_env_recursive ascii env 4 0 (reference (codes "PORT"))
      ≡ splice (codes "PORT") 0 (expanded []) (expanded []))
    × (expand_env_recursive ascii env 4 0 (reference (or_default (codes "PORT") (codes "${H}")))
        ≡ splice
            (or_default (codes "PORT") (codes "${H}"))
            0
            (expand_env_recursive ascii env 3 1 (codes "${H}"))
            (expanded []))
expand-reference_example =
    expand-reference ascii env 3 0 (codes "PORT") (codes "${H}") ascii-IsUnicode (omega arith)
      port_valid host_in_braces
