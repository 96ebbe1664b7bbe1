-- ===== src/Config/Envsubst/Cycle.antt =====
-- internal/config/envsubst.go: variables whose values refer to each other without end.
use native.Mathlib.Decide.{dec_le}
use gitlab_fleet_governor.Common.{ℕ, zero, suc, ◌+◌, ◌≤◌, Bool, true, [], ◌≡◌, refl, arith}
use gitlab_fleet_governor.Common.Text.{Text}
use gitlab_fleet_governor.Config.Envsubst.Fuel.{expand_env_recursive_deep}
use gitlab_fleet_governor.Config.Envsubst.Reference.{IsUnicode, reference, done, expand-reference}
use gitlab_fleet_governor.Config.Envsubst.{
  Unicode, Expansion, expanded, failed, splice, EnvError, depth_exceeded, unterminated,
  invalid_name, expanding, is_valid_var_identifier, expand_env_recursive, expand_env_with_lookup,
}

-- The error that a chain of wrapped errors starts from, as `errors.Is` would find it.
unfoldable pub root : EnvError → EnvError
root depth_exceeded = depth_exceeded
root (unterminated i) = unterminated i
root (invalid_name name) = invalid_name name
root (expanding expr i e) = root e

abbrev pub TooDeep : Expansion → Type 0
TooDeep r = (e : EnvError) × (r ≡ failed e) × (root e ≡ depth_exceeded)

splice-TooDeep :
    (expr : Text) (i : ℕ) (r rest : Expansion) → TooDeep r → TooDeep (splice expr i r rest)
unfolding root
splice-TooDeep expr i r rest (e, h, k) = (expanding expr i e, rw h refl, k)

module _ (unicode : Unicode) (env : Text → Text × Bool) (u : IsUnicode unicode) (names : ℕ → Text)
    (valid : (n : ℕ) → is_valid_var_identifier unicode (names n) ≡ true)
    (refers : (n : ℕ) → env (names n) ≡ (reference (names (suc n)), true)) where
  expand_circle :
      (fuel depth n : ℕ)
      → 33 ≤ fuel + depth
      → TooDeep (expand_env_recursive unicode env (suc fuel) depth (reference (names n)))
  unfolding root
  expand_circle zero depth n h =
      (depth_exceeded, expand_env_recursive_deep unicode env 0 depth _ (omega arith), refl)
  expand_circle (suc fuel) depth n h = elim (dec_le depth 32) [
    | no p ↦ (
      depth_exceeded,
      expand_env_recursive_deep unicode env (suc fuel) depth _ (omega arith),
      refl,
    )
    | yes p ↦
        rw ((expand-reference unicode env (suc fuel) depth (names n) [] u p (valid n) done).0) (
          splice-TooDeep (names n) 0 _ (expanded [])
            (rw (refers n) (expand_circle fuel (depth + 2) (suc n) (omega arith))))
  ]

-- Where the value of each variable of a chain that never ends is a reference to the next one, as where
-- a variable refers to itself or two to each other, the expansion of a reference to the first is an
-- error, and the error that it goes back to is that of the depth.
pub expand_env-circle :
    (unicode : Unicode) (env : Text → Text × Bool) (names : ℕ → Text)
    → IsUnicode unicode
    → ((n : ℕ) → is_valid_var_identifier unicode (names n) ≡ true)
    → ((n : ℕ) → env (names n) ≡ (reference (names (suc n)), true))
    → (e : EnvError) × (expand_env_with_lookup unicode env (reference (names 0)) ≡ failed e)
      × (root e ≡ depth_exceeded)
unfolding expand_env_with_lookup
expand_env-circle unicode env names u valid refers =
    expand_circle unicode env u names valid refers 33 0 0 (omega arith)
