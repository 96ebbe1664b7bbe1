-- ===== src/Config/Envsubst/Literal.antt =====
-- internal/config/envsubst.go: texts in which every dollar is escaped.
use gitlab_fleet_governor.Common.{
  ℕ, ◌+◌, Bool, false, [], ◌∷◌, ◌≡◌, refl, ◌∙◌, arith, nat_beq, if◌then◌else◌,
}
use gitlab_fleet_governor.Common.Text.{Text}
use gitlab_fleet_governor.Config.Envsubst.Fuel.{expand_env_recursive_shallow}
use gitlab_fleet_governor.Config.Envsubst.{
  Unicode, Expansion, expanded, scan, token_at, next_is, expand_env_with_lookup,
}

-- A backslash before each dollar.
unfoldable pub escape : Text → Text
escape [] = []
escape (c ∷ s) = let rest = escape s in if nat_beq c b'$' then b'\\' ∷ b'$' ∷ rest else c ∷ rest

escape_plain : (s : Text) → next_is b'$' (escape s) ≡ false
unfolding escape
escape_plain [] = refl
escape_plain (c ∷ s) = ground arith

scan-escape :
    (evaluate : Text → Expansion) (s : Text) (i : ℕ) → scan evaluate i 0 (escape s) ≡ expanded s
unfolding scan escape token_at
scan-escape evaluate [] i = refl
scan-escape evaluate (c ∷ s) i =
    ground
      (arith, escape_plain s, scan-escape evaluate s (i + 1), scan-escape evaluate s (i + 1 + 1))

-- A text in which a backslash is put before each dollar expands to the text itself, whatever the
-- environment: every text, with its dollars, braces and backslashes, can be written.
pub expand_env-escape :
    (unicode : Unicode) (env : Text → Text × Bool) (s : Text)
    → expand_env_with_lookup unicode env (escape s) ≡ expanded s
unfolding expand_env_with_lookup
expand_env-escape unicode env s =
    expand_env_recursive_shallow unicode env 33 0 (escape s) (omega arith) ∙ scan-escape _ s 0
