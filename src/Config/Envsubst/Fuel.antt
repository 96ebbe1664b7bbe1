-- ===== src/Config/Envsubst/Fuel.antt =====
-- internal/config/envsubst.go: the limit on the depth ends every expansion.
use native.Mathlib.Decide.{dec_le}
use mathlib.Core.Path.{fun_ext}
use gitlab_fleet_governor.Common.{◌<◌, ℕ, zero, suc, ◌+◌, ◌≤◌, Bool, [], ◌∷◌, ◌≡◌, ◌≢◌, refl, arith}
use gitlab_fleet_governor.Common.Text.{Text}
use gitlab_fleet_governor.Config.Envsubst.{
  depth_exceeded, Unicode, Expansion, expanded, failed, out_of_fuel, scan, write, splice,
  evaluate_expression, resolve, expand_env_recursive, expand_env_with_lookup,
}

write_ends : (v : Text) (r : Expansion) → r ≢ out_of_fuel → write v r ≢ out_of_fuel
write_ends v (expanded s) h = ground arith
write_ends v (failed e) h = ground arith
write_ends v out_of_fuel h = ground arith

splice_ends :
    (expr : Text) (i : ℕ) (r rest : Expansion)
    → r ≢ out_of_fuel
    → rest ≢ out_of_fuel
    → splice expr i r rest ≢ out_of_fuel
splice_ends expr i (expanded v) rest h k = write_ends v rest k
splice_ends expr i (failed e) rest h k = ground arith
splice_ends expr i out_of_fuel rest h k = ground arith

scan_ends :
    (evaluate : Text → Expansion) (i skip : ℕ) (s : Text)
    → ((expr : Text) → evaluate expr ≢ out_of_fuel)
    → scan evaluate i skip s ≢ out_of_fuel
unfolding scan
scan_ends evaluate i skip [] h = ground arith
scan_ends evaluate i (suc skip) (c ∷ s) h = scan_ends evaluate (i + 1) skip s h
scan_ends evaluate i zero (c ∷ s) h =
    grind (arith, h, write_ends, splice_ends, λ (j : ℕ) (skip : ℕ). scan_ends evaluate j skip s h)

module _ (unicode : Unicode) (env : Text → Text × Bool) where
  resolve_ends :
      (on_value otherwise : Text → Expansion) (name : Text)
      → ((v : Text) → on_value v ≢ out_of_fuel)
      → ((v : Text) → otherwise v ≢ out_of_fuel)
      → resolve unicode env on_value otherwise name ≢ out_of_fuel
  unfolding resolve
  resolve_ends on_value otherwise name h k = ground (arith, h (env name).0, k (env name).0)

  evaluate_expression_ends :
      (on_value on_default : Text → Expansion) (expr : Text)
      → ((s : Text) → on_value s ≢ out_of_fuel)
      → ((s : Text) → on_default s ≢ out_of_fuel)
      → evaluate_expression unicode env on_value on_default expr ≢ out_of_fuel
  unfolding evaluate_expression
  evaluate_expression_ends on_value on_default expr h k = grind (arith, h, k, resolve_ends)

  pub expand_env_recursive_deep :
      (fuel depth : ℕ) (s : Text)
      → 32 < depth
      → expand_env_recursive unicode env (suc fuel) depth s ≡ failed depth_exceeded
  unfolding expand_env_recursive
  expand_env_recursive_deep fuel depth s h = ground arith

  pub expand_env_recursive_shallow :
      (fuel depth : ℕ) (s : Text)
      → depth ≤ 32
      → expand_env_recursive unicode env (suc fuel) depth s
        ≡ scan
            (evaluate_expression unicode env
              (expand_env_recursive unicode env fuel (depth + 1 + 1))
              (expand_env_recursive unicode env fuel (depth + 1)))
            0
            0
            s
  unfolding expand_env_recursive
  expand_env_recursive_shallow fuel depth s h = ground arith

  expand_env_recursive_ends :
      (fuel depth : ℕ) (s : Text)
      → 33 ≤ fuel + depth
      → expand_env_recursive unicode env (suc fuel) depth s ≢ out_of_fuel
  expand_env_recursive_ends zero depth s h =
      rw (expand_env_recursive_deep 0 depth s (omega arith)) (ground arith)
  expand_env_recursive_ends (suc fuel) depth s h = elim (dec_le depth 32) [
    | no n ↦ rw (expand_env_recursive_deep (suc fuel) depth s (omega arith)) (ground arith)
    | yes p ↦
        let e = expand_env_recursive_ends fuel in
        rw (expand_env_recursive_shallow (suc fuel) depth s p) (
          scan_ends _ 0 0 s (λ expr.
            evaluate_expression_ends _ _ expr (λ t. e (depth + 1 + 1) t (omega arith))
              (λ t. e (depth + 1) t (omega arith))))
  ]

  -- More fuel changes nothing.
  expand_env_recursive_steady :
      (f g depth : ℕ) (s : Text)
      → 33 ≤ f + depth
      → 33 ≤ g + depth
      → expand_env_recursive unicode env (suc f) depth s
        ≡ expand_env_recursive unicode env (suc g) depth s
  expand_env_recursive_steady zero g depth s h k =
      rw
        (
          expand_env_recursive_deep 0 depth s (omega arith),
          expand_env_recursive_deep g depth s (omega arith),
        )
        refl
  expand_env_recursive_steady (suc f) zero depth s h k =
      rw
        (
          expand_env_recursive_deep (suc f) depth s (omega arith),
          expand_env_recursive_deep 0 depth s (omega arith),
        )
        refl
  expand_env_recursive_steady (suc f) (suc g) depth s h k = elim (dec_le depth 32) [
    | no n ↦
        rw
          (
            expand_env_recursive_deep (suc f) depth s (omega arith),
            expand_env_recursive_deep (suc g) depth s (omega arith),
          )
          refl
    | yes p ↦
        rw
          (
            expand_env_recursive_shallow (suc f) depth s p,
            expand_env_recursive_shallow (suc g) depth s p,
            fun_ext (λ t.
                expand_env_recursive_steady f g (depth + 1 + 1) t (omega arith) (omega arith)),
            fun_ext
                (λ t. expand_env_recursive_steady f g (depth + 1) t (omega arith) (omega arith)),
          )
          refl
  ]

  -- Every expansion ends with a text or an error, and a higher limit on the nesting of calls than the
  -- one that the depth gives would not change the result: 34 levels of fuel are as good as any number
  -- above, also where the values of variables refer to each other in a circle.
  pub expand_env_with_lookup-ends :
      (fuel : ℕ) (s : Text)
      → 34 ≤ fuel
      → (expand_env_with_lookup unicode env s ≢ out_of_fuel)
        × (expand_env_recursive unicode env fuel 0 s ≡ expand_env_with_lookup unicode env s)
  unfolding expand_env_with_lookup
  expand_env_with_lookup-ends zero s h = absurd (omega arith)
  expand_env_with_lookup-ends (suc fuel) s h = (
    expand_env_recursive_ends 33 0 s (omega arith),
    expand_env_recursive_steady fuel 33 0 s (omega arith) (omega arith),
  )
