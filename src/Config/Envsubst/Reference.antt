-- ===== src/Config/Envsubst/Reference.antt =====
-- internal/config/envsubst.go: what a `${VAR}` and a `${VAR:-default}` stand for.
use mathlib.Core.List.{append_assoc, append-nil}
use gitlab_fleet_governor.Common.{
  ℕ, zero, suc, ◌+◌, ◌≤◌, Bool, true, false, not, ◌&&◌, [], ◌∷◌, ◌++◌, ◌≡◌, ◌≢◌, refl, sym, ap,
  arith, ◌∙◌, subst, if◌then◌else◌, Option, some, none, all_of, length, length-append, &&_iff,
}
use gitlab_fleet_governor.Common.Text.{Text, is_empty, trim, trim_left, trim_right}
use gitlab_fleet_governor.Config.Envsubst.Fuel.{expand_env_recursive_shallow}
use gitlab_fleet_governor.Config.Envsubst.{
  Unicode, Expansion, expanded, scan, splice, token_at, brace_at, neither, keep, close_brace,
  split_default, resolve, evaluate_expression, is_valid_var_identifier, starts_name, continues_name,
  expand_env_recursive,
}

-- What is relied on of package unicode: neither `$`, `:` and `}` nor a space is a letter or a digit.
pub record IsUnicode (unicode : Unicode) : Type 0 where
  pub dollar : continues_name unicode b'$' ≡ false
  pub colon : continues_name unicode b':' ≡ false
  pub brace : continues_name unicode b'}' ≡ false
  pub space : (c : ℕ) → continues_name unicode c ≡ true → unicode.is_space c ≡ false

-- Texts in which every brace that closes one closes an expression of the text.
pub data Nested : Text → Type 0 where
  done : Nested []
  rune : {c : ℕ} {s : Text} → c ≢ b'$' → c ≢ b'}' → Nested s → Nested (c ∷ s)
  group : {s t : Text} → Nested s → Nested t → Nested (b'$' ∷ b'{' ∷ (s ++ (b'}' ∷ t)))

abbrev pub reference : Text → Text
reference expr = b'$' ∷ b'{' ∷ (expr ++ (b'}' ∷ []))

abbrev pub or_default : Text → Text → Text
or_default name default = name ++ (b':' ∷ b'-' ∷ default)

abbrev keep_all : Text → Option Text → Option Text
keep_all [] o = o
keep_all (c ∷ s) o = keep c (keep_all s o)

brace_at_neither : (c : ℕ) (s : Text) → c ≢ b'$' → c ≢ b'}' → brace_at c s ≡ neither
unfolding brace_at
brace_at_neither c s h k = ground arith

keep_all-append : (s t : Text) (o : Option Text) → keep_all (s ++ t) o ≡ keep_all s (keep_all t o)
keep_all-append [] t o = refl
keep_all-append (c ∷ s) t o = ap (keep c) (keep_all-append s t o)

keep_all-some : (s t : Text) → keep_all s (some t) ≡ some (s ++ t)
keep_all-some [] t = refl
keep_all-some (c ∷ s) t = ap (keep c) (keep_all-some s t)

close_brace_inner :
    (depth : ℕ) (rest : Text)
    → close_brace (suc (suc depth)) 0 (b'}' ∷ rest) ≡ keep b'}' (close_brace (suc depth) 0 rest)
unfolding close_brace brace_at
close_brace_inner depth rest = ground arith

close_brace-Nested :
    {s : Text} (depth : ℕ) (rest : Text)
    → Nested s
    → close_brace (suc depth) 0 (s ++ rest) ≡ keep_all s (close_brace (suc depth) 0 rest)
unfolding close_brace brace_at
close_brace-Nested depth rest done = refl
close_brace-Nested depth rest (rune {c} {s} h k n) =
    ground (arith, h, k, close_brace-Nested depth rest n)
close_brace-Nested depth rest (group {s} {t} n m) =
    rw
      (
        append_assoc s (b'}' ∷ t) rest,
        close_brace-Nested (suc depth) (b'}' ∷ (t ++ rest)) n,
        close_brace_inner depth (t ++ rest),
        close_brace-Nested depth rest m,
        keep_all-append s (b'}' ∷ t) (close_brace (suc depth) 0 rest),
      )
      refl

close_brace_end : (rest : Text) → close_brace 1 0 (b'}' ∷ rest) ≡ some []
unfolding close_brace brace_at
close_brace_end rest = refl

-- The closing brace of an expression is found behind it.
close_brace_found :
    {expr : Text} (rest : Text) → Nested expr → close_brace 1 0 (expr ++ (b'}' ∷ rest)) ≡ some expr
close_brace_found {expr} rest n =
    rw
      (
        close_brace-Nested 0 (b'}' ∷ rest) n,
        close_brace_end rest,
        keep_all-some expr [],
        append-nil expr,
      )
      refl

scan_skipped :
    (evaluate : Text → Expansion) (pre rest : Text) (i j skip : ℕ)
    → skip ≡ length pre
    → j ≡ i + length pre
    → scan evaluate i skip (pre ++ rest) ≡ scan evaluate j 0 rest
unfolding scan
scan_skipped evaluate [] rest i j zero h k = let e : j ≡ i = omega (arith, k) in rw e refl
scan_skipped evaluate [] rest i j (suc skip) h k = absurd (omega (arith, h))
scan_skipped evaluate (c ∷ pre) rest i j zero h k = absurd (omega (arith, h))
scan_skipped evaluate (c ∷ pre) rest i j (suc skip) h k =
    scan_skipped evaluate pre rest (i + 1) j skip (omega (arith, h)) (omega (arith, k))

scan_braced :
    (evaluate : Text → Expansion) (expr : Text) (i : ℕ) (s : Text)
    → close_brace 1 0 s ≡ some expr
    → scan evaluate i 0 (b'$' ∷ b'{' ∷ s)
      ≡ splice expr i (evaluate expr) (scan evaluate (i + 1) (length expr + 2) (b'{' ∷ s))
unfolding scan token_at
scan_braced evaluate expr i s h = ground (arith, h)

-- A reference is replaced by what its expression evaluates to, and the scan goes on behind it.
scan-reference :
    (evaluate : Text → Expansion) {expr : Text} (i : ℕ) (rest : Text)
    → Nested expr
    → scan evaluate i 0 (reference expr ++ rest)
      ≡ splice expr i (evaluate expr) (scan evaluate (i + (length expr + 3)) 0 rest)
scan-reference evaluate {expr} i rest n =
    let e = append_assoc (b'{' ∷ expr) (b'}' ∷ []) rest in
    ap (λ s. scan evaluate i 0 (b'$' ∷ s)) e
    ∙ scan_braced evaluate expr i _ (close_brace_found rest n)
    ∙ ap (splice expr i (evaluate expr)) (
        ap (scan evaluate (i + 1) (length expr + 2)) (sym e)
        ∙ scan_skipped evaluate (b'{' ∷ (expr ++ (b'}' ∷ []))) rest (i + 1) (i + (length expr + 3))
            (length expr + 2) (omega (arith, length-append expr (b'}' ∷ [])))
            (omega (arith, length-append expr (b'}' ∷ []))))

-- Names, which hold no brace, colon or space.
module _ (unicode : Unicode) (u : IsUnicode unicode) where
  abbrev NameText : Text → Type 0
  NameText s = all_of (continues_name unicode) s ≡ true

  continues_not :
      (c d : ℕ) → continues_name unicode c ≡ true → continues_name unicode d ≡ false → c ≢ d
  continues_not c d h k e = cc

  name-Nested : (name s : Text) → NameText name → Nested s → Nested (name ++ s)
  name-Nested [] s h n = n
  name-Nested (c ∷ name) s h n =
      let (head, tail) = (&&_iff (continues_name unicode c) _).0 h in
      rune (continues_not c b'$' head u.dollar) (continues_not c b'}' head u.brace)
        (name-Nested name s tail n)

  split_default_name : (name : Text) → NameText name → split_default 0 0 name ≡ none
  unfolding split_default
  split_default_name [] h = refl
  split_default_name (c ∷ name) h =
      let (head, tail) = (&&_iff (continues_name unicode c) _).0 h in
      ground (
        arith,
        split_default_name name tail,
        brace_at_neither c name (continues_not c b'$' head u.dollar)
            (continues_not c b'}' head u.brace),
        continues_not c b':' head u.colon,
      )

  split_default-or_default :
      (name default : Text)
      → NameText name
      → split_default 0 0 (or_default name default) ≡ some (name, default)
  unfolding split_default
  split_default-or_default [] default h = unfold brace_at in refl
  split_default-or_default (c ∷ name) default h =
      let (head, tail) = (&&_iff (continues_name unicode c) _).0 h in
      ground (
        arith,
        split_default-or_default name default tail,
        brace_at_neither c (or_default name default) (continues_not c b'$' head u.dollar)
            (continues_not c b'}' head u.brace),
        continues_not c b':' head u.colon,
      )

  trim_right_name : (name : Text) → NameText name → trim_right unicode.is_space name ≡ name
  unfolding trim_right
  trim_right_name [] h = refl
  trim_right_name (c ∷ name) h =
      let (head, tail) = (&&_iff (continues_name unicode c) _).0 h in
      ground (arith, u.space c head, trim_right_name name tail)

  trim_name : (name : Text) → NameText name → trim unicode.is_space name ≡ name
  unfolding trim trim_left
  trim_name [] h = unfold trim_right in refl
  trim_name (c ∷ name) h =
      let (head, tail) = (&&_iff (continues_name unicode c) _).0 h in
      ground (arith, u.space c head, trim_right_name (c ∷ name) h)

  valid-NameText : (name : Text) → is_valid_var_identifier unicode name ≡ true → NameText name
  unfolding is_valid_var_identifier starts_name continues_name
  valid-NameText [] h = refl
  valid-NameText (c ∷ name) h = ground arith

  module _ (env : Text → Text × Bool) (fuel depth : ℕ) (below : depth ≤ 32) where
    -- What is done with a value of a variable, and with a default.
    abbrev on_value : Text → Expansion
    on_value = expand_env_recursive unicode env fuel (depth + 1 + 1)

    abbrev on_default : Text → Expansion
    on_default = expand_env_recursive unicode env fuel (depth + 1)

    abbrev is_set : Text → Bool
    is_set name = (env name).1 && not (is_empty (env name).0)

    expand-expression :
        {expr : Text}
        → Nested expr
        → expand_env_recursive unicode env (suc fuel) depth (reference expr)
          ≡ splice expr 0 (evaluate_expression unicode env on_value on_default expr) (expanded [])
    expand-expression {expr} n =
        expand_env_recursive_shallow unicode env fuel depth (reference expr) below
        ∙ ap (scan (evaluate_expression unicode env on_value on_default) 0 0)
            (sym (append-nil (reference expr)))
        ∙ scan-reference _ 0 [] n
        ∙ unfold scan in refl

    evaluate_name :
        (name : Text)
        → is_valid_var_identifier unicode name ≡ true
        → evaluate_expression unicode env on_value on_default name
          ≡ (if is_set name then on_value (env name).0 else expanded (env name).0)
    unfolding evaluate_expression resolve
    evaluate_name name h =
        let plain = valid-NameText name h in
        ground (arith, split_default_name name plain, trim_name name plain, h)

    evaluate-or_default :
        (name default : Text)
        → is_valid_var_identifier unicode name ≡ true
        → evaluate_expression unicode env on_value on_default (or_default name default)
          ≡ (if is_set name then on_value (env name).0 else on_default default)
    unfolding evaluate_expression resolve
    evaluate-or_default name default h =
        let plain = valid-NameText name h in
        ground (arith, split_default-or_default name default plain, trim_name name plain, h)

-- A reference alone, at a depth up to the limit of 32. `${NAME}` stands for the expansion, two deeper,
-- of the variable's value where it is set and not empty, and for the value as it is otherwise.
-- `${NAME:-default}` stands for the same expansion of a value that is set and not empty, and otherwise
-- for the expansion, one deeper, of the default, in which expressions may be nested. An error of either
-- is returned with the expression and its offset.
pub expand-reference :
    (unicode : Unicode) (env : Text → Text × Bool) (fuel depth : ℕ) (name default : Text)
    → IsUnicode unicode
    → depth ≤ 32
    → is_valid_var_identifier unicode name ≡ true
    → Nested default
    → (expand_env_recursive unicode env (suc fuel) depth (reference name)
        ≡ splice name 0
            (if (env name).1 && not (is_empty (env name).0)
              then expand_env_recursive unicode env fuel (depth + 2) (env name).0
              else expanded (env name).0)
            (expanded []))
      × (expand_env_recursive unicode env (suc fuel) depth (reference (or_default name default))
          ≡ splice
              (or_default name default)
              0
              (if (env name).1 && not (is_empty (env name).0)
                then expand_env_recursive unicode env fuel (depth + 2) (env name).0
                else expand_env_recursive unicode env fuel (depth + 1) default)
              (expanded []))
expand-reference unicode env fuel depth name default u below h n =
    let two : depth + 2 ≡ depth + 1 + 1 = omega arith in
    let plain = valid-NameText unicode u name h in
    rw two (
      expand-expression unicode u env fuel depth below
            (subst Nested (append-nil name) (name-Nested unicode u name [] plain done))
          ∙ ap (λ r. splice name 0 r (expanded []))
              (evaluate_name unicode u env fuel depth below name h),
      expand-expression unicode u env fuel depth below (
            name-Nested unicode u name _ plain
              (rune (omega arith) (omega arith) (rune (omega arith) (omega arith) n)))
          ∙ ap (λ r. splice (or_default name default) 0 r (expanded []))
              (evaluate-or_default unicode u env fuel depth below name default h),
    )
