-- ===== src/Common/Text.antt =====
-- Go strings and what package strings does with them. A text is its bytes; ToLower and TrimSpace
-- are those of ASCII texts, on which Go's tables of letters and spaces are not consulted.
use Prim.Native.Char.{code}
use Prim.Native.String.{String}
use Prim.Native.Nat.{ℕ, zero, suc, ◌+◌, ◌-◌}
use mathlib.Core.Path.{◌≡◌, refl}
use mathlib.Core.Logic.{◌⊎◌, inl, inr, ◌↔◌}
use mathlib.Core.Bool.{Bool, true, false, ◌&&◌, ◌||◌}
use mathlib.Core.List.{List, [], ◌∷◌, ◌++◌, map}
use mathlib.Core.Option.{Option, none, some}
use native.Mathlib.Omega.{arith}
use gitlab_fleet_governor.Common.Tests.{if◌then◌else◌, ltb, leb, nat_beq}
use gitlab_fleet_governor.Common.Lists.{In, length}
use gitlab_fleet_governor.Common.Equality.{Eq, nat_eq, list_beq, list_beq_iff}
use gitlab_fleet_governor.Common.Sort.{IsTotalOrder}

abbrev pub Text : Type 0
Text = List ℕ

abbrev pub codes : String → Text
codes String.[] = []
codes (String.◌∷◌ c s) = code c ∷ codes s

abbrev pub text_beq : Text → Text → Bool
text_beq = list_beq

pub text_beq_iff : (s t : Text) → (text_beq s t ≡ true) ↔ (s ≡ t)
text_beq_iff s t = list_beq_iff s t

instance abbrev pub text_eq : Eq Text
text_eq = record { same = text_beq; same_iff = text_beq_iff }

instance abbrev pub texts_eq : Eq (List Text)
texts_eq = record { same = list_beq; same_iff = list_beq_iff }

-- `s == ""`
abbrev pub is_empty : Text → Bool
is_empty [] = true
is_empty (c ∷ s) = false

pub is_empty_iff : (s : Text) → (is_empty s ≡ true) ↔ (s ≡ [])
is_empty_iff [] = ground arith
is_empty_iff (c ∷ s) = ground arith

-- `s <= t`, the order of bytes that `s < t` on strings comes from.
unfoldable pub text_le : Text → Text → Bool
text_le [] t = true
text_le (c ∷ s) [] = false
text_le (c ∷ s) (d ∷ t) = ltb c d || nat_beq c d && text_le s t

pub text_le_total : (s t : Text) → (text_le s t ≡ true) ⊎ (text_le t s ≡ true)
unfolding text_le
text_le_total [] t = inl refl
text_le_total (c ∷ s) [] = inr refl
text_le_total (c ∷ s) (d ∷ t) = ground (arith, text_le_total s t)

pub text_le_trans : (s t u : Text) → text_le s t ≡ true → text_le t u ≡ true → text_le s u ≡ true
unfolding text_le
text_le_trans [] t u h k = refl
text_le_trans (c ∷ s) [] u h k = cc
text_le_trans (c ∷ s) (d ∷ t) [] h k = cc
text_le_trans (c ∷ s) (d ∷ t) (e ∷ u) h k = ground (arith, text_le_trans s t u)

pub text_le_antisymm : (s t : Text) → text_le s t ≡ true → text_le t s ≡ true → s ≡ t
unfolding text_le
text_le_antisymm [] [] h k = refl
text_le_antisymm [] (d ∷ t) h k = cc
text_le_antisymm (c ∷ s) [] h k = cc
text_le_antisymm (c ∷ s) (d ∷ t) h k = ground (arith, text_le_antisymm s t)

pub text_le-IsTotalOrder : IsTotalOrder text_le
text_le-IsTotalOrder = record { total = text_le_total; le_trans = text_le_trans }

unfoldable pub lower_byte : ℕ → ℕ
lower_byte c = if leb b'A' c && leb c b'Z' then c + 32 else c

unfoldable pub to_lower : Text → Text
unfolding lower_byte
to_lower = map lower_byte

unfoldable pub is_space : ℕ → Bool
is_space c = leb 9 c && leb c 13 || nat_beq c 32

abbrev pub is_slash : ℕ → Bool
is_slash c = nat_beq c b'/'

unfoldable pub trim_left : (ℕ → Bool) → Text → Text
trim_left cut [] = []
trim_left cut (c ∷ s) = if cut c then trim_left cut s else c ∷ s

unfoldable pub trim_right : (ℕ → Bool) → Text → Text
trim_right cut [] = []
trim_right cut (c ∷ s) =
    let rest = trim_right cut s in if cut c && is_empty rest then [] else c ∷ rest

unfoldable pub trim : (ℕ → Bool) → Text → Text
unfolding trim_left trim_right
trim cut s = trim_right cut (trim_left cut s)

unfoldable pub trim_space : Text → Text
unfolding trim is_space
trim_space = trim is_space

-- `strings.HasPrefix(s, prefix)`
unfoldable pub has_prefix : Text → Text → Bool
has_prefix s [] = true
has_prefix [] (d ∷ t) = false
has_prefix (c ∷ s) (d ∷ t) = nat_beq c d && has_prefix s t

pub has_prefix_sound : (s t : Text) → has_prefix s t ≡ true → (rest : Text) × (s ≡ t ++ rest)
unfolding has_prefix
has_prefix_sound s [] h = (s, refl)
has_prefix_sound [] (d ∷ t) h = absurd (cc)
has_prefix_sound (c ∷ s) (d ∷ t) h =
    let (rest, e) = has_prefix_sound s t (ground arith) in (rest, ground arith)

pub has_prefix-append : (t rest : Text) → has_prefix (t ++ rest) t ≡ true
unfolding has_prefix
has_prefix-append [] rest = refl
has_prefix-append (d ∷ t) rest = ground (arith, has_prefix-append t rest)

-- `s[:strings.LastIndex(s, "/")]`, where there is a slash.
unfoldable pub before_last_slash : Text → Option Text
before_last_slash [] = none
before_last_slash (c ∷ s) = elim (before_last_slash s) [
  | some p ↦ some (c ∷ p)
  | none ↦ if is_slash c then some [] else none
]

-- `strings.ReplaceAll(s, old, new)` for a non-empty `old`; `skip` bytes of a match are still to be
-- passed over.
unfoldable pub replace_from : Text → Text → ℕ → Text → Text
unfolding has_prefix
replace_from old new skip [] = []
replace_from old new (suc skip) (c ∷ s) = replace_from old new skip s
replace_from old new zero (c ∷ s) = elim (has_prefix (c ∷ s) old) [
  | true ↦ new ++ replace_from old new (length old - 1) s
  | false ↦ c ∷ replace_from old new zero s
]

unfoldable pub replace_all : Text → Text → Text → Text
unfolding replace_from
replace_all s old new = replace_from old new 0 s

replaced : replace_all (codes "My App - Web") (codes " - ") (codes "-") ≡ codes "My App-Web"
unfolding replace_all
replaced = refl

trimmed : trim is_slash (to_lower (codes "//Org/Team/")) ≡ codes "org/team"
unfolding trim to_lower
trimmed = refl

-- Two texts that a colon ends where it first occurs.
pub split_colon :
    (s t s' t' : Text)
    → (In b':' s → ⊥)
    → (In b':' s' → ⊥)
    → s ++ (b':' ∷ t) ≡ s' ++ (b':' ∷ t')
    → (s ≡ s') × (t ≡ t')
split_colon [] t [] t' h h' e = ground (arith, e)
split_colon [] t (c ∷ s') t' h h' e = ground (arith, h', e)
split_colon (c ∷ s) t [] t' h h' e = ground (arith, h, e)
split_colon (c ∷ s) t (d ∷ s') t' h h' e = ground (arith, h, h', e, split_colon s t s' t')
