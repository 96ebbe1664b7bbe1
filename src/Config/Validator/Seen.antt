-- ===== src/Config/Validator/Seen.antt =====
-- internal/config/validator.go: lists of errors, and the names that a loop has seen.
use gitlab_fleet_governor.Common.{List, [], ◌∷◌, ◌++◌, ◌≡◌, ◌↔◌, arith, In, All}
use gitlab_fleet_governor.Common.Text.{Text}

pub append-nil_iff : {A : Type 0} (xs ys : List A) → (xs ++ ys ≡ []) ↔ ((xs ≡ []) × (ys ≡ []))
append-nil_iff [] ys = ground arith
append-nil_iff (x ∷ xs) ys = ground arith

-- Two checks one after the other.
pub both_iff :
    {A P Q : Type 0} {xs ys : List A}
    → ((xs ≡ []) ↔ P)
    → ((ys ≡ []) ↔ Q)
    → (xs ++ ys ≡ []) ↔ (P × Q)
both_iff {xs = xs} {ys = ys} p q = (
  λ h. let (a, b) = (append-nil_iff xs ys).0 h in (p.0 a, q.0 b),
  λ h. (append-nil_iff xs ys).1 (p.1 h.0, q.1 h.1),
)

-- No item of the second list is one that was seen.
abbrev pub Fresh : List Text → List Text → Type 0
Fresh seen xs = All (λ x. In x seen → ⊥) xs

pub Fresh-cons :
    (k : Text) (seen xs : List Text) → Fresh (k ∷ seen) xs ↔ ((In k xs → ⊥) × Fresh seen xs)
Fresh-cons k seen [] = ground arith
Fresh-cons k seen (x ∷ xs) = ground (arith, Fresh-cons k seen xs)

pub Fresh-nil : (xs : List Text) → Fresh [] xs
Fresh-nil [] = tt
Fresh-nil (x ∷ xs) = (λ m. m, Fresh-nil xs)
