-- ===== src/Common/Lists.antt =====
-- Lists measured by native numbers, and predicates on their items by recursion.
use Prim.Native.Nat.{ℕ, zero, suc, ◌+◌}
use mathlib.Core.Path.{◌≡◌, refl, ap, subst, sym}
use mathlib.Core.Logic.{◌⊎◌, inl, inr, ◌↔◌}
use mathlib.Core.Bool.{Bool, true, false, ◌||◌, ◌&&◌}
use mathlib.Core.List.{List, [], ◌∷◌, ◌++◌, map}
use mathlib.Core.Option.{Option, none, some}
use native.Mathlib.Omega.{arith}
use gitlab_fleet_governor.Common.Tests.{Bool-cases}

module _ {ℓ} {A : Type ℓ} where
  abbrev pub length : List A → ℕ
  length [] = 0
  length (x ∷ xs) = suc (length xs)

  abbrev pub get_elem? : List A → ℕ → Option A
  get_elem? [] i = none
  get_elem? (x ∷ xs) zero = some x
  get_elem? (x ∷ xs) (suc i) = get_elem? xs i

  -- `for _, x := range xs { if test(x) { return true } }; return false`
  abbrev pub any : (A → Bool) → List A → Bool
  any test [] = false
  any test (x ∷ xs) = test x || any test xs

  abbrev pub all_of : (A → Bool) → List A → Bool
  all_of test [] = true
  all_of test (x ∷ xs) = test x && all_of test xs

  pub any-append :
      (test : A → Bool) (xs ys : List A) → any test (xs ++ ys) ≡ (any test xs || any test ys)
  any-append test [] ys = refl
  any-append test (x ∷ xs) ys = ground (arith, any-append test xs ys)

  pub all_of-append :
      (test : A → Bool) (xs ys : List A)
      → all_of test (xs ++ ys) ≡ (all_of test xs && all_of test ys)
  all_of-append test [] ys = refl
  all_of-append test (x ∷ xs) ys = ground (arith, all_of-append test xs ys)

  abbrev pub All {κ} : (A → Type κ) → List A → Type κ
  All P [] = Unit
  All P (x ∷ xs) = P x × All P xs

  pub length-append : (xs ys : List A) → length (xs ++ ys) ≡ length xs + length ys
  length-append [] ys = omega arith
  length-append (x ∷ xs) ys = omega (arith, length-append xs ys)

  pub All-append {κ} : (P : A → Type κ) (xs ys : List A) → All P (xs ++ ys) ↔ (All P xs × All P ys)
  All-append P [] ys = (λ h. (tt, h), λ h. h.1)
  All-append P (x ∷ xs) ys = (
    λ h. let r = (All-append P xs ys).0 h.1 in ((h.0, r.0), r.1),
    λ h. (h.0.0, (All-append P xs ys).1 (h.0.1, h.1)),
  )

-- Membership without truncation, so that it computes to a sum.
module _ {A : Type 0} where
  -- `x` stands in the list.
  abbrev pub In : A → List A → Type 0
  In x [] = ⊥
  In x (y ∷ ys) = (x ≡ y) ⊎ In x ys

  -- No item stands twice.
  abbrev pub Distinct : List A → Type 0
  Distinct [] = Unit
  Distinct (x ∷ xs) = (¬ In x xs) × Distinct xs

  pub In-append : (x : A) (xs ys : List A) → In x (xs ++ ys) ↔ (In x xs ⊎ In x ys)
  In-append x [] ys = (λ h. inr h, elim [ inl h ↦ absurd h | inr h ↦ h ])
  In-append x (z ∷ xs) ys = ground (arith, In-append x xs ys)

  pub Distinct-snoc : (l : List A) (a : A) → Distinct l → (¬ In a l) → Distinct (l ++ a ∷ [])
  Distinct-snoc [] a h n = (λ m. m, tt)
  Distinct-snoc (x ∷ l) a h n = ground (arith, In-append x l (a ∷ []), Distinct-snoc l a h.1)

  pub Distinct-remove : (xs ys : List A) (a : A) → Distinct (xs ++ a ∷ ys) → Distinct (xs ++ ys)
  Distinct-remove [] ys a h = h.1
  Distinct-remove (x ∷ xs) ys a h =
      ground (arith, In-append x xs ys, In-append x xs (a ∷ ys), Distinct-remove xs ys a h.1)

  pub Distinct-left : (xs ys : List A) → Distinct (xs ++ ys) → Distinct xs
  Distinct-left [] ys h = tt
  Distinct-left (x ∷ xs) ys h = ground (arith, In-append x xs ys, Distinct-left xs ys h.1)

  pub All-In {κ} : (P : A → Type κ) (xs : List A) (x : A) → All P xs → In x xs → P x
  All-In P [] x h m = absurd m
  All-In P (y ∷ ys) x h (inl e) = subst P (sym e) h.0
  All-In P (y ∷ ys) x h (inr m) = All-In P ys x h.1 m

  pub any_sound :
      (test : A → Bool) (xs : List A) → any test xs ≡ true → (x : A) × In x xs × (test x ≡ true)
  any_sound test [] h = absurd (cc)
  any_sound test (x ∷ xs) h = elim (Bool-cases (test x)) [
    | inl e ↦ (x, inl refl, e)
    | inr e ↦ let (z, m, t) = any_sound test xs (rw e at h) in (z, inr m, t)
  ]

  pub any_complete :
      (test : A → Bool) (xs : List A) (x : A) → In x xs → test x ≡ true → any test xs ≡ true
  any_complete test [] x m h = absurd m
  any_complete test (y ∷ ys) x (inl e) h = rw (← e, h)
  any_complete test (y ∷ ys) x (inr m) h = ground (arith, any_complete test ys x m h)

pub length-map {ℓ κ} :
    {A : Type ℓ} {B : Type κ} (f : A → B) (xs : List A) → length (map f xs) ≡ length xs
length-map f [] = refl
length-map f (x ∷ xs) = ap suc (length-map f xs)

pub In-map : {A B : Type 0} (f : A → B) (x : A) (xs : List A) → In x xs → In (f x) (map f xs)
In-map f x [] h = h
In-map f x (y ∷ ys) (inl e) = inl (ap f e)
In-map f x (y ∷ ys) (inr h) = inr (In-map f x ys h)
