-- ===== src/Common/Equality.antt =====
-- Decided equality as an interface, and finite maps as association lists over it.
use Prim.Native.Nat.{ℕ}
use mathlib.Core.Path.{◌≡◌, refl}
use mathlib.Core.Logic.{◌⊎◌, ◌↔◌}
use mathlib.Core.Bool.{Bool, true, false, ◌&&◌, ◌||◌}
use mathlib.Core.List.{List, [], ◌∷◌}
use mathlib.Core.Option.{Option, none, some}
use native.Mathlib.Omega.{arith}
use gitlab_fleet_governor.Common.Tests.{if◌then◌else◌, nat_beq, nat_beq_iff}
use gitlab_fleet_governor.Common.Lists.{In, Distinct}

pub record Eq {ℓ} (A : Type ℓ) : Type ℓ where
  pub same : A → A → Bool
  pub same_iff : (a b : A) → (same a b ≡ true) ↔ (a ≡ b)

infix 50 ◌==◌
abbrev pub ◌==◌ {ℓ} : {A : Type ℓ} ⦃eq : Eq A⦄ → A → A → Bool
◌==◌ ⦃eq⦄ = eq.same

instance abbrev pub nat_eq : Eq ℕ
nat_eq = record { same = nat_beq; same_iff = nat_beq_iff }

module _ {A : Type 0} ⦃e : Eq A⦄ where
  pub beq_refl : (a : A) → (a == a) ≡ true
  beq_refl a = (e.same_iff a a).1 refl

  -- A Go map used as a set: its keys.
  unfoldable pub contains : A → List A → Bool
  contains a [] = false
  contains a (x ∷ xs) = a == x || contains a xs

  pub contains_iff : (a : A) (xs : List A) → (contains a xs ≡ true) ↔ In a xs
  unfolding contains
  contains_iff a [] = (λ h. cc, λ h. absurd h)
  contains_iff a (x ∷ xs) = ground (arith, e.same_iff a x, contains_iff a xs)

  abbrev pub list_beq : List A → List A → Bool
  list_beq [] [] = true
  list_beq [] (y ∷ ys) = false
  list_beq (x ∷ xs) [] = false
  list_beq (x ∷ xs) (y ∷ ys) = x == y && list_beq xs ys

  pub list_beq_iff : (xs ys : List A) → (list_beq xs ys ≡ true) ↔ (xs ≡ ys)
  list_beq_iff [] [] = ground arith
  list_beq_iff [] (y ∷ ys) = ground arith
  list_beq_iff (x ∷ xs) [] = ground arith
  list_beq_iff (x ∷ xs) (y ∷ ys) = ground (arith, e.same_iff x y, list_beq_iff xs ys)

module _ {κ} {K : Type 0} {V : Type κ} where
  abbrev pub keys : List (K × V) → List K
  keys [] = []
  keys ((k, v) ∷ m) = k ∷ keys m

  abbrev pub values : List (K × V) → List V
  values [] = []
  values ((k, v) ∷ m) = v ∷ values m

-- `m[k] = v` and `v, ok := m[k]`. Entries keep the place of their first insertion.
module _ {κ} {K : Type 0} {V : Type κ} ⦃e : Eq K⦄ where
  unfoldable pub lookup : K → List (K × V) → Option V
  lookup k [] = none
  lookup k ((key, v) ∷ m) = if key == k then some v else lookup k m

  unfoldable pub insert : K → V → List (K × V) → List (K × V)
  insert k v [] = (k, v) ∷ []
  insert k v ((key, old) ∷ m) = if key == k then (k, v) ∷ m else (key, old) ∷ insert k v m

  pub lookup-insert :
      (new key : K) (v : V) (entries : List (K × V))
      → lookup key (insert new v entries) ≡ (if new == key then some v else lookup key entries)
  unfolding lookup insert
  lookup-insert new key v [] = refl
  lookup-insert new key v ((at, old) ∷ rest) = ground (
    arith,
    lookup-insert new key v rest,
    e.same_iff new key,
    e.same_iff at new,
    e.same_iff at key,
  )

  pub In-keys-insert :
      (j k : K) (v : V) (m : List (K × V)) → In j (keys (insert k v m)) ↔ ((j ≡ k) ⊎ In j (keys m))
  unfolding insert
  In-keys-insert j k v [] = ground arith
  In-keys-insert j k v ((i, w) ∷ m) = ground (arith, e.same_iff i k, In-keys-insert j k v m)

  -- A map keeps its keys distinct.
  pub insert-Distinct :
      (k : K) (v : V) (m : List (K × V)) → Distinct (keys m) → Distinct (keys (insert k v m))
  unfolding insert
  insert-Distinct k v [] h = ground arith
  insert-Distinct k v ((i, w) ∷ m) h =
      ground (arith, e.same_iff i k, In-keys-insert i k v m, insert-Distinct k v m h.1)
