-- ===== src/Common/Sort.antt =====
-- `sort.Slice`, `sort.Strings` and `sort.Ints`. Go promises a sorted permutation and no algorithm, so
-- the laws below say when every sorted permutation of a list is the one computed here.
use mathlib.Core.Path.{◌≡◌, refl, sym, ap, ◌∙◌, subst}
use mathlib.Core.Logic.{◌⊎◌, inl, inr}
use mathlib.Core.Bool.{Bool, true}
use mathlib.Core.List.{List, [], ◌∷◌, map}
use mathlib.Core.List.Permᴰ
use mathlib.Core.List.{Permᴰ}
use native.Mathlib.Omega.{arith}
use gitlab_fleet_governor.Common.Tests.{if◌then◌else◌, Bool-cases}
use gitlab_fleet_governor.Common.Lists.{In, All}

pub All-perm : {A : Type 0} (P : A → Type 0) {xs ys : List A} → Permᴰ xs ys → All P xs → All P ys
All-perm P Permᴰ.nil h = h
All-perm P (Permᴰ.cons e p) h = (subst P e h.0, All-perm P p h.1)
All-perm P (Permᴰ.swap e f) h = (subst P f h.1.0, (subst P e h.0, h.1.1))
All-perm P (Permᴰ.trans p q) h = All-perm P q (All-perm P p h)

pub In-perm : {A : Type 0} {xs ys : List A} → Permᴰ xs ys → (x : A) → In x xs → In x ys
In-perm Permᴰ.nil x h = h
In-perm (Permᴰ.cons e p) x h = ground (arith, In-perm p x)
In-perm (Permᴰ.swap e f) x h = ground arith
In-perm (Permᴰ.trans p q) x h = In-perm q x (In-perm p x h)

module _ {A : Type 0} (le : A → A → Bool) where
  insert_sorted : A → List A → List A
  insert_sorted a [] = a ∷ []
  insert_sorted a (b ∷ l) = if le a b then a ∷ b ∷ l else b ∷ insert_sorted a l

  unfoldable pub sort : List A → List A
  unfolding insert_sorted
  sort [] = []
  sort (a ∷ l) = insert_sorted a (sort l)

  abbrev pub IsSorted : List A → Type 0
  IsSorted [] = Unit
  IsSorted (a ∷ l) = All (λ b. le a b ≡ true) l × IsSorted l

  insert_sorted-perm : (a : A) (l : List A) → Permᴰ (insert_sorted a l) (a ∷ l)
  unfolding insert_sorted
  insert_sorted-perm a [] = Permᴰ.refl (a ∷ [])
  insert_sorted-perm a (b ∷ l) = elim (Bool-cases (le a b)) [
    | inl e ↦ rw e (Permᴰ.refl (a ∷ b ∷ l))
    | inr e ↦ rw e (Permᴰ.trans (Permᴰ.cons refl (insert_sorted-perm a l)) (Permᴰ.swap refl refl))
  ]

  pub sort-perm : (l : List A) → Permᴰ (sort l) l
  unfolding sort
  sort-perm [] = Permᴰ.nil
  sort-perm (a ∷ l) = Permᴰ.trans (insert_sorted-perm a (sort l)) (Permᴰ.cons refl (sort-perm l))

  pub sort-eq_of_IsSorted : (l : List A) → IsSorted l → sort l ≡ l
  unfolding sort
  sort-eq_of_IsSorted [] h = refl
  sort-eq_of_IsSorted (a ∷ []) h = refl
  sort-eq_of_IsSorted (a ∷ b ∷ l) h = rw (sort-eq_of_IsSorted (b ∷ l) h.1, h.0.0)

-- What the laws need of the comparison.
pub record IsTotalOrder {A : Type 0} (le : A → A → Bool) : Type 0 where
  pub total : (a b : A) → (le a b ≡ true) ⊎ (le b a ≡ true)
  pub le_trans : (a b c : A) → le a b ≡ true → le b c ≡ true → le a c ≡ true

module _ {A : Type 0} {le : A → A → Bool} (order : IsTotalOrder le) where
  open order use {total, le_trans}

  All-insert_sorted :
      (x a : A) (l : List A)
      → le x a ≡ true
      → All (λ b. le x b ≡ true) l
      → All (λ b. le x b ≡ true) (insert_sorted le a l)
  unfolding insert_sorted
  All-insert_sorted x a [] h k = (h, tt)
  All-insert_sorted x a (b ∷ l) h k = elim (Bool-cases (le a b)) [
    | inl e ↦ rw e (h, k)
    | inr e ↦ rw e (k.0, All-insert_sorted x a l h k.1)
  ]

  All-le :
      (a b : A) (l : List A)
      → le a b ≡ true
      → All (λ c. le b c ≡ true) l
      → All (λ c. le a c ≡ true) l
  All-le a b [] h k = tt
  All-le a b (c ∷ l) h k = (le_trans a b c h k.0, All-le a b l h k.1)

  insert_sorted-IsSorted : (a : A) (l : List A) → IsSorted le l → IsSorted le (insert_sorted le a l)
  unfolding insert_sorted
  insert_sorted-IsSorted a [] h = (tt, tt)
  insert_sorted-IsSorted a (b ∷ l) h = elim (Bool-cases (le a b)) [
    | inl e ↦ rw e ((e, All-le a b l e h.0), h)
    | inr e ↦
        rw e
          (All-insert_sorted b a l (ground (arith, total a b)) h.0, insert_sorted-IsSorted a l h.1)
  ]

  pub sort-IsSorted : (l : List A) → IsSorted le (sort le l)
  unfolding sort
  sort-IsSorted [] = tt
  sort-IsSorted (a ∷ l) = insert_sorted-IsSorted a (sort le l) (sort-IsSorted l)

  insert_sorted_comm :
      (a b : A) (l : List A)
      → (le a b ≡ true → le b a ≡ true → a ≡ b)
      → insert_sorted le a (insert_sorted le b l) ≡ insert_sorted le b (insert_sorted le a l)
  unfolding insert_sorted
  insert_sorted_comm a b [] h = ground (arith, h, total a b)
  insert_sorted_comm a b (c ∷ l) h =
      ground (arith, h, total a b, le_trans a b c, le_trans b a c, insert_sorted_comm a b l h)

  -- The order is antisymmetric on the items of the list.
  abbrev pub Tells : List A → Type 0
  Tells l = (a b : A) → In a l → In b l → le a b ≡ true → le b a ≡ true → a ≡ b

  pub sort-perm-eq : {xs ys : List A} → Permᴰ xs ys → Tells xs → sort le xs ≡ sort le ys
  unfolding sort
  sort-perm-eq Permᴰ.nil t = refl
  sort-perm-eq (Permᴰ.cons {l₁ = l₁} {l₂ = l₂} e p) t =
      let ih = sort-perm-eq p (λ a b ma mb. t a b (inr ma) (inr mb)) in cc
  sort-perm-eq (Permᴰ.swap {a = a} {b = b} {l = l} e f) t =
      let c = insert_sorted_comm a b (sort le l) (t a b (inl refl) (inr (inl refl))) in cc
  sort-perm-eq (Permᴰ.trans p q) t =
      sort-perm-eq p t
      ∙ sort-perm-eq q
          (λ a b ma mb. t a b (In-perm (Permᴰ.symm p) a ma) (In-perm (Permᴰ.symm p) b mb))

  -- Whatever sorts the items gives this list.
  pub sort_unique : (xs ys : List A) → Permᴰ ys xs → IsSorted le ys → Tells xs → ys ≡ sort le xs
  sort_unique xs ys p s t = sym (sort-perm-eq (Permᴰ.symm p) t ∙ sort-eq_of_IsSorted le ys s)

insert_sorted-map :
    {A B : Type 0} (le : A → A → Bool) (le' : B → B → Bool) (f : A → B)
    → ((a b : A) → le' (f a) (f b) ≡ le a b)
    → (a : A) (l : List A) → insert_sorted le' (f a) (map f l) ≡ map f (insert_sorted le a l)
unfolding insert_sorted
insert_sorted-map le le' f h a [] = refl
insert_sorted-map le le' f h a (b ∷ l) = elim (Bool-cases (le a b)) [
  | inl e ↦ rw (h a b, e)
  | inr e ↦ rw (h a b, e) (ap (◌∷◌ (f b)) (insert_sorted-map le le' f h a l))
]

-- Sorting commutes with a map that keeps the comparison.
pub sort-map :
    {A B : Type 0} (le : A → A → Bool) (le' : B → B → Bool) (f : A → B)
    → ((a b : A) → le' (f a) (f b) ≡ le a b)
    → (l : List A) → sort le' (map f l) ≡ map f (sort le l)
unfolding sort
sort-map le le' f h [] = refl
sort-map le le' f h (a ∷ l) =
    ap (insert_sorted le' (f a)) (sort-map le le' f h l)
    ∙ insert_sorted-map le le' f h a (sort le l)
