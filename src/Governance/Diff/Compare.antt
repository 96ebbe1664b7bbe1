-- ===== src/Governance/Diff/Compare.antt =====
-- The field comparisons of diff.go report exactly the attributes that miss the policy.
use gitlab_fleet_governor.Common.{
  Bool, Option, some, none, List, [], ◌∷◌, ◌≡◌, ◌↔◌, ◌⊎◌, inl, refl, sym, subst, arith,
}
use mathlib.Core.List.{Permᴰ}
use mathlib.Core.List.Permᴰ
use gitlab_fleet_governor.Common.Int.{ℤ, int_beq_iff}
use gitlab_fleet_governor.Common.Text.{
  Text, text_beq_iff, texts_eq, text_le, text_le_antisymm, text_le-IsTotalOrder,
}
use gitlab_fleet_governor.Common.Sort.{sort, sort-perm, sort-perm-eq}
use gitlab_fleet_governor.Governance.Diff.{
  compare_string, compare_string_ptr, compare_bool_ptr, compare_int_ptr, compare_string_slice,
}

-- What an optional setting asks of a live value.
abbrev pub Meets {ℓ} : {A : Type ℓ} → A → Option A → Type ℓ
Meets live none = Unit
Meets live (some desired) = live ≡ desired

compare_string_ptr-none :
    (field live : Text) (desired : Option Text)
    → (compare_string_ptr field live desired ≡ none) ↔ Meets live desired
unfolding compare_string_ptr
compare_string_ptr-none field live none = (λ _. tt, λ _. refl)
compare_string_ptr-none field live (some d) = ground (arith, text_beq_iff live d)

compare_bool_ptr-none :
    (field : Text) (live : Bool) (desired : Option Bool)
    → (compare_bool_ptr field live desired ≡ none) ↔ Meets live desired
unfolding compare_bool_ptr
compare_bool_ptr-none field live none = (λ _. tt, λ _. refl)
compare_bool_ptr-none field live (some d) = ground arith

compare_int_ptr-none :
    (field : Text) (live : ℤ) (desired : Option ℤ)
    → (compare_int_ptr field live desired ≡ none) ↔ Meets live desired
unfolding compare_int_ptr
compare_int_ptr-none field live none = (λ _. tt, λ _. refl)
compare_int_ptr-none field live (some d) = ground (arith, int_beq_iff live d)

compare_string-none :
    (field live desired : Text)
    → (compare_string field live desired ≡ none) ↔ ((desired ≡ []) ⊎ (live ≡ desired))
unfolding compare_string
compare_string-none field live [] = (λ _. inl refl, λ _. refl)
compare_string-none field live (c ∷ d) = ground (arith, text_beq_iff live (c ∷ d))

sort-eq_iff : (xs ys : List Text) → (sort text_le xs ≡ sort text_le ys) ↔ Permᴰ xs ys
sort-eq_iff xs ys = (
  λ e.
      Permᴰ.trans (Permᴰ.symm (sort-perm text_le xs))
        (subst (λ l. Permᴰ l ys) (sym e) (sort-perm text_le ys)),
  λ p. sort-perm-eq text_le-IsTotalOrder p (λ a b _ _. text_le_antisymm a b),
)

-- The comparison of string lists is silent exactly if the desired list is nil or holds the live
-- texts, each as often, in any order.
pub compare_string_slice-none :
    (field : Text) (live desired : List Text)
    → (compare_string_slice field live none ≡ none)
      × ((compare_string_slice field live (some desired) ≡ none) ↔ Permᴰ live desired)
unfolding compare_string_slice
compare_string_slice-none field live desired =
    let sorted = sort-eq_iff live desired in
    let test = texts_eq.same_iff (sort text_le live) (sort text_le desired) in
    (refl, (λ h. sorted.0 (ground (arith, test)), λ p. rw (test.1 (sorted.1 p))))

-- Each scalar comparison is silent exactly if the live value meets the setting: an empty desired
-- text or an absent pointer asks nothing, any other value asks for itself.
pub compare_scalar-none :
    (field live desired : Text) (text_ptr : Option Text) (on : Bool) (bool_ptr : Option Bool)
    (n : ℤ) (int_ptr : Option ℤ)
    → ((compare_string field live desired ≡ none) ↔ ((desired ≡ []) ⊎ (live ≡ desired)))
      × ((compare_string_ptr field live text_ptr ≡ none) ↔ Meets live text_ptr)
      × ((compare_bool_ptr field on bool_ptr ≡ none) ↔ Meets on bool_ptr)
      × ((compare_int_ptr field n int_ptr ≡ none) ↔ Meets n int_ptr)
compare_scalar-none field live desired text_ptr on bool_ptr n int_ptr = (
  compare_string-none field live desired,
  compare_string_ptr-none field live text_ptr,
  compare_bool_ptr-none field on bool_ptr,
  compare_int_ptr-none field n int_ptr,
)
