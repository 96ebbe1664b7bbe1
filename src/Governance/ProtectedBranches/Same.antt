-- ===== src/Governance/ProtectedBranches/Same.antt =====
-- equalAccessDescriptions of internal/governance/protectedbranches.go and the entries it compares.
use gitlab_fleet_governor.Common.{
  suc, Bool, true, List, [], ◌∷◌, ◌++◌, map, ◌≡◌, ◌↔◌, ◌&&◌, refl, sym, ap, ◌∙◌, arith, In, length,
  nat_beq,
}
use mathlib.Core.List.Permᴰ
use mathlib.Core.List.{Permᴰ}
use gitlab_fleet_governor.Common.Int.{ℤ, int_eq, int_beq_iff}
use gitlab_fleet_governor.Common.Text.{
  split_colon, Text, text_le, text_le_total, text_le_trans, text_le_antisymm,
}
use gitlab_fleet_governor.Common.Sort.{sort, sort-perm, sort-map, sort-perm-eq, IsTotalOrder}
use gitlab_fleet_governor.Governance.ProtectedBranches.Rules.{
  AccessDescription, all_same, access_key, access_le, equal_access_descriptions,
}

-- What package fmt promises of the texts of integers.
pub record IsDecimal (decimal : ℤ → Text) : Type 0 where
  pub injective : (i j : ℤ) → decimal i ≡ decimal j → i ≡ j
  pub no_colon : (i : ℤ) → In b':' (decimal i) → ⊥

-- The access level, the user and the group of an entry.
abbrev pub Who : Type 0
Who = ℤ × (ℤ × ℤ)

abbrev pub who : AccessDescription → Who
who d = (d.access_level, (d.user_id, d.group_id))

same-map :
    (as_ bs : List AccessDescription)
    → (nat_beq (length as_) (length bs) && all_same as_ bs ≡ true) ↔ (map who as_ ≡ map who bs)
same-map [] [] = ground arith
same-map [] (b ∷ bs) = ground arith
same-map (a ∷ as_) [] = ground arith
same-map (a ∷ as_) (b ∷ bs) = ground (
  arith,
  same-map as_ bs,
  int_beq_iff a.access_level b.access_level,
  int_beq_iff a.user_id b.user_id,
  int_beq_iff a.group_id b.group_id,
)

-- `access_le` on what it reads of its entries.
abbrev who_key : (ℤ → Text) → Who → Text
who_key decimal p = decimal p.0 ++ (b':' ∷ (decimal p.1.0 ++ (b':' ∷ decimal p.1.1)))

abbrev who_le : (ℤ → Text) → Who → Who → Bool
who_le decimal p q = text_le (who_key decimal p) (who_key decimal q)

who_le-IsTotalOrder : (decimal : ℤ → Text) → IsTotalOrder (who_le decimal)
who_le-IsTotalOrder decimal = record {
  total = λ p q. text_le_total (who_key decimal p) (who_key decimal q);
  le_trans = λ p q r. text_le_trans (who_key decimal p) (who_key decimal q) (who_key decimal r);
}

who_key-injective :
    (decimal : ℤ → Text)
    → IsDecimal decimal
    → (p q : Who) → who_key decimal p ≡ who_key decimal q
    → p ≡ q
who_key-injective decimal d (i, (j, k)) (i', (j', k')) e =
    let (l, e') = split_colon (decimal i) _ (decimal i') _ (d.no_colon i) (d.no_colon i') e in
    let (u, g) = split_colon (decimal j) _ (decimal j') _ (d.no_colon j) (d.no_colon j') e' in
    ground (arith, d.injective i i' l, d.injective j j' u, d.injective k k' g)

sorted_who :
    (decimal : ℤ → Text) (xs : List AccessDescription)
    → sort (who_le decimal) (map who xs) ≡ map who (sort (access_le decimal) xs)
unfolding access_key
sorted_who decimal xs = sort-map (access_le decimal) (who_le decimal) who (λ a b. refl) xs

length-perm : {A : Type 0} {xs ys : List A} → Permᴰ xs ys → length xs ≡ length ys
length-perm Permᴰ.nil = refl
length-perm (Permᴰ.cons e p) = ap suc (length-perm p)
length-perm (Permᴰ.swap e f) = refl
length-perm (Permᴰ.trans p q) = length-perm p ∙ length-perm q

equal-sorted :
    (decimal : ℤ → Text) (a b : List AccessDescription)
    → (equal_access_descriptions decimal a b ≡ true)
      ↔ (sort (who_le decimal) (map who a) ≡ sort (who_le decimal) (map who b))
unfolding equal_access_descriptions
equal-sorted decimal a b =
    rw
      (
        sorted_who decimal a,
        sorted_who decimal b,
        sym (length-perm (sort-perm (access_le decimal) a)),
        sym (length-perm (sort-perm (access_le decimal) b)),
      )
      (same-map (sort (access_le decimal) a) (sort (access_le decimal) b))

-- Two access lists are equal exactly where they have the same access levels, users and groups, each as often, in any
-- order, provided that the texts of integers are all different and without a colon.
pub equal_access_descriptions_iff :
    (decimal : ℤ → Text) (a b : List AccessDescription)
    → IsDecimal decimal
    → (equal_access_descriptions decimal a b ≡ true) ↔ Permᴰ (map who a) (map who b)
equal_access_descriptions_iff decimal a b d =
    let xs : List Who = map who a in
    let ys : List Who = map who b in
    (
      λ e.
          Permᴰ.trans (Permᴰ.symm (sort-perm (who_le decimal) xs))
            (rw ((equal-sorted decimal a b).0 e) (sort-perm (who_le decimal) ys)),
      λ p. (equal-sorted decimal a b).1 (
          sort-perm-eq (who_le-IsTotalOrder decimal) p (λ u v mu mv h k.
            who_key-injective decimal d u v
              (text_le_antisymm (who_key decimal u) (who_key decimal v) h k))),
    )
