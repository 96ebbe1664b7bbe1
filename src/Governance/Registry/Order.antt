-- ===== src/Governance/Registry/Order.antt =====
-- The registry as a map from names, and the order in which registry.go runs its operations.
use gitlab_fleet_governor.Common.{
  Bool, true, some, List, [], ◌∷◌, ◌≡◌, ◌⊎◌, inl, inr, refl, sym, ◌∙◌, ap, arith, not,
  if◌then◌else◌, In, All, Distinct, lookup, insert, keys, values, lookup-insert, insert-Distinct,
  ◌==◌, Bool-cases, subst,
}
use mathlib.Core.List.{Permᴰ}
use gitlab_fleet_governor.Common.Int.{
  ℤ, int_beq_iff, ltb_ℤ, int_eq, ltb_ℤ_trans, ltb_ℤ_total, ltb_ℤ_asymm,
}
use gitlab_fleet_governor.Common.Text.{
  Text, text_beq, text_beq_iff, text_eq, text_le, text_le_total, text_le_trans, text_le_antisymm,
}
use gitlab_fleet_governor.Common.Sort.{
  sort-perm, IsSorted, IsTotalOrder, sort-IsSorted, sort_unique, Tells,
}
use gitlab_fleet_governor.Governance.Operation.{Operation}
use gitlab_fleet_governor.Governance.Registry.{
  OperationsRegistry, register, get, op_le, ordered_operations,
}

-- `op_le` on what it reads of its operations.
key_le : ℤ → Text → ℤ → Text → Bool
key_le i s j t = not (if j == i then not (text_le s t) else ltb_ℤ j i)

key_le_total : (i j : ℤ) (s t : Text) → (key_le i s j t ≡ true) ⊎ (key_le j t i s ≡ true)
unfolding key_le
key_le_total i j s t =
    ground
      (arith, text_le_total s t, int_beq_iff i j, int_beq_iff j i, ltb_ℤ_asymm i j, ltb_ℤ_total i j)

key_le_trans :
    (i j k : ℤ) (s t u : Text)
    → key_le i s j t ≡ true
    → key_le j t k u ≡ true
    → key_le i s k u ≡ true
unfolding key_le
key_le_trans i j k s t u p q = ground (
  arith,
  text_le_trans s t u,
  int_beq_iff j i,
  int_beq_iff k j,
  int_beq_iff k i,
  ltb_ℤ_asymm i j,
  ltb_ℤ_asymm j k,
  ltb_ℤ_asymm i k,
  ltb_ℤ_total i j,
  ltb_ℤ_total j k,
  ltb_ℤ_total i k,
  ltb_ℤ_trans k j i,
  ltb_ℤ_trans j k i,
  ltb_ℤ_trans k i j,
)

key_le_antisymm : (i j : ℤ) (s t : Text) → key_le i s j t ≡ true → key_le j t i s ≡ true → s ≡ t
unfolding key_le
key_le_antisymm i j s t p q = ground (
  arith,
  text_le_antisymm s t,
  int_beq_iff i j,
  int_beq_iff j i,
  ltb_ℤ_asymm i j,
  ltb_ℤ_total i j,
)

module _ {Config World : Type 0} where
  -- Each operation is filed under its own name, and no name twice.
  pub record IsRegistry (r : OperationsRegistry Config World) : Type 0 where
    pub distinct : Distinct (keys r)
    pub named : All (λ e. e.0 ≡ e.1.name) r

  insert-named :
      (op : Operation Config World) (r : OperationsRegistry Config World)
      → All (λ e. e.0 ≡ e.1.name) r
      → All (λ e. e.0 ≡ e.1.name) (insert op.name op r)
  unfolding insert
  insert-named op [] h = (refl, tt)
  insert-named op ((k, v) ∷ r) h = ground (arith, insert-named op r h.1)

  -- Registering keeps the registry well formed; afterwards the name leads to the new operation, and
  -- every other name to what it led to before.
  pub register-IsRegistry :
      (r : OperationsRegistry Config World) (op : Operation Config World) (name : Text)
      → IsRegistry r
      → IsRegistry (register r op)
        × (get (register r op) name ≡ (if op.name == name then some op else get r name))
  unfolding register get
  register-IsRegistry r op name h = (
    record {
      distinct = insert-Distinct op.name op r h.distinct;
      named = insert-named op r h.named;
    },
    lookup-insert op.name name op r,
  )

  op_le_total : (a b : Operation Config World) → (op_le a b ≡ true) ⊎ (op_le b a ≡ true)
  unfolding key_le
  op_le_total a b = key_le_total a.order b.order a.name b.name

  op_le_trans :
      (a b c : Operation Config World) → op_le a b ≡ true → op_le b c ≡ true → op_le a c ≡ true
  unfolding key_le
  op_le_trans a b c h k = key_le_trans a.order b.order c.order a.name b.name c.name h k

  op_le-IsTotalOrder : IsTotalOrder (op_le {Config = Config} {World = World})
  op_le-IsTotalOrder = record { total = op_le_total; le_trans = op_le_trans }

  In-keys :
      (r : OperationsRegistry Config World) (op : Operation Config World)
      → All (λ e. e.0 ≡ e.1.name) r
      → In op (values r)
      → In op.name (keys r)
  In-keys [] op h m = m
  In-keys ((k, v) ∷ r) op h (inl e) = inl (ap (λ (o : Operation Config World). o.name) e ∙ sym h.0)
  In-keys ((k, v) ∷ r) op h (inr m) = inr (In-keys r op h.1 m)

  lookup-name :
      (r : OperationsRegistry Config World) (op : Operation Config World)
      → IsRegistry r
      → In op (values r)
      → lookup op.name r ≡ some op
  unfolding lookup
  lookup-name [] op h m = absurd m
  lookup-name ((k, v) ∷ r) op h (inl e) =
      let n : k ≡ op.name = h.named.0 ∙ sym (ap (λ (o : Operation Config World). o.name) e) in
      ground (arith, text_beq_iff k op.name)
  lookup-name ((k, v) ∷ r) op h (inr m) = elim (Bool-cases (text_beq k op.name)) [
    | inl e ↦ absurd (
        h.distinct.0 (
          subst (λ x. In x (keys r)) (sym ((text_beq_iff k op.name).0 e))
            (In-keys r op h.named.1 m)))
    | inr e ↦ rw e (lookup-name r op (record { distinct = h.distinct.1; named = h.named.1 }) m)
  ]

  op_le_antisymm :
      (a b : Operation Config World) → op_le a b ≡ true → op_le b a ≡ true → a.name ≡ b.name
  unfolding key_le
  op_le_antisymm a b h k = key_le_antisymm a.order b.order a.name b.name h k

  values-Tells :
      (r : OperationsRegistry Config World) → IsRegistry r → Tells op_le-IsTotalOrder (values r)
  values-Tells r h a b ma mb p q =
      ground (arith, lookup-name r a h ma, lookup-name r b h mb, op_le_antisymm a b p q)

  -- `OrderedOperations` lists the registered operations, each once, by order and then by name.
  pub ordered_operations-IsSorted :
      (r : OperationsRegistry Config World)
      → Permᴰ (ordered_operations r) (values r) × IsSorted op_le (ordered_operations r)
  unfolding ordered_operations
  ordered_operations-IsSorted r =
      (sort-perm op_le (values r), sort-IsSorted op_le-IsTotalOrder (values r))

  -- The list does not depend on the order in which Go ranges over the map, nor on how the sort treats
  -- ties: any arrangement of the registered operations that respects the comparison is that list.
  pub ordered_operations_unique :
      (r : OperationsRegistry Config World) (ops : List (Operation Config World))
      → IsRegistry r
      → Permᴰ ops (values r)
      → IsSorted op_le ops
      → ops ≡ ordered_operations r
  unfolding ordered_operations
  ordered_operations_unique r ops h p s =
      sort_unique op_le-IsTotalOrder (values r) ops p s (values-Tells r h)
