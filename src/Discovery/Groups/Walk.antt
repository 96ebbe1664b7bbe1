-- ===== src/Discovery/Groups/Walk.antt =====
-- The breadth-first walk of grouptree.go: the steps it is made of, and what holds at its end of
-- anything each round preserves.
pub mod Marks
pub mod Reached
pub mod Ending
use gitlab_fleet_governor.Common.{
  ℕ, zero, suc, ◌+◌, Bool, true, false, Option, some, none, List, [], ◌∷◌, ◌++◌, ◌≡◌, ◌⊎◌, inl, inr,
  refl, sym, ◌∙◌, ap, subst, if◌then◌else◌, arith, Bool-cases, Option-cases,
}
use gitlab_fleet_governor.Common.Int.{ℤ}
use gitlab_fleet_governor.Governance.Operation.{Error, Reply-cases}
use gitlab_fleet_governor.Resources.{Group}
use gitlab_fleet_governor.Discovery.Groups.{
  GroupSelectorEvaluator, DiscoveredGroup, QueueItem, Progress, Reply, ok, fail, Outcome, failed,
  out_of_fuel, list_item, expand, expands, offer_children, root_of, round, walk,
}

pub Pending-cases :
    (qs : List QueueItem)
    → (qs ≡ []) ⊎ ((q : QueueItem) × (rest : List QueueItem) × (qs ≡ q ∷ rest))
Pending-cases [] = inl refl
Pending-cases (q ∷ rest) = inr (q, rest, refl)

module _ (subgroups : ℤ → Reply (List (Option Group))) (max_depth : ℕ)
    (e : GroupSelectorEvaluator) where
  -- A round that goes on lists its item, and where the item expands offers what the client answered.
  pub round-ok :
      (s s' : Progress) (item : QueueItem) (rest : List QueueItem)
      → round subgroups max_depth e s item rest ≡ ok s'
      → (s' ≡ list_item e s item rest)
        ⊎ ((children : List (Option Group)) × (expands max_depth e item ≡ true)
            × (subgroups item.group.id ≡ ok children)
            × (s'
                ≡ offer_children
                    (item.depth + 1)
                    (root_of item)
                    (list_item e s item rest)
                    children))
  unfolding round expand
  round-ok s s' item rest h = elim (Bool-cases (expands max_depth e item)) [
    | inr stays ↦ ground (arith, stays, h)
    | inl goes ↦ elim (Reply-cases (subgroups item.group.id)) [
      | inl (children, answer) ↦ ground (arith, goes, answer, h)
      | inr (err, answer) ↦ ground (arith, goes, answer, h)
    ]
  ]

  pub walk-found :
      (P : Progress → Type 0)
      → ((s s' : Progress) (item : QueueItem) (rest : List QueueItem)
          → s.pending ≡ item ∷ rest
          → P s
          → round subgroups max_depth e s item rest ≡ ok s'
          → P s')
      → (canceled : ℕ → Option Error) (fuel n : ℕ) (s : Progress) (ds : List DiscoveredGroup) → P s
      → walk subgroups max_depth e canceled fuel n s ≡ Outcome.found ds
      → (end : Progress) × P end × (end.found ≡ ds)
  unfolding walk
  walk-found P keeps canceled zero n s ds p h = elim (Pending-cases s.pending) [
    | inl done ↦ (s, p, ground (arith, done, h))
    | inr (item, rest, at_head) ↦ absurd (ground (arith, at_head, h))
  ]
  walk-found P keeps canceled (suc fuel) n s ds p h = elim (Pending-cases s.pending) [
    | inl done ↦ (s, p, ground (arith, done, h))
    | inr (item, rest, at_head) ↦ elim (Option-cases (canceled n)) [
      | inr (err, late) ↦ absurd (ground (arith, at_head, late, h))
      | inl goes ↦ elim (Reply-cases (round subgroups max_depth e s item rest)) [
        | inl (s', next) ↦
            walk-found P keeps canceled fuel (n + 1) s' ds (keeps s s' item rest at_head p next)
              (ground (arith, at_head, goes, next, h))
        | inr (err, stops) ↦ absurd (ground (arith, at_head, goes, stops, h))
      ]
    ]
  ]
