-- ===== src/Discovery/Groups/Walk/Ending.antt =====
-- The walk of grouptree.go ends: each group of a finite tree is queued once.
use gitlab_fleet_governor.Common.{
  ℕ, zero, suc, ◌+◌, ◌≤◌, ◌<◌, false, Option, some, none, List, [], ◌∷◌, ◌≡◌, ◌≢◌, inl, inr, refl,
  if◌then◌else◌, arith, Bool-cases, Option-cases, In, contains, length, length-append,
}
use gitlab_fleet_governor.Common.Int.{ℤ, int_eq, int_beq_iff}
use gitlab_fleet_governor.Resources.{Group}
use gitlab_fleet_governor.Governance.Operation.{Error, Reply-cases}
use gitlab_fleet_governor.Discovery.Groups.{
  GroupSelectorEvaluator, QueueItem, Progress, Reply, ok, out_of_fuel, offer, offer_children,
  offer_roots, start, list_item, root_of, round, walk, traverse,
}
use gitlab_fleet_governor.Discovery.Groups.Walk.{Pending-cases, round-ok}

-- How many ids of the list are not marked.
unfoldable missing : List ℤ → List ℤ → ℕ
missing [] visited = 0
missing (u ∷ us) visited =
    if contains u visited then missing us visited else suc (missing us visited)

missing-cons : (us visited : List ℤ) (a : ℤ) → missing us (a ∷ visited) ≤ missing us visited
unfolding missing contains
missing-cons [] visited a = ground arith
missing-cons (u ∷ us) visited a = ground (arith, missing-cons us visited a)

missing-new :
    (us visited : List ℤ) (a : ℤ)
    → In a us
    → contains a visited ≡ false
    → missing us (a ∷ visited) < missing us visited
unfolding missing contains
missing-new [] visited a m new = absurd m
missing-new (u ∷ us) visited a (inl same) new =
    ground (arith, int_beq_iff u a, missing-cons us visited a, same, new)
missing-new (u ∷ us) visited a (inr m) new =
    ground (arith, int_beq_iff u a, missing-cons us visited a, missing-new us visited a m new)

missing-nil : (us : List ℤ) → missing us [] ≡ length us
unfolding missing contains
missing-nil [] = refl
missing-nil (u ∷ us) = ground (arith, missing-nil us)

-- The groups of an answer belong to the tree.
abbrev pub Within : List ℤ → List (Option Group) → Type 0
Within ids gs = (g : Group) → In (some g) gs → In g.id ids

module _ (ids : List ℤ) where
  -- What the walk has still to do.
  abbrev work : Progress → ℕ
  work s = length s.pending + missing ids s.visited

  offer-work :
      (depth : ℕ) (root : ℤ) (s : Progress) (g : Group)
      → In g.id ids
      → work (offer depth root s (some g)) ≤ work s
  unfolding offer
  offer-work depth root s g known = elim (Bool-cases (contains g.id s.visited)) [
    | inl old ↦ rw old (ground arith)
    | inr new ↦
        rw (new, length-append s.pending) (ground (arith, missing-new ids s.visited g.id known new))
  ]

  offer_children-work :
      (depth : ℕ) (root : ℤ) (s : Progress) (gs : List (Option Group))
      → Within ids gs
      → work (offer_children depth root s gs) ≤ work s
  unfolding offer_children offer
  offer_children-work depth root s [] known = ground arith
  offer_children-work depth root s (none ∷ gs) known =
      offer_children-work depth root s gs (λ g m. known g (inr m))
  offer_children-work depth root s (some g ∷ gs) known = omega (
    arith,
    offer_children-work depth root (offer depth root s (some g)) gs (λ g m. known g (inr m)),
    offer-work depth root s g (known g (inl refl)),
  )

  offer_roots-work :
      (s : Progress) (gs : List (Option Group)) → Within ids gs → work (offer_roots s gs) ≤ work s
  unfolding offer_roots
  offer_roots-work s [] known = ground arith
  offer_roots-work s (none ∷ gs) known = offer_roots-work s gs (λ g m. known g (inr m))
  offer_roots-work s (some g ∷ gs) known = omega (
    arith,
    offer_roots-work (offer 0 g.id s (some g)) gs (λ g m. known g (inr m)),
    offer-work 0 g.id s g (known g (inl refl)),
  )

  list_item-work :
      (e : GroupSelectorEvaluator) (s : Progress) (item : QueueItem) (rest : List QueueItem)
      → s.pending ≡ item ∷ rest
      → work (list_item e s item rest) < work s
  unfolding list_item
  list_item-work e s item rest at_head = rw at_head (ground arith)

  module _ (subgroups : ℤ → Reply (List (Option Group))) (max_depth : ℕ)
      (e : GroupSelectorEvaluator)
      (known : (gid : ℤ) (gs : List (Option Group)) → subgroups gid ≡ ok gs → Within ids gs) where
    round-work :
        (s s' : Progress) (item : QueueItem) (rest : List QueueItem)
        → s.pending ≡ item ∷ rest
        → round subgroups max_depth e s item rest ≡ ok s'
        → work s' < work s
    round-work s s' item rest at_head goes =
        let listed = list_item-work e s item rest at_head in
        elim (round-ok subgroups max_depth e s s' item rest goes) [
          | inl same ↦ rw same listed
          | inr (children, _, answer, same) ↦ rw same (
              omega (
                arith,
                listed,
                offer_children-work (item.depth + 1) (root_of item) (list_item e s item rest)
                    children (known item.group.id children answer),
              ))
        ]

    walk-ends :
        (canceled : ℕ → Option Error) (fuel n : ℕ) (s : Progress)
        → work s ≤ fuel
        → walk subgroups max_depth e canceled fuel n s ≢ out_of_fuel
    unfolding walk
    walk-ends canceled zero n s enough stuck = elim (Pending-cases s.pending) [
      | inl done ↦ ground (arith, done, stuck)
      | inr (item, rest, at_head) ↦ ground (arith, at_head, enough)
    ]
    walk-ends canceled (suc fuel) n s enough stuck = elim (Pending-cases s.pending) [
      | inl done ↦ ground (arith, done, stuck)
      | inr (item, rest, at_head) ↦ elim (Option-cases (canceled n)) [
        | inr (err, late) ↦ ground (arith, at_head, late, stuck)
        | inl goes ↦ elim (Reply-cases (round subgroups max_depth e s item rest)) [
          | inl (s', next) ↦
              walk-ends canceled fuel (n + 1) s'
                (omega (arith, enough, round-work s s' item rest at_head next))
                (ground (arith, at_head, goes, next, stuck))
          | inr (err, stops) ↦ ground (arith, at_head, goes, stops, stuck)
        ]
      ]
    ]

    -- Where every root and every subgroup that the client answers has one of the given ids, the walk
    -- needs at most as many rounds as there are ids: with that fuel it does not run out, whatever
    -- cycles the answers make.
    pub traverse-ends :
        (canceled : ℕ → Option Error) (roots : List (Option Group)) (fuel : ℕ)
        → Within ids roots
        → length ids ≤ fuel
        → traverse subgroups max_depth e canceled fuel (ok roots) ≢ out_of_fuel
    unfolding traverse
    traverse-ends canceled roots fuel within enough =
        walk-ends canceled fuel 0 (offer_roots start roots)
          (omega (arith, enough, missing-nil ids, offer_roots-work start roots within))
