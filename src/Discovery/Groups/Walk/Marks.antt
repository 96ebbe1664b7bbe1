-- ===== src/Discovery/Groups/Walk/Marks.antt =====
-- The walk of grouptree.go lists no group twice: what it listed and what it queued is marked.
use mathlib.Core.List.{append_assoc}
use gitlab_fleet_governor.Common.{
  ℕ, ◌+◌, false, Option, some, none, List, [], ◌∷◌, ◌++◌, ◌≡◌, inl, inr, refl, ap, arith,
  Bool-cases, In, In-append, Distinct, Distinct-snoc, Distinct-remove, Distinct-left, contains,
  contains_iff,
}
use gitlab_fleet_governor.Common.Int.{ℤ, int_eq}
use gitlab_fleet_governor.Resources.{Group}
use gitlab_fleet_governor.Governance.Operation.{Error}
use gitlab_fleet_governor.Discovery.Groups.{
  GroupSelectorEvaluator, DiscoveredGroup, QueueItem, Progress, Reply, ok, Outcome, offer,
  offer_children, offer_roots, start, list_item, root_of, round, traverse, is_excluded,
  normalize_group,
}
use gitlab_fleet_governor.Discovery.Groups.Walk.{round-ok, walk-found}

abbrev pub found_ids : List DiscoveredGroup → List ℤ
found_ids [] = []
found_ids (d ∷ ds) = d.id ∷ found_ids ds

abbrev pub queued_ids : List QueueItem → List ℤ
queued_ids [] = []
queued_ids (q ∷ qs) = q.group.id ∷ queued_ids qs

pub queued_ids-snoc :
    (qs : List QueueItem) (q : QueueItem)
    → queued_ids (qs ++ q ∷ []) ≡ queued_ids qs ++ q.group.id ∷ []
queued_ids-snoc [] q = refl
queued_ids-snoc (x ∷ qs) q = ap (◌∷◌ x.group.id) (queued_ids-snoc qs q)

found_ids-snoc :
    (ds : List DiscoveredGroup) (d : DiscoveredGroup)
    → found_ids (ds ++ d ∷ []) ≡ found_ids ds ++ d.id ∷ []
found_ids-snoc [] d = refl
found_ids-snoc (x ∷ ds) d = ap (◌∷◌ x.id) (found_ids-snoc ds d)

-- The groups listed and queued so far are different, and all of them are marked.
abbrev Marks : Progress → Type 0
Marks s =
    Distinct (found_ids s.found ++ queued_ids s.pending)
    × ((x : ℤ) → In x (found_ids s.found ++ queued_ids s.pending) → In x s.visited)

snoc-Marks :
    (fs qs visited : List ℤ) (a : ℤ)
    → Distinct (fs ++ qs)
    → ((x : ℤ) → In x (fs ++ qs) → In x visited)
    → contains a visited ≡ false
    → Distinct (fs ++ (qs ++ a ∷ [])) × ((x : ℤ) → In x (fs ++ (qs ++ a ∷ [])) → In x (a ∷ visited))
snoc-Marks fs qs visited a d h new =
    let fresh : (¬ In a (fs ++ qs)) = λ m. ground (arith, contains_iff a visited, h a m) in
    rw (← append_assoc fs qs (a ∷ [])) (
      Distinct-snoc (fs ++ qs) a d fresh,
      λ x m. ground (arith, (In-append x (fs ++ qs) (a ∷ [])).0 m, h x),
    )

offer-Marks :
    (depth : ℕ) (root : ℤ) (s : Progress) (g : Option Group)
    → Marks s
    → Marks (offer depth root s g)
unfolding offer
offer-Marks depth root s none h = h
offer-Marks depth root s (some g) h = elim (Bool-cases (contains g.id s.visited)) [
  | inl old ↦ rw old h
  | inr new ↦
      rw
        (
          new,
          queued_ids-snoc s.pending (record { group = g; depth = depth; root_parent_id = root }),
        )
        (snoc-Marks (found_ids s.found) (queued_ids s.pending) s.visited g.id h.0 h.1 new)
]

offer_children-Marks :
    (depth : ℕ) (root : ℤ) (gs : List (Option Group)) (s : Progress)
    → Marks s
    → Marks (offer_children depth root s gs)
unfolding offer_children
offer_children-Marks depth root [] s h = h
offer_children-Marks depth root (g ∷ gs) s h =
    offer_children-Marks depth root gs (offer depth root s g) (offer-Marks depth root s g h)

offer_roots-Marks : (gs : List (Option Group)) (s : Progress) → Marks s → Marks (offer_roots s gs)
unfolding offer_roots
offer_roots-Marks [] s h = h
offer_roots-Marks (none ∷ gs) s h = offer_roots-Marks gs s h
offer_roots-Marks (some g ∷ gs) s h =
    offer_roots-Marks gs (offer 0 g.id s (some g)) (offer-Marks 0 g.id s (some g) h)

list_item-Marks :
    (e : GroupSelectorEvaluator) (s : Progress) (item : QueueItem) (rest : List QueueItem)
    → s.pending ≡ item ∷ rest
    → Marks s
    → Marks (list_item e s item rest)
unfolding list_item normalize_group
list_item-Marks e s item rest at_head h =
    let h' = rw at_head at h in
    elim (Bool-cases (is_excluded e (some item.group))) [
      | inl out ↦ rw out (
        Distinct-remove (found_ids s.found) (queued_ids rest) item.group.id h'.0,
        λ x m. h'.1 x (
            ground (
              arith,
              In-append x (found_ids s.found) (queued_ids rest),
              In-append x (found_ids s.found) (item.group.id ∷ queued_ids rest),
              m,
            )),
      )
      | inr listed ↦
          rw
            (
              listed,
              found_ids-snoc s.found (normalize_group item.group item.depth item.root_parent_id),
              append_assoc (found_ids s.found) (item.group.id ∷ []) (queued_ids rest),
            )
            h'
    ]

module _ (subgroups : ℤ → Reply (List (Option Group))) (max_depth : ℕ)
    (e : GroupSelectorEvaluator) where
  round-Marks :
      (s s' : Progress) (item : QueueItem) (rest : List QueueItem)
      → s.pending ≡ item ∷ rest
      → Marks s
      → round subgroups max_depth e s item rest ≡ ok s'
      → Marks s'
  round-Marks s s' item rest at_head h goes =
      elim (round-ok subgroups max_depth e s s' item rest goes) [
        | inl same ↦ rw same (list_item-Marks e s item rest at_head h)
        | inr (children, _, _, same) ↦ rw same (
            offer_children-Marks (item.depth + 1) (root_of item) children (list_item e s item rest)
              (list_item-Marks e s item rest at_head h))
      ]

  -- A walk that ends without error lists no group twice.
  pub traverse-Distinct :
      (canceled : ℕ → Option Error) (fuel : ℕ) (roots : List (Option Group))
      (ds : List DiscoveredGroup)
      → traverse subgroups max_depth e canceled fuel (ok roots) ≡ Outcome.found ds
      → Distinct (found_ids ds)
  unfolding traverse
  traverse-Distinct canceled fuel roots ds h =
      let (end, marked, same) =
        walk-found subgroups max_depth e Marks round-Marks canceled fuel 0 (offer_roots start roots)
          ds (offer_roots-Marks roots start (tt, λ x m. m)) h in
      rw (← same) (Distinct-left (found_ids end.found) (queued_ids end.pending) marked.0)
