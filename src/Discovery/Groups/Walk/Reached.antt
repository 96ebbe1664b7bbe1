-- ===== src/Discovery/Groups/Walk/Reached.antt =====
-- What the walk of grouptree.go lists: groups that a chain of subgroups leads to from a root, none of
-- them excluded, each at the depth and under the root of its chain.
use gitlab_fleet_governor.Common.{
  ℕ, ◌+◌, true, false, Option, some, none, List, [], ◌∷◌, ◌≡◌, inl, inr, refl, Bool-cases, In, All,
  All-append, contains,
}
use gitlab_fleet_governor.Common.Int.{ℤ, int_eq}
use gitlab_fleet_governor.Resources.{Group}
use gitlab_fleet_governor.Governance.Operation.{Error}
use gitlab_fleet_governor.Discovery.Groups.{
  GroupSelectorEvaluator, DiscoveredGroup, QueueItem, Progress, Reply, ok, Outcome, offer,
  offer_children, offer_roots, start, list_item, expands, root_of, round, traverse, excludes_group,
  is_excluded, normalize_group,
}
use gitlab_fleet_governor.Discovery.Groups.Walk.{round-ok, walk-found}

module _ (subgroups : ℤ → Reply (List (Option Group))) (max_depth : ℕ) (e : GroupSelectorEvaluator)
    (roots : List (Option Group)) where
  -- A root, or a subgroup that the client names for a reached group the depth limit lets expand.
  pub data Reached : QueueItem → Type 0 where
    root :
        (g : Group)
        → In (some g) roots
        → Reached (record { group = g; depth = 0; root_parent_id = g.id })
    child :
        (q : QueueItem) (children : List (Option Group)) (c : Group)
        → Reached q
        → expands max_depth e q ≡ true
        → subgroups q.group.id ≡ ok children
        → In (some c) children
        → Reached (record { group = c; depth = q.depth + 1; root_parent_id = root_of q })

  -- A listed group: reached, not excluded, and the record of what the client answered.
  abbrev pub Listed : DiscoveredGroup → Type 0
  Listed d =
      Reached (record { group = d.raw; depth = d.depth; root_parent_id = d.root_parent_id })
      × (excludes_group e d.raw ≡ false)
      × (d ≡ normalize_group d.raw d.depth d.root_parent_id)

  abbrev Sound : Progress → Type 0
  Sound s = All Reached s.pending × All Listed s.found

  offer-Sound :
      (depth : ℕ) (root_id : ℤ) (s : Progress) (g : Group)
      → Reached (record { group = g; depth = depth; root_parent_id = root_id })
      → Sound s
      → Sound (offer depth root_id s (some g))
  unfolding offer
  offer-Sound depth root_id s g r h = elim (Bool-cases (contains g.id s.visited)) [
    | inl old ↦ rw old h
    | inr new ↦ rw new (
      (All-append Reached s.pending
            (record { group = g; depth = depth; root_parent_id = root_id } ∷ [])).1
          (h.0, (r, tt)),
      h.1,
    )
  ]

  offer_children-Sound :
      (q : QueueItem) (children cs : List (Option Group)) (s : Progress)
      → Reached q
      → expands max_depth e q ≡ true
      → subgroups q.group.id ≡ ok children
      → ((c : Group) → In (some c) cs → In (some c) children)
      → Sound s
      → Sound (offer_children (q.depth + 1) (root_of q) s cs)
  unfolding offer_children offer
  offer_children-Sound q children [] s r goes answer among h = h
  offer_children-Sound q children (none ∷ cs) s r goes answer among h =
      offer_children-Sound q children cs s r goes answer (λ c m. among c (inr m)) h
  offer_children-Sound q children (some c ∷ cs) s r goes answer among h =
      offer_children-Sound q children cs (offer (q.depth + 1) (root_of q) s (some c)) r goes answer
        (λ c m. among c (inr m))
        (offer-Sound (q.depth + 1) (root_of q) s c
          (child q children c r goes answer (among c (inl refl))) h)

  offer_roots-Sound :
      (gs : List (Option Group)) (s : Progress)
      → ((g : Group) → In (some g) gs → In (some g) roots)
      → Sound s
      → Sound (offer_roots s gs)
  unfolding offer_roots
  offer_roots-Sound [] s among h = h
  offer_roots-Sound (none ∷ gs) s among h = offer_roots-Sound gs s (λ g m. among g (inr m)) h
  offer_roots-Sound (some g ∷ gs) s among h =
      offer_roots-Sound gs (offer 0 g.id s (some g)) (λ g m. among g (inr m))
        (offer-Sound 0 g.id s g (root g (among g (inl refl))) h)

  list_item-Sound :
      (s : Progress) (item : QueueItem) (rest : List QueueItem)
      → s.pending ≡ item ∷ rest
      → Sound s
      → Reached item × Sound (list_item e s item rest)
  unfolding list_item normalize_group is_excluded
  list_item-Sound s item rest at_head h =
      let (r, more) = rw at_head at h.0 in
      elim (Bool-cases (excludes_group e item.group)) [
        | inl out ↦ rw out (r, (more, h.1))
        | inr listed ↦ rw listed (
          r,
          (
            more,
            (All-append Listed s.found
                  (normalize_group item.group item.depth item.root_parent_id ∷ [])).1
                (h.1, ((r, listed, refl), tt)),
          ),
        )
      ]

  round-Sound :
      (s s' : Progress) (item : QueueItem) (rest : List QueueItem)
      → s.pending ≡ item ∷ rest
      → Sound s
      → round subgroups max_depth e s item rest ≡ ok s'
      → Sound s'
  round-Sound s s' item rest at_head h goes =
      let (r, listed) = list_item-Sound s item rest at_head h in
      elim (round-ok subgroups max_depth e s s' item rest goes) [
        | inl same ↦ rw same listed
        | inr (children, goes, answer, same) ↦ rw same (
            offer_children-Sound item children children (list_item e s item rest) r goes answer
              (λ c m. m) listed)
      ]

  -- Every group that a walk lists, if it ends without error, is a root or is reached from one by
  -- subgroups within the depth limit, is not excluded, and stands at the depth and under the root of
  -- that chain.
  pub traverse-Listed :
      (canceled : ℕ → Option Error) (fuel : ℕ) (ds : List DiscoveredGroup)
      → traverse subgroups max_depth e canceled fuel (ok roots) ≡ Outcome.found ds
      → All Listed ds
  unfolding traverse
  traverse-Listed canceled fuel ds h =
      let (end, sound, same) =
        walk-found subgroups max_depth e Sound round-Sound canceled fuel 0 (offer_roots start roots)
          ds (offer_roots-Sound roots start (λ g m. m) (tt, tt)) h in
      rw (← same) sound.1
