-- ===== src/Discovery/Coordinator/Streams.antt =====
-- internal/discovery/discovery.go: the scans of the streams of projects as one scan.
use gitlab_fleet_governor.Common.{
  ℕ, ◌+◌, Option, some, none, List, [], ◌∷◌, ◌++◌, ◌≡◌, ◌↔◌, inl, inr, refl, sym, ap, ◌∙◌, arith,
  In, In-append, subst, Option-cases,
}
use gitlab_fleet_governor.Common.Int.{ℤ, int_eq}
use gitlab_fleet_governor.Common.Text.{codes}
use gitlab_fleet_governor.Resources.{Project}
use gitlab_fleet_governor.Governance.Operation.{Error, wrapped}
use gitlab_fleet_governor.Gitlab.Pagination.{value, err}
use gitlab_fleet_governor.Discovery.Filter.{ProjectFilter}
use gitlab_fleet_governor.Discovery.Groups.{DiscoveredGroup}
use gitlab_fleet_governor.Discovery.Fleet.{FleetAccumulator, add_project_if_matches}
use gitlab_fleet_governor.Discovery.Fleet.Accumulated.{add_all}
use gitlab_fleet_governor.Discovery.Coordinator.{
  Stream, scan_stream, first_error, scan_group_projects, add_discovered_group,
  add_discovered_groups,
}

-- The scan that a stream amounts to, up to its first error.
sent : ℤ → Stream → List (Option Project × ℤ)
sent parent [] = []
sent parent (err e ∷ items) = []
sent parent (value p ∷ items) = (p, parent) ∷ sent parent items

scan_stream-sent :
    (filter : ProjectFilter) (parent : ℤ) (a : FleetAccumulator) (items : Stream)
    → (scan_stream filter parent a items).0 ≡ add_all (some filter) a (sent parent items)
unfolding scan_stream sent
scan_stream-sent filter parent a [] = refl
scan_stream-sent filter parent a (err e ∷ items) = refl
scan_stream-sent filter parent a (value p ∷ items) =
    scan_stream-sent filter parent (add_project_if_matches a p (some filter) parent).0 items

-- A stream that is scanned without an error was scanned to its end.
In-sent :
    (filter : ProjectFilter) (parent : ℤ) (a : FleetAccumulator) (items : Stream) (p : Project)
    (at : ℤ)
    → (scan_stream filter parent a items).1 ≡ none
    → In (some p, at) (sent parent items) ↔ ((at ≡ parent) × In (value (some p)) items)
unfolding scan_stream sent
In-sent filter parent a [] p at h = ground arith
In-sent filter parent a (err e ∷ items) p at h = absurd (cc)
In-sent filter parent a (value q ∷ items) p at h =
    ground (
      arith,
      In-sent filter parent (add_project_if_matches a q (some filter) parent).0 items p at h,
    )

add_all-append :
    (filter : Option ProjectFilter) (a : FleetAccumulator) (xs ys : List (Option Project × ℤ))
    → add_all filter a (xs ++ ys) ≡ add_all filter (add_all filter a xs) ys
add_all-append filter a [] ys = refl
add_all-append filter a ((p, parent) ∷ xs) ys =
    add_all-append filter (add_project_if_matches a p filter parent).0 xs ys

pub add_discovered_groups-projects :
    (a : FleetAccumulator) (gs : List DiscoveredGroup)
    → (add_discovered_groups a gs).projects ≡ a.projects
unfolding add_discovered_groups add_discovered_group
add_discovered_groups-projects a [] = refl
add_discovered_groups-projects a (g ∷ gs) =
    add_discovered_groups-projects (add_discovered_group a (some g)) gs

module _ (group_stream : ℤ → Stream) (instance_stream : Stream) (canceled : ℕ → Option Error)
    (filter : ProjectFilter) where
  abbrev pub scan_groups :
      ℕ → Option Error → FleetAccumulator → List DiscoveredGroup → FleetAccumulator × Option Error
  scan_groups = scan_group_projects group_stream instance_stream canceled filter

  -- The streams of the groups, one after the other.
  pub all_sent : List DiscoveredGroup → List (Option Project × ℤ)
  all_sent [] = []
  all_sent (g ∷ gs) = sent g.id (group_stream g.id) ++ all_sent gs

  -- `p` was sent on the stream of one of the groups.
  abbrev pub SentBy : List DiscoveredGroup → Project → ℤ → Type 0
  SentBy gs p at =
      (g : DiscoveredGroup) × In g gs × (at ≡ g.id) × In (value (some p)) (group_stream g.id)

  abbrev pub Scans : ℕ → Option Error → FleetAccumulator → List DiscoveredGroup → Type 0
  Scans n failure a gs =
      (failure ≡ none)
      × ((scan_groups n failure a gs).0 ≡ add_all (some filter) a (all_sent gs))
      × ((p : Project) (at : ℤ) → In (some p, at) (all_sent gs) ↔ SentBy gs p at)

  SentBy-cons :
      (g : DiscoveredGroup) (gs : List DiscoveredGroup) (first : List (Option Project × ℤ))
      (p : Project) (at : ℤ)
      → In (some p, at) first ↔ ((at ≡ g.id) × In (value (some p)) (group_stream g.id))
      → In (some p, at) (all_sent gs) ↔ SentBy gs p at
      → In (some p, at) (first ++ all_sent gs) ↔ SentBy (g ∷ gs) p at
  SentBy-cons g gs first p at here there = (
    λ m. elim ((In-append (some p, at) first (all_sent gs)).0 m) [
      | inl k ↦ let (e, l) = here.0 k in (g, inl refl, e, l)
      | inr k ↦ let (x, k', e, l) = there.0 k in (x, inr k', e, l)
    ],
    λ m.
        let (x, k, e, l) = m in
        (In-append (some p, at) first (all_sent gs)).1 (elim k [
          | inl same ↦ inl (
              here.1 (
                e ∙ ap (λ (y : DiscoveredGroup). y.id) same,
                subst (λ (y : DiscoveredGroup). In (value (some p)) (group_stream y.id)) same l,
              ))
          | inr k' ↦ inr (there.1 (x, k', e, l))
        ]),
  )

  failure_of : Option Error → Option Error → Option Error
  failure_of failure e = first_error failure (elim e [
    | none ↦ none
    | some cause ↦ some (wrapped (codes "failed to stream projects for group") cause)
  ])

  failure_of-none :
      (failure e : Option Error) → failure_of failure e ≡ none → (failure ≡ none) × (e ≡ none)
  unfolding failure_of
  failure_of-none failure e h = ground arith

  scan_groups_go :
      (n : ℕ) (failure : Option Error) (a : FleetAccumulator) (g : DiscoveredGroup)
      (gs : List DiscoveredGroup)
      → canceled n ≡ none
      → scan_groups n failure a (g ∷ gs)
        ≡ scan_groups
            (n + 1)
            (failure_of failure (scan_stream filter g.id a (group_stream g.id)).1)
            (scan_stream filter g.id a (group_stream g.id)).0
            gs
  unfolding scan_group_projects failure_of
  scan_groups_go n failure a g gs c = rw (c, scan_group_projects) refl

  scan_groups_stop :
      (n : ℕ) (failure : Option Error) (a : FleetAccumulator) (g : DiscoveredGroup)
      (gs : List DiscoveredGroup) (e : Error)
      → canceled n ≡ some e
      → scan_groups n failure a (g ∷ gs) ≡ (a, some e)
  unfolding scan_group_projects
  scan_groups_stop n failure a g gs e c = rw (c, scan_group_projects) refl

  pub scan_groups-Scans :
      (n : ℕ) (failure : Option Error) (a : FleetAccumulator) (gs : List DiscoveredGroup)
      → (scan_groups n failure a gs).1 ≡ none
      → Scans n failure a gs
  unfolding all_sent
  scan_groups-Scans n failure a [] h = unfold scan_group_projects in (h, refl, λ p at. ground arith)
  scan_groups-Scans n failure a (g ∷ gs) h = elim (Option-cases (canceled n)) [
    | inr (e, c) ↦ absurd (let stop = scan_groups_stop n failure a g gs e c in cc)
    | inl c ↦
        let go = scan_groups_go n failure a g gs c in
        let a' : FleetAccumulator = (scan_stream filter g.id a (group_stream g.id)).0 in
        let e : Option Error = (scan_stream filter g.id a (group_stream g.id)).1 in
        let (failed, scanned, listed) =
          scan_groups-Scans (n + 1) (failure_of failure e) a' gs
            (sym (ap (λ (r : FleetAccumulator × Option Error). r.1) go) ∙ h) in
        let (before, ended) = failure_of-none failure e failed in
        (
          before,
          ap (λ (r : FleetAccumulator × Option Error). r.0) go
              ∙ scanned
              ∙ ap (λ b. add_all (some filter) b (all_sent gs))
                  (scan_stream-sent filter g.id a (group_stream g.id))
              ∙ sym (add_all-append (some filter) a (sent g.id (group_stream g.id)) (all_sent gs)),
          λ p at.
              SentBy-cons g gs _ p at (In-sent filter g.id a (group_stream g.id) p at ended)
                (listed p at),
        )
  ]
