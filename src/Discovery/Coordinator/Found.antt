-- ===== src/Discovery/Coordinator/Found.antt =====
-- internal/discovery/discovery.go: which projects a discovery by groups puts into the fleet.
use gitlab_fleet_governor.Common.{
  ℕ, true, Option, some, none, List, [], ◌∷◌, ◌≡◌, ◌↔◌, inl, inr, refl, sym, ap, ◌∙◌, arith, In,
  All, keys, subst,
}
use gitlab_fleet_governor.Common.Int.{ℤ, int_eq}
use gitlab_fleet_governor.Common.Text.{Text}
use gitlab_fleet_governor.Resources.{Project, TargetProject, TargetFleet}
use gitlab_fleet_governor.Governance.Operation.{Error, ok}
use gitlab_fleet_governor.Gitlab.Pagination.{value}
use gitlab_fleet_governor.Discovery.Filter.{
  ProjectFilter, Regexp, FilterError, built, new_project_filter, matches,
}
use gitlab_fleet_governor.Discovery.Groups.{GroupSelector, DiscoveredGroup, Outcome, found}
use gitlab_fleet_governor.Discovery.Fleet.{FleetAccumulator, new_fleet_accumulator, to_fleet}
use gitlab_fleet_governor.Discovery.Fleet.Accumulated.{
  add_all, Scanned, Sound, add_all-Sound, add_all-lists,
}
use gitlab_fleet_governor.Discovery.Coordinator.Streams.{
  all_sent, add_discovered_groups-projects, scan_groups-Scans,
}
use gitlab_fleet_governor.Discovery.Coordinator.{
  TargetSelectors, Stream, scan_group_projects, add_discovered_groups, fleet_or_error,
  discover_fleet,
}

fleet_or_error-ok :
    (r : FleetAccumulator × Option Error) (fleet : TargetFleet)
    → fleet_or_error r ≡ ok fleet
    → (r.1 ≡ none) × (fleet ≡ to_fleet r.0)
fleet_or_error-ok (a, none) fleet h = (refl, cc)
fleet_or_error-ok (a, some e) fleet h = absurd (cc)

keys-entry :
    {V : Type 0} (P : ℤ × V → Type 0) (k : ℤ) (m : List (ℤ × V))
    → All P m
    → In k (keys m)
    → (e : ℤ × V) × (k ≡ e.0) × P e
keys-entry P k [] h m = absurd m
keys-entry P k ((j, v) ∷ rest) h (inl same) = ((j, v), same, h.0)
keys-entry P k ((j, v) ∷ rest) h (inr m) = keys-entry P k rest h.1 m

-- What an accumulator without projects holds after a scan.
module _ (filter : ProjectFilter) (scan : List (Option Project × ℤ)) (a : FleetAccumulator)
    (empty : a.projects ≡ []) where
  start-Sound : Sound (some filter) scan a
  start-Sound = rw empty (tt, tt)

  scanned_iff :
      (k : ℤ)
      → In k (keys (add_all (some filter) a scan).projects) ↔ (
          (p : Project) × (at : ℤ) × In (some p, at) scan
          × (matches (some filter) (some p) ≡ true)
          × (p.id ≡ k))
  scanned_iff k = (
    λ m.
        let sound = add_all-Sound (some filter) scan scan a (λ e l. l) start-Sound in
        let (entry, same, sc) = keys-entry (Scanned (some filter) scan) k _ sound.1 m in
        let (p, at, listed, passes, e) = sc in
        (p, at, listed, ground (arith, passes), sym (same ∙ ap (λ (x : ℤ × TargetProject). x.0) e)),
    λ m.
        let (p, at, listed, passes, e) = m in
        subst (λ (j : ℤ). In j (keys (add_all (some filter) a scan).projects)) e
          (add_all-lists (some filter) scan scan a p at (λ e l. l) start-Sound
            (ground (arith, passes)) listed),
  )

discover_fleet_groups :
    (group_stream : ℤ → Stream) (instance_stream : Stream) (canceled : ℕ → Option Error)
    (compile : Text → Option Regexp) (bad_filter : FilterError → Error)
    (traversed : GroupSelector → Outcome) (targets : TargetSelectors) (sel : GroupSelector)
    (groups : List DiscoveredGroup) (filter : ProjectFilter) (fleet : TargetFleet)
    → new_project_filter compile targets.project_selector ≡ built filter
    → targets.group_selector ≡ some sel
    → traversed sel ≡ found groups
    → discover_fleet group_stream instance_stream canceled compile bad_filter traversed targets
      ≡ some (ok fleet)
    → fleet_or_error (
        scan_group_projects group_stream instance_stream canceled filter 0 none
          (add_discovered_groups new_fleet_accumulator groups)
          groups)
      ≡ ok fleet
unfolding discover_fleet
discover_fleet_groups group_stream instance_stream canceled compile bad_filter traversed targets sel
      groups filter fleet b s t d =
    ground (arith, b, s, t, d)

-- Where the fleet is discovered by groups without an error, an identifier is that of one of its
-- projects exactly when a project with it was sent on the stream of a group that the traversal found
-- and passes the filter of the selector.
pub discover_fleet_iff :
    (group_stream : ℤ → Stream) (instance_stream : Stream) (canceled : ℕ → Option Error)
    (compile : Text → Option Regexp) (bad_filter : FilterError → Error)
    (traversed : GroupSelector → Outcome) (targets : TargetSelectors) (sel : GroupSelector)
    (groups : List DiscoveredGroup) (filter : ProjectFilter) (fleet : TargetFleet) (k : ℤ)
    → new_project_filter compile targets.project_selector ≡ built filter
    → targets.group_selector ≡ some sel
    → traversed sel ≡ found groups
    → discover_fleet group_stream instance_stream canceled compile bad_filter traversed targets
      ≡ some (ok fleet)
    → In k (keys fleet.projects) ↔ (
        (p : Project) × (g : DiscoveredGroup) × In g groups
        × In (value (some p)) (group_stream g.id)
        × (matches (some filter) (some p) ≡ true)
        × (p.id ≡ k))
discover_fleet_iff group_stream instance_stream canceled compile bad_filter traversed targets sel
      groups filter fleet k b s t d =
    let start : FleetAccumulator = add_discovered_groups new_fleet_accumulator groups in
    let scanned =
      scan_group_projects group_stream instance_stream canceled filter 0 none start groups in
    let (ended, e) = fleet_or_error-ok scanned fleet (
      discover_fleet_groups group_stream instance_stream canceled compile bad_filter traversed
        targets sel groups filter fleet b s t d) in
    let (_, filled, listed) =
      scan_groups-Scans group_stream instance_stream canceled filter 0 none start groups ended in
    let known =
      scanned_iff filter (all_sent group_stream instance_stream canceled filter groups) start
        (add_discovered_groups-projects new_fleet_accumulator groups
          ∙ unfold new_fleet_accumulator in refl)
        k in
    let same : keys fleet.projects
        ≡ keys
            (add_all (some filter) start
              (all_sent group_stream instance_stream canceled filter groups)).projects =
      ap (λ (f : TargetFleet). keys f.projects) e
      ∙ unfold to_fleet in ap (λ (x : FleetAccumulator). keys x.projects) filled in
    rw same (
      λ m.
          let (p, at, l, passes, id) = known.0 m in
          let (g, among, _, sent_by) = (listed p at).0 l in (p, g, among, sent_by, passes, id),
      λ m.
          let (p, g, among, sent_by, passes, id) = m in
          known.1 (p, g.id, (listed p g.id).1 (g, among, refl, sent_by), passes, id),
    )
