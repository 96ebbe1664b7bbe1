-- ===== src/Discovery/Fleet/Accumulated.antt =====
-- What the accumulator of internal/discovery/discovery.go holds after a scan of projects.
use gitlab_fleet_governor.Common.{
  Bool, true, false, Option, some, none, List, [], ◌∷◌, ◌≡◌, inl, inr, refl, arith, Bool-cases, In,
  All, Distinct, keys, lookup, insert, In-keys-insert, insert-Distinct, sym, subst, ap,
}
use gitlab_fleet_governor.Common.Int.{ℤ, int_eq, int_beq, int_beq_iff}
use gitlab_fleet_governor.Resources.{Project, TargetProject}
use gitlab_fleet_governor.Engine.Results.{is_some}
use gitlab_fleet_governor.Discovery.Filter.{ProjectFilter}
use gitlab_fleet_governor.Discovery.Fleet.{
  FleetAccumulator, new_fleet_accumulator, insert_new, target_of_project, filtered_out,
  add_project_if_matches, to_fleet,
}

lookup-In : {V : Type 0} (k : ℤ) (m : List (ℤ × V)) → is_some (lookup k m) ≡ true → In k (keys m)
unfolding lookup
lookup-In k [] h = ground (arith, h)
lookup-In k ((j, v) ∷ m) h = ground (arith, int_beq_iff j k, lookup-In k m, h)

All-insert :
    {V : Type 0} (P : ℤ × V → Type 0) (k : ℤ) (v : V) (m : List (ℤ × V))
    → P (k, v)
    → All P m
    → All P (insert k v m)
unfolding insert
All-insert P k v [] new h = (new, tt)
All-insert P k v ((j, w) ∷ m) new h = elim (Bool-cases (int_beq j k)) [
  | inl same ↦ rw same (new, h.1)
  | inr other ↦ rw other (h.0, All-insert P k v m new h.1)
]

-- A scan: each project with the group it is listed under.
abbrev pub add_all :
    Option ProjectFilter → FleetAccumulator → List (Option Project × ℤ) → FleetAccumulator
add_all filter a [] = a
add_all filter a ((p, parent) ∷ ps) = add_all filter (add_project_if_matches a p filter parent).0 ps

module _ (filter : Option ProjectFilter) (scan : List (Option Project × ℤ)) where
  -- The entry of a scanned project that the filter lets through.
  abbrev pub Scanned : ℤ × TargetProject → Type 0
  Scanned e =
      (p : Project) × (parent : ℤ) × In (some p, parent) scan
      × (filtered_out filter p ≡ false)
      × (e ≡ (p.id, target_of_project p parent))

  abbrev pub Sound : FleetAccumulator → Type 0
  Sound a = Distinct (keys a.projects) × All Scanned a.projects

  insert_new-Sound :
      (p : Project) (parent : ℤ) (m : List (ℤ × TargetProject))
      → In (some p, parent) scan
      → filtered_out filter p ≡ false
      → Distinct (keys m) × All Scanned m
      → Distinct (keys (insert_new p.id (target_of_project p parent) m))
        × All Scanned (insert_new p.id (target_of_project p parent) m)
        × In p.id (keys (insert_new p.id (target_of_project p parent) m))
  unfolding insert_new
  insert_new-Sound p parent m listed passes h = elim (Bool-cases (is_some (lookup p.id m))) [
    | inl old ↦ rw old (h.0, h.1, lookup-In p.id m old)
    | inr new ↦ rw new (
      insert-Distinct p.id (target_of_project p parent) m h.0,
      All-insert Scanned p.id (target_of_project p parent) m (p, parent, listed, passes, refl) h.1,
      (In-keys-insert p.id p.id (target_of_project p parent) m).1 (inl refl),
    )
  ]

  insert_new-keeps :
      (p : Project) (t : TargetProject) (k : ℤ) (m : List (ℤ × TargetProject))
      → In k (keys m)
      → In k (keys (insert_new p.id t m))
  unfolding insert_new
  insert_new-keeps p t k m h = ground (arith, In-keys-insert k p.id t m, h)

  add_project-Sound :
      (a : FleetAccumulator) (p : Option Project) (parent : ℤ)
      → In (p, parent) scan
      → Sound a
      → Sound (add_project_if_matches a p filter parent).0
  unfolding add_project_if_matches
  add_project-Sound a none parent listed h = h
  add_project-Sound a (some p) parent listed h = elim (Bool-cases (filtered_out filter p)) [
    | inl out ↦ rw out h
    | inr passes ↦
        let (distinct, sound, _) = insert_new-Sound p parent a.projects listed passes h in
        rw passes (distinct, sound)
  ]

  add_project-keeps :
      (a : FleetAccumulator) (p : Option Project) (parent k : ℤ)
      → In k (keys a.projects)
      → In k (keys (add_project_if_matches a p filter parent).0.projects)
  unfolding add_project_if_matches
  add_project-keeps a none parent k h = h
  add_project-keeps a (some p) parent k h = elim (Bool-cases (filtered_out filter p)) [
    | inl out ↦ rw out h
    | inr passes ↦ rw passes (insert_new-keeps p (target_of_project p parent) k a.projects h)
  ]

  pub add_all-Sound :
      (ps : List (Option Project × ℤ)) (a : FleetAccumulator)
      → ((e : Option Project × ℤ) → In e ps → In e scan)
      → Sound a
      → Sound (add_all filter a ps)
  add_all-Sound [] a among h = h
  add_all-Sound ((p, parent) ∷ ps) a among h =
      add_all-Sound ps (add_project_if_matches a p filter parent).0 (λ e m. among e (inr m))
        (add_project-Sound a p parent (among (p, parent) (inl refl)) h)

  add_all-keeps :
      (ps : List (Option Project × ℤ)) (a : FleetAccumulator) (k : ℤ)
      → In k (keys a.projects)
      → In k (keys (add_all filter a ps).projects)
  add_all-keeps [] a k h = h
  add_all-keeps ((p, parent) ∷ ps) a k h =
      add_all-keeps ps (add_project_if_matches a p filter parent).0 k
        (add_project-keeps a p parent k h)

  add_project-lists :
      (a : FleetAccumulator) (p : Project) (parent : ℤ)
      → In (some p, parent) scan
      → filtered_out filter p ≡ false
      → Sound a
      → In p.id (keys (add_project_if_matches a (some p) filter parent).0.projects)
  unfolding add_project_if_matches
  add_project-lists a p parent listed passes h =
      rw passes ((insert_new-Sound p parent a.projects listed passes h).2)

  pub add_all-lists :
      (ps : List (Option Project × ℤ)) (a : FleetAccumulator) (p : Project) (parent : ℤ)
      → ((e : Option Project × ℤ) → In e ps → In e scan)
      → Sound a
      → filtered_out filter p ≡ false
      → In (some p, parent) ps
      → In p.id (keys (add_all filter a ps).projects)
  add_all-lists [] a p parent among h passes m = absurd m
  add_all-lists ((q, other) ∷ ps) a p parent among h passes (inl same) =
      let here : (add_project_if_matches a (some p) filter parent
          ≡ add_project_if_matches a q filter other) =
        ap (λ (e : Option Project × ℤ). add_project_if_matches a e.0 filter e.1) same in
      add_all-keeps ps (add_project_if_matches a q filter other).0 p.id (
        subst (λ (r : FleetAccumulator × Bool). In p.id (keys r.0.projects)) here
          (add_project-lists a p parent
            (subst (λ (e : Option Project × ℤ). In e scan) (sym same) (among (q, other) (inl refl)))
            passes h))
  add_all-lists ((q, other) ∷ ps) a p parent among h passes (inr m) =
      add_all-lists ps (add_project_if_matches a q filter other).0 p parent (λ e l. among e (inr l))
        (add_project-Sound a q other (among (q, other) (inl refl)) h) passes m

-- The fleet of a scan has no identifier twice; each of its targets is that of a scanned project that
-- the filter lets through, filed under its identifier.
pub to_fleet-Scanned :
    (filter : Option ProjectFilter) (scan : List (Option Project × ℤ))
    → Distinct (keys (to_fleet (add_all filter new_fleet_accumulator scan)).projects)
      × All (Scanned filter scan) (to_fleet (add_all filter new_fleet_accumulator scan)).projects
unfolding to_fleet new_fleet_accumulator
to_fleet-Scanned filter scan =
    add_all-Sound filter scan scan new_fleet_accumulator (λ e m. m) (tt, tt)

-- Every scanned project that the filter lets through has its identifier in the fleet.
pub to_fleet_complete :
    (filter : Option ProjectFilter) (scan : List (Option Project × ℤ)) (p : Project) (parent : ℤ)
    → In (some p, parent) scan
    → filtered_out filter p ≡ false
    → In p.id (keys (to_fleet (add_all filter new_fleet_accumulator scan)).projects)
unfolding to_fleet new_fleet_accumulator
to_fleet_complete filter scan p parent listed passes =
    add_all-lists filter scan scan new_fleet_accumulator p parent (λ e m. m) (tt, tt) passes listed
