-- ===== src/Governance/Registry/Run.antt =====
-- The loops of registry.go over the ordered operations: their rounds, and a list in two parts.
use gitlab_fleet_governor.Common.{
  Option, some, none, List, [], ◌∷◌, ◌++◌, ◌≡◌, inl, inr, refl, ◌∙◌, ap, Option-cases,
}
use mathlib.Core.Path.{fun_ext}
use gitlab_fleet_governor.Governance.Operation.{Operation, Error}
use gitlab_fleet_governor.Governance.Registry.{settle, run_operations}

module _ {Config World R : Type 0} (done : World → Option Error)
    (call : Operation Config World → World → (Option R × Option Error) × World)
    (fallback : Operation Config World → Error → R)
    (wrap : Operation Config World → Error → Error) where
  abbrev pub run : List (Operation Config World) → World → (List R × Option Error) × World
  run = run_operations done call fallback wrap

  -- The first part's results stand before those of the second part, which starts in the world that
  -- the first part left.
  abbrev pub after_first :
      (List R × Option Error) × World
      → (World → (List R × Option Error) × World)
      → (List R × Option Error) × World
  after_first r later = elim r.0.1 [
    | some e ↦ r
    | none ↦ ((r.0.0 ++ (later r.1).0.0, (later r.1).0.1), (later r.1).1)
  ]

  settle-after_first :
      (op : Operation Config World) (c : (Option R × Option Error) × World)
      (f g : World → (List R × Option Error) × World)
      → settle (fallback op) (wrap op) c (λ w. after_first (f w) g)
        ≡ after_first (settle (fallback op) (wrap op) c f) g
  unfolding settle
  settle-after_first op ((some r, some e), w) f g = refl
  settle-after_first op ((none, some e), w) f g = refl
  settle-after_first op ((some r, none), w) f g = elim (Option-cases (f w).0.1) [
    | inl n ↦ rw n
    | inr (e, s) ↦ rw s
  ]
  settle-after_first op ((none, none), w) f g = refl

  pub run_operations-go :
      (op : Operation Config World) (ops : List (Operation Config World)) (w : World)
      → done w ≡ none
      → run (op ∷ ops) w ≡ settle (fallback op) (wrap op) (call op w) (run ops)
  unfolding run_operations
  run_operations-go op ops w n = rw (n, run_operations)

  pub run_operations-stop :
      (op : Operation Config World) (ops : List (Operation Config World)) (w : World) (e : Error)
      → done w ≡ some e
      → run (op ∷ ops) w ≡ (([], some e), w)
  unfolding run_operations
  run_operations-stop op ops w e s = rw (s, run_operations)

  pub run_operations-nil : (w : World) → run [] w ≡ (([], none), w)
  unfolding run_operations
  run_operations-nil w = refl

  -- The loop runs its operations one after the other: over a list in two parts it runs the first
  -- part, and the second part only if the first ended without error.
  pub run_operations-append :
      (xs ys : List (Operation Config World)) (w : World)
      → run_operations done call fallback wrap (xs ++ ys) w
        ≡ after_first
            (run_operations done call fallback wrap xs w)
            (run_operations done call fallback wrap ys)
  run_operations-append [] ys w = rw (run_operations-nil w) refl
  run_operations-append (op ∷ xs) ys w = elim (Option-cases (done w)) [
    | inl n ↦
        rw (run_operations-go op (xs ++ ys) w n, run_operations-go op xs w n)
          (ap (settle (fallback op) (wrap op) (call op w)) (fun_ext (run_operations-append xs ys))
            ∙ settle-after_first op (call op w) (run xs) (run ys))
    | inr (e, s) ↦ rw (run_operations-stop op (xs ++ ys) w e s, run_operations-stop op xs w e s)
  ]
