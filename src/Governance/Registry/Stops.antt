-- ===== src/Governance/Registry/Stops.antt =====
-- The loops of registry.go: which operations are called, in which world each, and what is reported.
use gitlab_fleet_governor.Common.{
  Option, some, none, List, [], ◌∷◌, ◌++◌, ◌≡◌, refl, arith, Option-cases, inl, inr,
}
use gitlab_fleet_governor.Governance.Operation.{Operation, Error}
use gitlab_fleet_governor.Governance.Registry.{settle, run_operations}
use gitlab_fleet_governor.Governance.Registry.Run.{
  run_operations-go, run_operations-stop, run_operations-nil,
}

module _ {Config World R : Type 0} (done : World → Option Error)
    (call : Operation Config World → World → (Option R × Option Error) × World)
    (fallback : Operation Config World → Error → R)
    (wrap : Operation Config World → Error → Error) where
  -- Operations that were all called without an error, each in the world that the one before it left:
  -- their results, and the world behind the last.
  pub data Succeed : List (Operation Config World) → World → List R → World → Type 0 where
    nothing : {w : World} → Succeed [] w [] w
    reported :
        {op : Operation Config World} {ops : List (Operation Config World)} {w w1 w2 : World}
        {r : R} {rs : List R}
        → done w ≡ none
        → call op w ≡ ((some r, none), w1)
        → Succeed ops w1 rs w2
        → Succeed (op ∷ ops) w (r ∷ rs) w2
    silent :
        {op : Operation Config World} {ops : List (Operation Config World)} {w w1 w2 : World}
        {rs : List R}
        → done w ≡ none
        → call op w ≡ ((none, none), w1)
        → Succeed ops w1 rs w2
        → Succeed (op ∷ ops) w rs w2

  -- The report on an operation that failed: its own, or the one made up for it.
  abbrev pub failure_report : Operation Config World → Option R → Error → R
  failure_report op (some r) e = r
  failure_report op none e = fallback op e

  -- How the loop ends before the operations that are left, in a world: none is left, the context is
  -- done, or the next operation fails; what is reported of these, with which error, in which world.
  pub data Ends (w : World)
      : List (Operation Config World) → List R → Option Error → World → Type 0 where
    finished : Ends w [] [] none w
    interrupted :
        {op : Operation Config World} {ops : List (Operation Config World)} (e : Error)
        → done w ≡ some e
        → Ends w (op ∷ ops) [] (some e) w
    failed :
        {op : Operation Config World} {ops : List (Operation Config World)} {w1 : World}
        (r : Option R) (e : Error)
        → done w ≡ none
        → call op w ≡ ((r, some e), w1)
        → Ends w (op ∷ ops) (failure_report op r e ∷ []) (some (wrap op e)) w1

  -- A run that has succeeded up to some point and has ended there.
  pub record Stops (ops : List (Operation Config World)) (w : World)
      (out : (List R × Option Error) × World) : Type 0 where
    pub before : List (Operation Config World)
    pub rest : List (Operation Config World)
    pub results : List R
    pub last_results : List R
    pub reached : World
    pub split : ops ≡ before ++ rest
    pub succeeds : Succeed before w results reached
    pub ends : Ends reached rest last_results out.0.1 out.1
    pub reports : out.0.0 ≡ results ++ last_results

  settle-Stops :
      (op : Operation Config World) (ops : List (Operation Config World)) (w : World)
      (c : (Option R × Option Error) × World) (f : World → (List R × Option Error) × World)
      → done w ≡ none
      → call op w ≡ c
      → ((w' : World) → Stops ops w' (f w'))
      → Stops (op ∷ ops) w (settle (fallback op) (wrap op) c f)
  unfolding settle
  settle-Stops op ops w ((some r, some e), w1) f n called ih = record {
    before = [];
    rest = op ∷ ops;
    results = [];
    last_results = r ∷ [];
    reached = w;
    split = refl;
    succeeds = nothing;
    ends = failed (some r) e n called;
    reports = refl;
  }
  settle-Stops op ops w ((none, some e), w1) f n called ih = record {
    before = [];
    rest = op ∷ ops;
    results = [];
    last_results = fallback op e ∷ [];
    reached = w;
    split = refl;
    succeeds = nothing;
    ends = failed none e n called;
    reports = refl;
  }
  settle-Stops op ops w ((some r, none), w1) f n called ih =
      let s = ih w1 in
      record {
        before = op ∷ s.before;
        rest = s.rest;
        results = r ∷ s.results;
        last_results = s.last_results;
        reached = s.reached;
        split = ground (arith, s.split);
        succeeds = reported n called s.succeeds;
        ends = s.ends;
        reports = ground (arith, s.reports);
      }
  settle-Stops op ops w ((none, none), w1) f n called ih =
      let s = ih w1 in
      record {
        before = op ∷ s.before;
        rest = s.rest;
        results = s.results;
        last_results = s.last_results;
        reached = s.reached;
        split = ground (arith, s.split);
        succeeds = silent n called s.succeeds;
        ends = s.ends;
        reports = s.reports;
      }

  -- The loop calls its operations in order, each in the world that the one before it left, until the
  -- context is done or a call answers with an error, and calls none after that. It reports each
  -- result of those before, in order, then the failing operation's own result or the one made up for
  -- it, and returns the context's error, the wrapped error of the call, or none where it has called
  -- all.
  pub run_operations-Stops :
      (ops : List (Operation Config World)) (w : World)
      → Stops ops w (run_operations done call fallback wrap ops w)
  run_operations-Stops [] w = rw (run_operations-nil done call fallback wrap w) (record {
    before = [];
    rest = [];
    results = [];
    last_results = [];
    reached = w;
    split = refl;
    succeeds = nothing;
    ends = finished;
    reports = refl;
  })
  run_operations-Stops (op ∷ ops) w = elim (Option-cases (done w)) [
    | inl n ↦ rw (run_operations-go done call fallback wrap op ops w n) (
        settle-Stops op ops w (call op w) (run_operations done call fallback wrap ops) n refl
          (run_operations-Stops ops))
    | inr (e, s) ↦ rw (run_operations-stop done call fallback wrap op ops w e s) (record {
      before = [];
      rest = op ∷ ops;
      results = [];
      last_results = [];
      reached = w;
      split = refl;
      succeeds = nothing;
      ends = interrupted e s;
      reports = refl;
    })
  ]
