-- ===== src/Engine/Run/Outcomes.antt =====
-- `ParallelMap` in internal/engine/engine.go: the targets of a phase, executed one after the other, and
-- what came of each.
use gitlab_fleet_governor.Common.{
  false, Option, some, none, List, [], ◌∷◌, ◌++◌, ◌≡◌, ◌↔◌, refl, sym, ap, arith, All, Option-cases,
}
use gitlab_fleet_governor.Governance.Operation.{Error}
use gitlab_fleet_governor.Engine.Results.{TargetResult, target_failed}
use gitlab_fleet_governor.Engine.Run.{run_all}

abbrev pub TargetOutcome : Type 0
TargetOutcome = TargetResult × Option Error

-- Targets that were executed one after the other, each once and in the world that the one before it
-- left, what came of each, and the world behind the last.
pub data Executed {A World : Type 0} (execute : A → World → TargetOutcome × World)
    : List A → World → List TargetOutcome → World → Type 0 where
  no_more : {w : World} → Executed execute [] w [] w
  one_more :
      {a : A} {items : List A} {w w1 w2 : World} {out : TargetOutcome} {outs : List TargetOutcome}
      → execute a w ≡ (out, w1)
      → Executed execute items w1 outs w2
      → Executed execute (a ∷ items) w (out ∷ outs) w2

-- The results of the executions without an error, and the errors of the others.
abbrev pub listed : List TargetOutcome → List TargetResult
listed [] = []
listed ((r, none) ∷ outs) = r ∷ listed outs
listed ((r, some e) ∷ outs) = listed outs

abbrev pub failures : List TargetOutcome → List Error
failures [] = []
failures ((r, none) ∷ outs) = failures outs
failures ((r, some e) ∷ outs) = e ∷ failures outs

abbrev pub IsFine : TargetOutcome → Type 0
IsFine out = (out.1 ≡ none) × (target_failed out.0 ≡ false)

pub record Carried {A World : Type 0} (execute : A → World → TargetOutcome × World) (items : List A)
    (w : World) (out : (List TargetResult × List Error) × World) : Type 0 where
  pub outcomes : List TargetOutcome
  pub executed : Executed execute items w outcomes out.1
  pub results : out.0.0 ≡ listed outcomes
  pub errors : out.0.1 ≡ failures outcomes

pub run_all-Carried :
    {A World : Type 0} (execute : A → World → TargetOutcome × World) (items : List A) (w : World)
    → Carried execute items w (run_all execute items w)
unfolding run_all
run_all-Carried execute [] w = record {
  outcomes = [];
  executed = no_more;
  results = refl;
  errors = refl;
}
run_all-Carried execute (a ∷ items) w =
    let c = run_all-Carried execute items (execute a w).1 in
    record {
      outcomes = (execute a w).0 ∷ c.outcomes;
      executed = one_more refl c.executed;
      results = ground (arith, c.results, Option-cases (execute a w).0.1);
      errors = ground (arith, c.errors, Option-cases (execute a w).0.1);
    }

pub listed-append : (xs ys : List TargetOutcome) → listed (xs ++ ys) ≡ listed xs ++ listed ys
listed-append [] ys = refl
listed-append ((r, none) ∷ xs) ys = ap (◌∷◌ r) (listed-append xs ys)
listed-append ((r, some e) ∷ xs) ys = listed-append xs ys

pub failures-append :
    (xs ys : List TargetOutcome) → failures (xs ++ ys) ≡ failures xs ++ failures ys
failures-append [] ys = refl
failures-append ((r, none) ∷ xs) ys = failures-append xs ys
failures-append ((r, some e) ∷ xs) ys = ap (◌∷◌ e) (failures-append xs ys)

IsFine-iff :
    (outs : List TargetOutcome)
    → ((failures outs ≡ []) × All (λ tr. target_failed tr ≡ false) (listed outs)) ↔ All IsFine outs
IsFine-iff [] = ground arith
IsFine-iff ((r, none) ∷ outs) = ground (arith, IsFine-iff outs)
IsFine-iff ((r, some e) ∷ outs) = ground (arith, IsFine-iff outs)

pub IsFine-append_iff :
    (xs ys : List TargetOutcome)
    → ((failures xs ++ failures ys ≡ [])
        × All (λ tr. target_failed tr ≡ false) (listed xs ++ listed ys))
      ↔ All IsFine (xs ++ ys)
IsFine-append_iff xs ys =
    rw (sym (failures-append xs ys), sym (listed-append xs ys)) (IsFine-iff (xs ++ ys))
