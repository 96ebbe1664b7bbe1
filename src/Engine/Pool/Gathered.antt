-- ===== src/Engine/Pool/Gathered.antt =====
-- internal/engine/workerpool.go: what ParallelMap returns does not depend on the order in which its
-- workers ran.
use gitlab_fleet_governor.Common.{
  ℕ, ◌≤◌, false, Option, some, none, [], ◌∷◌, ◌≡◌, refl, sym, ◌∙◌, arith, if◌then◌else◌, leb, In,
  In-append, ◌⊎◌, inl, inr,
}
use gitlab_fleet_governor.Common.Int.{ℤ}
use gitlab_fleet_governor.Common.Text.{text_eq}
use gitlab_fleet_governor.Governance.Operation.{Error}
use gitlab_fleet_governor.Engine.Pool.Account.{count, run_task-ran}
use gitlab_fleet_governor.Engine.Pool.{
  Outcome, returned, erred, panicked, Pool, new_worker_pool, record_error, submit, refuse, take,
  leave, run_task, release, Step, submits, refuses, takes, retires, gives_up, runs, aborts, cancels,
  Run, start, later,
}

module _ {R : Type 0} where
  abbrev pub value_of : Outcome R → Option R
  value_of (returned r) = some r
  value_of (erred e) = none
  value_of (panicked e) = none

  abbrev pub error_of : Outcome R → Option Error
  error_of (returned r) = none
  error_of (erred e) = some e
  error_of (panicked e) = none

  -- The cells hold what the tasks that ran answered.
  pub record Filled (outcome : ℕ → Outcome R) (s : Pool R) : Type 0 where
    pub results :
        (i : ℕ) → s.results i ≡ (if leb 1 (count i s.ran) then value_of (outcome i) else none)
    pub errs :
        s.cancelled ≡ false
        → (i : ℕ) → s.errs i ≡ (if leb 1 (count i s.ran) then error_of (outcome i) else none)
    pub flagged : s.has_error ≡ false → (i : ℕ) → s.errs i ≡ none

  run_task-Filled :
      {outcome : ℕ → Outcome R} (j : ℕ) (o : Outcome R) (s : Pool R)
      → outcome j ≡ o
      → Filled outcome s
      → Filled outcome (run_task j o s)
  unfolding run_task record_error
  run_task-Filled {outcome} j (returned r) s e f = record {
    results = λ i. ground (arith, f.results i, e);
    errs = λ c i. ground (arith, f.errs c i, e);
    flagged = f.flagged;
  }
  run_task-Filled {outcome} j (erred err) s e f = record {
    results = λ i. ground (arith, f.results i, e);
    errs = λ c i. ground (arith, f.errs c i, e);
    flagged = λ k i. absurd (cc);
  }
  run_task-Filled {outcome} j (panicked err) s e f = record {
    results = λ i. ground (arith, f.results i, e);
    errs = λ c i. ground (arith, f.errs c i, e);
    flagged = f.flagged;
  }

  step-Filled :
      {n : ℕ} {outcome : ℕ → Outcome R} {ctx_error : Error} {s t : Pool R}
      → Step n outcome ctx_error s t
      → Filled outcome s
      → Filled outcome t
  unfolding submit refuse take leave release record_error
  step-Filled (submits h) f = record { results = f.results; errs = f.errs; flagged = f.flagged }
  step-Filled (refuses h c) f = record {
    results = f.results;
    errs = λ k i. absurd (cc);
    flagged = λ k i. absurd (cc);
  }
  step-Filled (takes j rest h e) f = record {
    results = f.results;
    errs = f.errs;
    flagged = f.flagged;
  }
  step-Filled (retires h k e) f = record { results = f.results; errs = f.errs; flagged = f.flagged }
  step-Filled (gives_up h c) f = record { results = f.results; errs = f.errs; flagged = f.flagged }
  step-Filled {outcome} (runs {s} xs j ys e) f =
      let g = run_task-Filled j (outcome j) s refl f in
      record { results = g.results; errs = g.errs; flagged = g.flagged }
  step-Filled (aborts xs j ys e c) f = record {
    results = f.results;
    errs = f.errs;
    flagged = f.flagged;
  }
  step-Filled (cancels c) f = record {
    results = f.results;
    errs = λ k i. absurd (cc);
    flagged = f.flagged;
  }

  pub run-Filled :
      {n : ℕ} {outcome : ℕ → Outcome R} {ctx_error : Error} {concurrency : ℤ} {s : Pool R}
      → Run n outcome ctx_error concurrency s
      → Filled outcome s
  unfolding new_worker_pool
  run-Filled start = record { results = λ i. refl; errs = λ c i. refl; flagged = λ c i. refl }
  run-Filled (later r h) = step-Filled h (run-Filled r)

  -- The pool's errors are those of tasks that ran.
  abbrev pub Logged : (ℕ → Outcome R) → Pool R → Type 0
  Logged outcome s =
      (p : Error)
      → In p s.errors
      → (i : ℕ) × (1 ≤ count i s.ran) × ((outcome i ≡ erred p) ⊎ (outcome i ≡ panicked p))

  run_task-Logged :
      {outcome : ℕ → Outcome R} (j : ℕ) (o : Outcome R) (s : Pool R)
      → outcome j ≡ o
      → Logged outcome s
      → Logged outcome (run_task j o s)
  unfolding run_task record_error
  run_task-Logged j (returned r) s e f = λ p m. let (i, h, k) = f p m in (i, ground (arith, h), k)
  run_task-Logged j (erred err) s e f = λ p m. elim ((In-append p s.errors (err ∷ [])).0 m) [
    | inl k ↦ let (i, h, o) = f p k in (i, ground (arith, h), o)
    | inr k ↦ (j, ground arith, ground (arith, e, k))
  ]
  run_task-Logged j (panicked err) s e f = λ p m. elim ((In-append p s.errors (err ∷ [])).0 m) [
    | inl k ↦ let (i, h, o) = f p k in (i, ground (arith, h), o)
    | inr k ↦ (j, ground arith, ground (arith, e, k))
  ]

  step-Logged :
      {n : ℕ} {outcome : ℕ → Outcome R} {ctx_error : Error} {s t : Pool R}
      → Step n outcome ctx_error s t
      → (s.cancelled ≡ false → Logged outcome s)
      → t.cancelled ≡ false
      → Logged outcome t
  unfolding submit refuse take leave release record_error
  step-Logged (submits h) f k = f k
  step-Logged (refuses h c) f k = absurd (cc)
  step-Logged (takes j rest h e) f k = f k
  step-Logged (retires h i e) f k = f k
  step-Logged (gives_up h c) f k = f k
  step-Logged {outcome} (runs {s} xs j ys e) f k =
      let (next, queue, cancelled, ran, idle) = run_task-ran j (outcome j) s in
      run_task-Logged j (outcome j) s refl (f (sym cancelled ∙ k))
  step-Logged (aborts xs j ys e c) f k = absurd (cc)
  step-Logged (cancels c) f k = absurd (cc)

  pub run-Logged :
      {n : ℕ} {outcome : ℕ → Outcome R} {ctx_error : Error} {concurrency : ℤ} {s : Pool R}
      → Run n outcome ctx_error concurrency s
      → s.cancelled ≡ false
      → Logged outcome s
  unfolding new_worker_pool
  run-Logged start c = λ p m. absurd m
  run-Logged (later r h) c = step-Logged h (run-Logged r) c
