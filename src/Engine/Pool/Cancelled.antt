-- ===== src/Engine/Pool/Cancelled.antt =====
-- internal/engine/workerpool.go: workers that leave a queue behind when the context is cancelled.
use gitlab_fleet_governor.Common.{
  ℕ, zero, suc, ◌≤◌, Bool, true, false, Option, none, List, [], ◌≡◌, refl, ap, ap₂, arith,
}
use gitlab_fleet_governor.Common.Int.{ℤ}
use gitlab_fleet_governor.Common.Text.{Text}
use gitlab_fleet_governor.Governance.Operation.{Error}
use gitlab_fleet_governor.Engine.Pool.{
  Outcome, Pool, new_worker_pool, submit, leave, submits, gives_up, cancels, Run, start, later,
  Closed, slice, parallel_map,
}

module _ {R : Type 0} (n : ℕ) (outcome : ℕ → Outcome R) (ctx_error : Error) (concurrency : ℤ) where
  abbrev Cells : Type 0
  Cells = List ℕ × (ℕ → Option R) × Bool × List Error × List ℕ

  -- What a task changes, and its value before any task was run.
  abbrev cells : Pool R → Cells
  cells s = (s.busy, s.results, s.has_error, s.errors, s.ran)

  abbrev untouched : Cells
  untouched = ([], λ i. none, false, [], [])

  submitted :
      (k : ℕ)
      → k ≤ n
      → (s : Pool R) × Run n outcome ctx_error concurrency s
        × (cells s ≡ untouched)
        × (s.next ≡ k)
        × (s.cancelled ≡ false)
  unfolding new_worker_pool submit
  submitted zero h = (new_worker_pool concurrency, start, refl, refl, refl)
  submitted (suc k) h =
      let (s, r, u, e, c) = submitted k (omega (arith, h)) in
      (submit s, later r (submits (omega (arith, h, e))), u, omega (arith, e), c)

  left :
      (k : ℕ) (s : Pool R)
      → s.idle ≡ k
      → s.cancelled ≡ true
      → s.next ≡ n
      → Run n outcome ctx_error concurrency s
      → cells s ≡ untouched
      → (t : Pool R) × Run n outcome ctx_error concurrency t × (cells t ≡ untouched) × Closed n t
  unfolding leave
  left zero s i c e r u =
      (s, r, u, record { submitted = e; no_idle = i; no_busy = ap (λ (x : Cells). x.0) u })
  left (suc k) s i c e r u =
      left k (leave s) (omega (arith, i)) c e (later r (gives_up (omega (arith, i)) c)) u

  silent :
      (message : Error → Text) (m : ℕ) (s : Pool R)
      → cells s ≡ untouched
      → parallel_map message m s ≡ (slice (λ i. none) 0 m, [])
  unfolding parallel_map
  silent message zero s u = unfold slice in refl
  silent message (suc m) s u =
      ap₂ (λ values errors. (values, errors)) (ap (λ (x : Cells). slice x.1 0 (suc m)) u)
        (rw (ap (λ (x : Cells). x.2) u, ap (λ (x : Cells). x.3) u) refl)

-- For every number of items and of workers, and whatever `fn` does, there is a run that is cancelled
-- after the submissions in which ParallelMap calls `fn` on no item, returns a slice of zero values and
-- reports no error.
pub parallel_map_silent :
    {R : Type 0} (n : ℕ) (outcome : ℕ → Outcome R) (ctx_error : Error) (concurrency : ℤ)
    (message : Error → Text)
    → (s : Pool R) × Run n outcome ctx_error concurrency s
      × Closed n s
      × (s.ran ≡ [])
      × (parallel_map message n s ≡ (slice (λ i. none) 0 n, []))
parallel_map_silent {R} n outcome ctx_error concurrency message =
    let (s, r, u, e, c) = submitted n outcome ctx_error concurrency n (omega arith) in
    let (t, run, v, closed) =
      left n outcome ctx_error concurrency s.idle (record s { cancelled = true }) refl refl e
        (later r (cancels c)) u in
    (
      t,
      run,
      closed,
      ap (λ (x : List ℕ × (ℕ → Option R) × Bool × List Error × List ℕ). x.4) v,
      silent n outcome ctx_error concurrency message n t v,
    )
