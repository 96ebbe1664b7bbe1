-- ===== src/Engine/Pool/Progress.antt =====
-- internal/engine/workerpool.go: `pool.Close()` returns.
use native.Mathlib.Decide.{dec_lt}
use Prim.Native.Nat.{◌*◌}
use gitlab_fleet_governor.Common.{
  ℕ, zero, suc, ◌+◌, ◌-◌, ◌<◌, ◌≤◌, List, [], ◌∷◌, ◌≡◌, refl, arith, if◌then◌else◌, length,
  length-append, ◌⊎◌, inl, inr,
}
use gitlab_fleet_governor.Common.Int.{ℤ}
use gitlab_fleet_governor.Governance.Operation.{Error}
use gitlab_fleet_governor.Engine.Pool.Account.{run_task-ran, run-Accounted}
use gitlab_fleet_governor.Engine.Pool.{
  Outcome, Pool, record_error, submit, refuse, take, leave, run_task, release, Step, submits,
  refuses, takes, retires, gives_up, runs, aborts, cancels, Run, later, Closed,
}

module _ {R : Type 0} (n : ℕ) (outcome : ℕ → Outcome R) (ctx_error : Error) where
  -- What is left to be done: tasks to submit, queued, held; workers to return; a cancellation.
  work : Pool R → ℕ
  work s =
      3 * (n - s.next)
      + 2 * length s.queue
      + 2 * length s.busy
      + s.idle
      + (if s.cancelled then 0 else 1)

  step-work : {s t : Pool R} → Step n outcome ctx_error s t → work t < work s
  unfolding work submit refuse take leave release record_error
  step-work (submits {s} h) = ground (arith, h, length-append s.queue (s.next ∷ []))
  step-work (refuses {s} h c) = ground (arith, h)
  step-work (takes {s} j rest h e) = ground (arith, h, e)
  step-work (retires {s} h k e) = ground (arith, h)
  step-work (gives_up {s} h c) = ground (arith, h)
  step-work (runs {s} xs j ys e) =
      let (next, queue, cancelled, ran, idle) = run_task-ran j (outcome j) s in
      ground
        (arith, e, length-append xs ys, length-append xs (j ∷ ys), next, queue, cancelled, idle)
  step-work (aborts {s} xs j ys e c) =
      ground (arith, e, length-append xs ys, length-append xs (j ∷ ys))
  step-work (cancels {s} c) = ground arith

  -- A step that is not the cancellation of the context.
  abbrev pub Moves : Pool R → Type 0
  Moves s = (t : Pool R) × Step n outcome ctx_error s t × (t.cancelled ≡ s.cancelled)

  idle-Moves : (s : Pool R) (queue : List ℕ) → s.next ≡ n → 0 < s.idle → s.queue ≡ queue → Moves s
  unfolding take leave
  idle-Moves s [] e i q = (leave s, retires i e q, refl)
  idle-Moves s (j ∷ rest) e i q = (take j rest s, takes j rest i q, refl)

  busy-Moves :
      (s : Pool R) (busy : List ℕ) → s.next ≡ n → s.idle ≡ 0 → s.busy ≡ busy → Closed n s ⊎ Moves s
  unfolding release
  busy-Moves s [] e i b = inl (record { submitted = e; no_idle = i; no_busy = b })
  busy-Moves s (j ∷ ys) e i b =
      let (next, queue, cancelled, ran, idle) = run_task-ran j (outcome j) s in
      inr (release ys (run_task j (outcome j) s), runs [] j ys b, cancelled)

  moves : (s : Pool R) → s.next ≤ n → Closed n s ⊎ Moves s
  unfolding submit
  moves s w = elim (dec_lt s.next n) [
    | yes h ↦ inr (submit s, submits h, refl)
    | no h ↦ elim (dec_lt 0 s.idle) [
      | yes i ↦ inr (idle-Moves s s.queue (omega arith) i refl)
      | no i ↦ busy-Moves s s.busy (omega arith) (omega arith) refl
    ]
  ]

  -- However the steps are taken, `P` is reached, and until then there is a step other than the
  -- cancellation of the context.
  pub data Inevitably (P : Pool R → Type 0) : Pool R → Type 0 where
    now : {s : Pool R} → P s → Inevitably P s
    after :
        {s : Pool R}
        → Moves s
        → ((t : Pool R) → Step n outcome ctx_error s t → Inevitably P t)
        → Inevitably P s

  closes_within :
      {concurrency : ℤ} (k : ℕ) (s : Pool R)
      → work s < k
      → Run n outcome ctx_error concurrency s
      → Inevitably (Closed n) s
  closes_within zero s h r = absurd (omega (arith, h))
  closes_within (suc k) s h r = elim (moves s (run-Accounted r).within) [
    | inl closed ↦ now closed
    | inr m ↦
        after m (λ t step. closes_within k t (omega (arith, h, step-work step)) (later r step))
  ]

  -- From every moment of every run, whichever steps the goroutines take and whether or not the
  -- context is cancelled on the way, the pool gets closed after finitely many steps, and until then one
  -- of the goroutines can take a step: ParallelMap neither blocks nor goes on for ever.
  pub run-closes :
      {concurrency : ℤ} {s : Pool R}
      → Run n outcome ctx_error concurrency s
      → Inevitably (Closed n) s
  run-closes {s} r = closes_within (suc (work s)) s (omega arith) r
