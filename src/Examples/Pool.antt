-- ===== src/Examples/Pool.antt =====
-- Runs of the worker pool on two items.
use gitlab_fleet_governor.Common.{
  ℕ, zero, suc, ◌≤◌, ◌<◌, false, none, [], ◌∷◌, ◌≡◌, ◌≢◌, refl, arith, if◌then◌else◌, ltb,
}
use gitlab_fleet_governor.Common.Int.{pos}
use gitlab_fleet_governor.Common.Text.{Text, codes}
use gitlab_fleet_governor.Governance.Operation.{Error, external}
use gitlab_fleet_governor.Engine.Pool.{
  Outcome, returned, erred, panicked, Pool, new_worker_pool, record_error, submit, take, leave,
  run_task, release, submits, takes, retires, runs, Run, start, later, Closed, parallel_map, slice,
}
use gitlab_fleet_governor.Engine.Pool.Account.{count, run-ran}
use gitlab_fleet_governor.Engine.Pool.InOrder.{values_of, errors_of, parallel_map-outcomes}
use gitlab_fleet_governor.Engine.Pool.Progress.{Inevitably, run-closes}
use gitlab_fleet_governor.Engine.Pool.Cancelled.{parallel_map_silent}

-- The first item fails, the second one gives its number.
abbrev outcome : ℕ → Outcome ℕ
outcome zero = erred (external (codes "first"))
outcome (suc n) = returned 7

abbrev message : Error → Text
message e = codes "error"

abbrev cancellation : Error
cancellation = external (codes "context canceled")

abbrev two_workers : Pool ℕ
two_workers = new_worker_pool (pos 2)

abbrev submitted : Pool ℕ
submitted = submit (submit two_workers)

abbrev taken : Pool ℕ
taken = take 1 [] (take 0 (1 ∷ []) submitted)

-- The second item ends before the first one.
abbrev one_ran : Pool ℕ
one_ran = release (0 ∷ []) (run_task 1 (outcome 1) taken)

abbrev both_ran : Pool ℕ
both_ran = release [] (run_task 0 (outcome 0) one_ran)

abbrev closed : Pool ℕ
closed = leave (leave both_ran)

zero_of_two : 0 < 2
zero_of_two = omega arith

one_of_two : 1 < 2
one_of_two = omega arith

zero_of_one : 0 < 1
zero_of_one = omega arith

closed-Run : Run 2 outcome cancellation (pos 2) closed
unfolding new_worker_pool submit take release run_task leave record_error
closed-Run =
    later
      (later
        (later
          (later
            (later
              (later (later (later start (submits zero_of_two)) (submits one_of_two))
                (takes 0 (1 ∷ []) zero_of_two refl))
              (takes 1 [] zero_of_one refl))
            (runs [] 1 (0 ∷ []) refl))
          (runs [] 0 [] refl))
        (retires zero_of_two refl refl))
      (retires zero_of_one refl refl)

closed-Closed : Closed 2 closed
unfolding new_worker_pool submit take release run_task leave record_error
closed-Closed = record { submitted = refl; no_idle = refl; no_busy = refl }

closed_uncancelled : closed.cancelled ≡ false
unfolding new_worker_pool submit take release run_task leave record_error
closed_uncancelled = refl

calm : (i : ℕ) (e : Error) → outcome i ≢ panicked e
calm zero e = ground arith
calm (suc i) e = ground arith

parallel_map-outcomes_example :
    parallel_map message 2 closed ≡ (values_of outcome 0 2, errors_of outcome 0 2)
parallel_map-outcomes_example =
    parallel_map-outcomes message closed-Run closed-Closed closed_uncancelled calm

run-ran_example : count 1 closed.ran ≤ (if ltb 1 2 then 1 else 0)
run-ran_example = run-ran 1 closed-Run

run-closes_example : Inevitably 2 outcome cancellation (Closed 2) closed
run-closes_example = run-closes 2 outcome cancellation closed-Run

parallel_map_silent_example :
    (s : Pool ℕ) × Run 2 outcome cancellation (pos 2) s
    × Closed 2 s
    × (s.ran ≡ [])
    × (parallel_map message 2 s ≡ (slice (λ i. none) 0 2, []))
parallel_map_silent_example = parallel_map_silent 2 outcome cancellation (pos 2) message
