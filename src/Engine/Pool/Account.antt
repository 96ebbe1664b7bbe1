-- ===== src/Engine/Pool/Account.antt =====
-- internal/engine/workerpool.go: where the tasks of ParallelMap are at each moment of a run.
use gitlab_fleet_governor.Common.{
  ℕ, zero, suc, ◌+◌, ◌<◌, ◌≤◌, false, List, [], ◌∷◌, ◌++◌, ◌≡◌, refl, sym, ◌∙◌, arith,
  if◌then◌else◌, ltb, nat_beq,
}
use gitlab_fleet_governor.Common.Int.{ℤ, pos, negsuc}
use gitlab_fleet_governor.Governance.Operation.{Error}
use gitlab_fleet_governor.Engine.Pool.{
  Outcome, returned, erred, panicked, Pool, new_worker_pool, record_error, submit, refuse, take,
  leave, run_task, release, Step, submits, refuses, takes, retires, gives_up, runs, aborts, cancels,
  Run, start, later, Closed, positive_or_ten,
}

-- How often `i` stands in a list.
abbrev pub count : ℕ → List ℕ → ℕ
count i [] = 0
count i (x ∷ xs) = (if nat_beq x i then 1 else 0) + count i xs

pub count-append : (i : ℕ) (xs ys : List ℕ) → count i (xs ++ ys) ≡ count i xs + count i ys
count-append i [] ys = omega arith
count-append i (x ∷ xs) ys = omega (arith, count-append i xs ys)

abbrev pub one_below : ℕ → ℕ → ℕ
one_below i n = if ltb i n then 1 else 0

positive_or_ten-pos : (z : ℤ) → 0 < positive_or_ten z
positive_or_ten-pos (pos zero) = omega arith
positive_or_ten-pos (pos (suc n)) = omega arith
positive_or_ten-pos (negsuc n) = omega arith

module _ {R : Type 0} where
  -- How often the task `i` is queued, held by a worker or was run.
  abbrev pub held : ℕ → Pool R → ℕ
  held i s = count i s.queue + count i s.busy + count i s.ran

  pub record Accounted (n : ℕ) (s : Pool R) : Type 0 where
    pub within : s.next ≤ n
    pub at_most_once : (i : ℕ) → held i s ≤ one_below i s.next
    pub once : s.cancelled ≡ false → (i : ℕ) → held i s ≡ one_below i s.next

  -- A task that runs leaves the queue and the other workers as they are.
  pub run_task-ran :
      (i : ℕ) (o : Outcome R) (s : Pool R)
      → ((run_task i o s).next ≡ s.next)
        × ((run_task i o s).queue ≡ s.queue)
        × ((run_task i o s).cancelled ≡ s.cancelled)
        × ((run_task i o s).ran ≡ i ∷ s.ran)
        × ((run_task i o s).idle ≡ s.idle)
  unfolding run_task record_error
  run_task-ran i (returned r) s = (refl, refl, refl, refl, refl)
  run_task-ran i (erred e) s = (refl, refl, refl, refl, refl)
  run_task-ran i (panicked e) s = (refl, refl, refl, refl, refl)

  step-Accounted :
      {n : ℕ} {outcome : ℕ → Outcome R} {ctx_error : Error} {s t : Pool R}
      → Step n outcome ctx_error s t
      → Accounted n s
      → Accounted n t
  unfolding submit refuse take leave release record_error
  step-Accounted (submits {s} h) a = record {
    within = ground (arith, h);
    at_most_once = λ i. ground (arith, a.at_most_once i, count-append i s.queue (s.next ∷ []));
    once = λ e i. ground (arith, a.once e i, count-append i s.queue (s.next ∷ []));
  }
  step-Accounted (refuses {s} h c) a = record {
    within = ground (arith, h);
    at_most_once = λ i. ground (arith, a.at_most_once i);
    once = λ e i. cc;
  }
  step-Accounted (takes {s} j rest h e) a = record {
    within = a.within;
    at_most_once = λ i. ground (arith, a.at_most_once i, e);
    once = λ c i. ground (arith, a.once c i, e);
  }
  step-Accounted (retires h k e) a = record {
    within = a.within;
    at_most_once = a.at_most_once;
    once = a.once;
  }
  step-Accounted (gives_up h c) a = record {
    within = a.within;
    at_most_once = a.at_most_once;
    once = a.once;
  }
  step-Accounted {n} {outcome} (runs {s} xs j ys e) a =
      let (next, queue, cancelled, ran, idle) = run_task-ran j (outcome j) s in
      record {
        within = omega (arith, next, a.within);
        at_most_once = λ i. ground (
          arith,
          a.at_most_once i,
          e,
          count-append i xs ys,
          count-append i xs (j ∷ ys),
          next,
          queue,
          ran,
        );
        once = λ c i. ground (
          arith,
          a.once (sym cancelled ∙ c) i,
          e,
          count-append i xs ys,
          count-append i xs (j ∷ ys),
          next,
          queue,
          ran,
        );
      }
  step-Accounted (aborts {s} xs j ys e c) a = record {
    within = a.within;
    at_most_once =
        λ i. ground (arith, a.at_most_once i, e, count-append i xs ys, count-append i xs (j ∷ ys));
    once = λ d i. cc;
  }
  step-Accounted (cancels {s} c) a = record {
    within = a.within;
    at_most_once = a.at_most_once;
    once = λ d i. cc;
  }

  pub run-Accounted :
      {n : ℕ} {outcome : ℕ → Outcome R} {ctx_error : Error} {concurrency : ℤ} {s : Pool R}
      → Run n outcome ctx_error concurrency s
      → Accounted n s
  unfolding new_worker_pool
  run-Accounted start = record {
    within = omega arith;
    at_most_once = λ i. ground arith;
    once = λ e i. ground arith;
  }
  run-Accounted (later r h) = step-Accounted h (run-Accounted r)

  -- While the context is not cancelled, the last worker leaves an empty queue behind all submissions.
  abbrev Drained : ℕ → Pool R → Type 0
  Drained n s = s.cancelled ≡ false → s.idle ≡ 0 → s.busy ≡ [] → (s.next ≡ n) × (s.queue ≡ [])

  step-Drained :
      {n : ℕ} {outcome : ℕ → Outcome R} {ctx_error : Error} {s t : Pool R}
      → Step n outcome ctx_error s t
      → Drained n s
      → Drained n t
  unfolding submit refuse take leave release record_error
  step-Drained (submits h) d c i b = absurd (ground (arith, h, d c i b))
  step-Drained (refuses h c) d k i b = absurd (cc)
  step-Drained (takes j rest h e) d c i b = absurd (cc)
  step-Drained (retires h k e) d c i b = (k, e)
  step-Drained (gives_up h c) d k i b = absurd (cc)
  step-Drained (runs xs j ys e) d c i b = absurd (omega (arith, i))
  step-Drained (aborts xs j ys e c) d k i b = absurd (omega (arith, i))
  step-Drained (cancels c) d k i b = absurd (cc)

  run-Drained :
      {n : ℕ} {outcome : ℕ → Outcome R} {ctx_error : Error} {concurrency : ℤ} {s : Pool R}
      → Run n outcome ctx_error concurrency s
      → Drained n s
  unfolding new_worker_pool
  run-Drained {concurrency} start =
      λ c i b. absurd (omega (arith, i, positive_or_ten-pos concurrency))
  run-Drained (later r h) = step-Drained h (run-Drained r)

  -- At every moment of every run of the pool, cancelled or not, `fn` was called at most once on each
  -- of the `n` items, and on nothing else.
  pub run-ran :
      {n : ℕ} {outcome : ℕ → Outcome R} {ctx_error : Error} {concurrency : ℤ} {s : Pool R} (i : ℕ)
      → Run n outcome ctx_error concurrency s
      → count i s.ran ≤ (if ltb i n then 1 else 0)
  run-ran i r = let a = run-Accounted r in ground (arith, a.at_most_once i, a.within)

  -- Where the pool is closed and the context was not cancelled, every item was run.
  pub run-ran_all :
      {n : ℕ} {outcome : ℕ → Outcome R} {ctx_error : Error} {concurrency : ℤ} {s : Pool R} (i : ℕ)
      → Run n outcome ctx_error concurrency s
      → Closed n s
      → s.cancelled ≡ false
      → i < n
      → count i s.ran ≡ 1
  run-ran_all i r closed c h =
      let a = run-Accounted r in
      let (next, queue) = run-Drained r c closed.no_idle closed.no_busy in
      ground (arith, a.once c i, next, queue, closed.no_busy, h)
