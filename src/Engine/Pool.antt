-- ===== src/Engine/Pool.antt =====
-- internal/engine/workerpool.go: ParallelMap over a pool of workers, as a step relation. Each step is
-- an atomic part of one goroutine: the caller submits, a worker takes a task, runs it or leaves, the
-- context is cancelled. What `fn` answers for the item at an index is a parameter.
pub mod Account
pub mod Gathered
pub mod InOrder
pub mod Progress
pub mod Cancelled
use gitlab_fleet_governor.Common.{
  ℕ, zero, suc, ◌+◌, ◌-◌, ◌<◌, Bool, true, false, not, ◌&&◌, ◌||◌, Option, some, none, List, [],
  ◌∷◌, ◌++◌, ◌≡◌, if◌then◌else◌, leb, nat_beq, ◌==◌, any, length,
}
use gitlab_fleet_governor.Common.Int.{ℤ, pos, negsuc}
use gitlab_fleet_governor.Common.Text.{Text, text_eq}
use gitlab_fleet_governor.Governance.Operation.{Error, has_items}

-- What a task does: `fn` returns, or it panics and the worker recovers.
pub data Outcome (R : Type 0) : Type 0 where
  returned : R → Outcome R
  erred panicked : Error → Outcome R

-- `ran` lists the items that `fn` was called on, the last one first; `idle` counts the workers that
-- wait for a task, `busy` lists the tasks that workers hold.
pub record Pool (R : Type 0) : Type 0 where
  pub next : ℕ
  pub queue : List ℕ
  pub idle : ℕ
  pub busy : List ℕ
  pub results : ℕ → Option R
  pub errs : ℕ → Option Error
  pub has_error : Bool
  pub errors : List Error
  pub cancelled : Bool
  pub ran : List ℕ

-- `xs[i] = v`
abbrev pub store : {A : Type 0} → (ℕ → Option A) → ℕ → A → ℕ → Option A
store xs i v j = if nat_beq i j then some v else xs j

abbrev pub positive_or_ten : ℤ → ℕ
positive_or_ten (pos zero) = 10
positive_or_ten (pos (suc n)) = suc n
positive_or_ten (negsuc n) = 10

module _ {R : Type 0} where
  -- `NewWorkerPool` with a queue that has room for every item, and the fields of `ParallelMap`.
  unfoldable pub new_worker_pool : ℤ → Pool R
  new_worker_pool concurrency = record {
    next = 0;
    queue = [];
    idle = positive_or_ten concurrency;
    busy = [];
    results = λ i. none;
    errs = λ i. none;
    has_error = false;
    errors = [];
    cancelled = false;
    ran = [];
  }

  unfoldable pub record_error : Error → Pool R → Pool R
  record_error e s = record s { errors = s.errors ++ e ∷ [] }

  -- `Submit` of the next item's task, where the queue takes it, and where the context is done.
  unfoldable pub submit : Pool R → Pool R
  submit s = record s { next = s.next + 1; queue = s.queue ++ s.next ∷ [] }

  unfoldable pub refuse : Error → Pool R → Pool R
  unfolding record_error
  refuse e s =
      let p = record_error e s in
      record p { next = p.next + 1; errs = store p.errs p.next e; has_error = true }

  -- A worker receives the task `i`, and the queue is left with `rest`.
  unfoldable pub take : ℕ → List ℕ → Pool R → Pool R
  take i rest s = record s { queue = rest; idle = s.idle - 1; busy = i ∷ s.busy }

  -- The worker returns.
  unfoldable pub leave : Pool R → Pool R
  leave s = record s { idle = s.idle - 1 }

  -- The function that `ParallelMap` submits for the item `i`, and what `executeTask` does behind it.
  unfoldable pub run_task : ℕ → Outcome R → Pool R → Pool R
  unfolding record_error
  run_task i (returned r) s = record s { results = store s.results i r; ran = i ∷ s.ran }
  run_task i (erred e) s =
      record_error e (record s { errs = store s.errs i e; has_error = true; ran = i ∷ s.ran })
  run_task i (panicked e) s = record_error e (record s { ran = i ∷ s.ran })

  -- The worker that held `i`, and leaves `rest` to the others, waits again.
  unfoldable pub release : List ℕ → Pool R → Pool R
  release rest s = record s { busy = rest; idle = s.idle + 1 }

  -- One step of the caller, of a worker, or of the context, for `n` items.
  pub data Step (n : ℕ) (outcome : ℕ → Outcome R) (ctx_error : Error)
      : Pool R → Pool R → Type 0 where
    submits : {s : Pool R} → s.next < n → Step n outcome ctx_error s (submit s)
    refuses :
        {s : Pool R}
        → s.next < n
        → s.cancelled ≡ true
        → Step n outcome ctx_error s (refuse ctx_error s)
    takes :
        {s : Pool R} (i : ℕ) (rest : List ℕ)
        → 0 < s.idle
        → s.queue ≡ i ∷ rest
        → Step n outcome ctx_error s (take i rest s)
    retires :
        {s : Pool R} → 0 < s.idle → s.next ≡ n → s.queue ≡ [] → Step n outcome ctx_error s (leave s)
    gives_up : {s : Pool R} → 0 < s.idle → s.cancelled ≡ true → Step n outcome ctx_error s (leave s)
    runs :
        {s : Pool R} (xs : List ℕ) (i : ℕ) (ys : List ℕ)
        → s.busy ≡ xs ++ i ∷ ys
        → Step n outcome ctx_error s (release (xs ++ ys) (run_task i (outcome i) s))
    aborts :
        {s : Pool R} (xs : List ℕ) (i : ℕ) (ys : List ℕ)
        → s.busy ≡ xs ++ i ∷ ys
        → s.cancelled ≡ true
        → Step n outcome ctx_error s (release (xs ++ ys) (record_error ctx_error s))
    cancels :
        {s : Pool R}
        → s.cancelled ≡ false
        → Step n outcome ctx_error s (record s { cancelled = true })

  -- Where `pool.Close()` returns: all items are submitted and no worker is left.
  pub record Closed (n : ℕ) (s : Pool R) : Type 0 where
    pub submitted : s.next ≡ n
    pub no_idle : s.idle ≡ 0
    pub no_busy : s.busy ≡ []

  -- The slice of results from index `i` on, for `n` items.
  unfoldable pub slice : (ℕ → Option R) → (i n : ℕ) → List (Option R)
  slice results i zero = []
  slice results i (suc n) = results i ∷ slice results (i + 1) n

-- The errors of the items from index `i` on, for `n` items.
unfoldable pub item_errors : (ℕ → Option Error) → (i n : ℕ) → List Error
item_errors errs i zero = []
item_errors errs i (suc n) =
    let rest = item_errors errs (i + 1) n in elim (errs i) [ none ↦ rest | some e ↦ e ∷ rest ]

-- The pool's errors that are not among the collected ones, by the text of `Error()`, which decides
-- the comparison of the errors themselves too.
unfoldable pub collect_missing : (Error → Text) → List Error → List Error → List Error
collect_missing message collected [] = collected
collect_missing message collected (p ∷ ps) =
    collect_missing message
      (if any (λ c. message c == message p) collected then collected else collected ++ p ∷ []) ps

-- What `ParallelMap` returns on `n` items when the pool is closed.
unfoldable pub parallel_map :
    {R : Type 0} → (Error → Text) → ℕ → Pool R → List (Option R) × List Error
unfolding slice item_errors collect_missing
parallel_map message zero s = ([], [])
parallel_map message (suc n) s = (
  slice s.results 0 (suc n),
  if not s.has_error && not (has_items s.errors)
      then []
      else collect_missing message (item_errors s.errs 0 (suc n)) s.errors,
)

-- A run of the pool, from its start.
pub data Run {R : Type 0} (n : ℕ) (outcome : ℕ → Outcome R) (ctx_error : Error) (concurrency : ℤ)
    : Pool R → Type 0 where
  start : Run n outcome ctx_error concurrency (new_worker_pool concurrency)
  later :
      {s t : Pool R}
      → Run n outcome ctx_error concurrency s
      → Step n outcome ctx_error s t
      → Run n outcome ctx_error concurrency t
