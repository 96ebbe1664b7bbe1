-- ===== src/Engine/Pool/InOrder.antt =====
-- internal/engine/workerpool.go: the answer of ParallelMap against that of a loop over the items.
use gitlab_fleet_governor.Common.{
  ℕ, zero, suc, ◌+◌, ◌<◌, ◌≤◌, false, not, ◌&&◌, Option, some, none, List, [], ◌∷◌, ◌≡◌, ◌≢◌, refl,
  ap₂, arith, if◌then◌else◌, nat_beq, any_complete, ◌==◌, In, inl, inr, beq_refl, Bool-cases,
}
use gitlab_fleet_governor.Common.Int.{ℤ}
use gitlab_fleet_governor.Common.Text.{Text, text_eq}
use gitlab_fleet_governor.Governance.Operation.{Error, has_items}
use gitlab_fleet_governor.Engine.Pool.Account.{run-ran, run-ran_all}
use gitlab_fleet_governor.Engine.Pool.Gathered.{value_of, error_of, run-Filled, run-Logged}
use gitlab_fleet_governor.Engine.Pool.{
  Outcome, erred, panicked, Pool, Run, Closed, slice, item_errors, collect_missing, parallel_map,
}

module _ {R : Type 0} where
  -- A loop over the items from `i` on: the value of each, and the errors in the order of the items.
  unfoldable pub values_of : (ℕ → Outcome R) → (i n : ℕ) → List (Option R)
  values_of outcome i zero = []
  values_of outcome i (suc n) = value_of (outcome i) ∷ values_of outcome (i + 1) n

  unfoldable pub errors_of : (ℕ → Outcome R) → (i n : ℕ) → List Error
  errors_of outcome i zero = []
  errors_of outcome i (suc n) =
      let rest = errors_of outcome (i + 1) n in
      elim (error_of (outcome i)) [ none ↦ rest | some e ↦ e ∷ rest ]

  slice-values_of :
      (outcome : ℕ → Outcome R) (results : ℕ → Option R) (i n : ℕ)
      → ((j : ℕ) → j < i + n → results j ≡ value_of (outcome j))
      → slice results i n ≡ values_of outcome i n
  unfolding slice values_of
  slice-values_of outcome results i zero h = refl
  slice-values_of outcome results i (suc n) h =
      rw
        (
          h i (omega arith),
          slice-values_of outcome results (i + 1) n (λ j k. h j (omega (arith, k))),
        )
        refl

  item_errors-errors_of :
      (outcome : ℕ → Outcome R) (errs : ℕ → Option Error) (i n : ℕ)
      → ((j : ℕ) → j < i + n → errs j ≡ error_of (outcome j))
      → item_errors errs i n ≡ errors_of outcome i n
  unfolding item_errors errors_of
  item_errors-errors_of outcome errs i zero h = refl
  item_errors-errors_of outcome errs i (suc n) h = ground (
    arith,
    h i (omega arith),
    item_errors-errors_of outcome errs (i + 1) n (λ j k. h j (omega (arith, k))),
  )

  In-errors_of :
      (outcome : ℕ → Outcome R) (i n j : ℕ) (e : Error)
      → i ≤ j
      → j < i + n
      → outcome j ≡ erred e
      → In e (errors_of outcome i n)
  unfolding errors_of
  In-errors_of outcome i zero j e h k o = absurd (omega (arith, h, k))
  In-errors_of outcome i (suc n) j e h k o = elim (Bool-cases (nat_beq i j)) [
    | inl b ↦
        let same : i ≡ j = ground (arith, b) in
        let head : error_of (outcome i) ≡ some e = rw (same, o) refl in ground (arith, head)
    | inr b ↦
        let m = In-errors_of outcome (i + 1) n j e (ground (arith, b)) (omega (arith, k)) o in
        ground (arith, m)
  ]

-- Errors that the collected ones hold already are passed over.
collect_missing-held :
    (message : Error → Text) (collected ps : List Error)
    → ((p : Error) → In p ps → In p collected)
    → collect_missing message collected ps ≡ collected
unfolding collect_missing
collect_missing-held message collected [] h = refl
collect_missing-held message collected (p ∷ ps) h =
    rw
      (any_complete (λ c. message c == message p) collected p (h p (inl refl))
        (beq_refl (message p)))
      (collect_missing-held message collected ps (λ q m. h q (inr m)))

item_errors-none :
    (errs : ℕ → Option Error) (i n : ℕ) → ((j : ℕ) → errs j ≡ none) → item_errors errs i n ≡ []
unfolding item_errors
item_errors-none errs i zero h = refl
item_errors-none errs i (suc n) h = ground (arith, h i, item_errors-none errs (i + 1) n h)

module _ {R : Type 0} {n : ℕ} {outcome : ℕ → Outcome R} {ctx_error : Error} {concurrency : ℤ}
    {s : Pool R} (r : Run n outcome ctx_error concurrency s) (closed : Closed n s)
    (c : s.cancelled ≡ false) where
  settled_results : (i : ℕ) → i < 0 + n → s.results i ≡ value_of (outcome i)
  settled_results i h =
      ground (arith, (run-Filled r).results i, run-ran_all i r closed c (omega (arith, h)))

  settled_errs : (i : ℕ) → i < 0 + n → s.errs i ≡ error_of (outcome i)
  settled_errs i h =
      ground (arith, (run-Filled r).errs c i, run-ran_all i r closed c (omega (arith, h)))

  errors-held :
      ((i : ℕ) (e : Error) → outcome i ≢ panicked e)
      → (p : Error) → In p s.errors
      → In p (errors_of outcome 0 n)
  errors-held calm p m =
      let (i, h, o) = run-Logged r c p m in
      elim o [
        | inl e ↦ In-errors_of outcome 0 n i p (omega arith) (ground (arith, run-ran i r, h)) e
        | inr e ↦ absurd (calm i p e)
      ]

  collected_errors :
      (message : Error → Text)
      → ((i : ℕ) (e : Error) → outcome i ≢ panicked e)
      → (if not s.has_error && not (has_items s.errors)
          then []
          else collect_missing message (item_errors s.errs 0 n) s.errors)
        ≡ errors_of outcome 0 n
  collected_errors message calm =
      let errors = item_errors-errors_of outcome s.errs 0 n settled_errs in
      elim (Bool-cases s.has_error) [
        | inr e ↦
            let none_found = item_errors-none s.errs 0 n ((run-Filled r).flagged e) in
            let held =
              collect_missing-held message (errors_of outcome 0 n) s.errors (errors-held calm) in
            ground (arith, none_found, errors, held)
        | inl e ↦ rw (e, errors) (collect_missing-held message _ s.errors (errors-held calm))
      ]

-- Where the context is not cancelled and no call of `fn` panics, ParallelMap returns in every run what
-- a loop over the items would: at each index the value for the item there, and no value where `fn`
-- failed, and the errors in the order of the items, whichever workers ran them and in which order.
pub parallel_map-outcomes :
    {R : Type 0} {n : ℕ} {outcome : ℕ → Outcome R} {ctx_error : Error} {concurrency : ℤ}
    {s : Pool R} (message : Error → Text)
    → Run n outcome ctx_error concurrency s
    → Closed n s
    → s.cancelled ≡ false
    → ((i : ℕ) (e : Error) → outcome i ≢ panicked e)
    → parallel_map message n s ≡ (values_of outcome 0 n, errors_of outcome 0 n)
parallel_map-outcomes {n = zero} message r closed c calm =
    unfold parallel_map values_of errors_of in refl
parallel_map-outcomes {n = suc n} {outcome} {s} message r closed c calm =
    let values = slice-values_of outcome s.results 0 (suc n) (settled_results r closed c) in
    unfold parallel_map in ap₂ (λ v e. (v, e)) values (collected_errors r closed c message calm)
