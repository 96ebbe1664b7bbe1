-- ===== src/Gitlab/Pagination/Order.antt =====
-- What internal/gitlab/pagination.go sends: items in the order of the server, and an error last.
use mathlib.Core.List.{append_assoc, append-nil}
use gitlab_fleet_governor.Common.{
  ℕ, zero, suc, ◌+◌, ◌-◌, ◌≤◌, ◌<◌, Bool, true, false, Option, some, none, List, [], ◌∷◌, ◌++◌, map,
  ◌≡◌, ◌≢◌, inl, inr, refl, ap, subst, arith, Option-cases,
}
use gitlab_fleet_governor.Common.Int.{pos}
use gitlab_fleet_governor.Governance.Operation.{Error}
use gitlab_fleet_governor.Gitlab.Pagination.{
  page, PaginationOptions, PageResponse, Parsers, Fetched, Watch, again, finish, Step-cases,
  StreamItem, value, err, last_item, advance, after_page, stream_round, stream_loop, stream_all,
  parse_page_response, collect_all, normalize,
}

collect_all-values :
    {A : Type 0} (xs : List A) (rest : List (StreamItem A))
    → collect_all (map value xs ++ rest) ≡ (xs ++ (collect_all rest).0, (collect_all rest).1)
unfolding collect_all
collect_all-values [] rest = refl
collect_all-values (x ∷ xs) rest = rw (collect_all-values xs rest) refl

map-append : {A B : Type 0} (f : A → B) (xs ys : List A) → map f (xs ++ ys) ≡ map f xs ++ map f ys
map-append f [] ys = refl
map-append f (x ∷ xs) ys = ap (◌∷◌ (f x)) (map-append f xs ys)

collect_all-last :
    {A : Type 0} (xs : List A) (e : Option Error)
    → collect_all (map value xs ++ last_item e) ≡ (xs, e)
unfolding collect_all
collect_all-last xs none = rw (collect_all-values xs [], append-nil xs) refl
collect_all-last xs (some e) = rw (collect_all-values xs (err e ∷ []), append-nil xs) refl

module _ {A : Type 0} (go : Parsers) (fetch : ℕ → PaginationOptions → Fetched A) (watch : ℕ → Watch)
    (auto_fallback : Bool) where
  -- The values of a stream, then an error or none.
  abbrev Shape : List (StreamItem A) → List A → Option Error → Type 0
  Shape out xs e = out ≡ map value xs ++ last_item e

  stream_loop-Shape :
      (fuel n : ℕ) (opt : PaginationOptions) (out : List (StreamItem A))
      → stream_loop go fetch watch auto_fallback fuel n opt ≡ some out
      → (xs : List A) × (e : Option Error) × Shape out xs e
  unfolding stream_loop
  stream_loop-Shape zero n opt out h = ground (arith, h)
  stream_loop-Shape (suc fuel) n opt out h =
      elim (Step-cases (stream_round go fetch watch auto_fallback n opt)) [
        | inl (sent, e, ends) ↦ (sent, e, ground (arith, ends, h))
        | inr (sent, opt', goes) ↦
            elim (Option-cases (stream_loop go fetch watch auto_fallback fuel (n + 1) opt')) [
              | inl dead ↦ ground (arith, goes, dead, h)
              | inr (rest, done) ↦
                  let (xs, e, shape) = stream_loop-Shape fuel (n + 1) opt' rest done in
                  (
                    sent ++ xs,
                    e,
                    ground (
                      arith,
                      goes,
                      done,
                      h,
                      shape,
                      map-append value sent xs,
                      append_assoc (map value sent) (map value xs) (last_item e),
                    ),
                  )
            ]
      ]

  -- A stream holds values and, at its end only, at most one error; collecting it gives these.
  pub collect_all-stream_all :
      (fuel : ℕ) (opt : PaginationOptions) (out : List (StreamItem A))
      → stream_all go fetch watch auto_fallback fuel opt ≡ some out
      → out ≡ map value (collect_all out).0 ++ last_item (collect_all out).1
  unfolding stream_all
  collect_all-stream_all fuel opt out h =
      let (xs, e, shape) = stream_loop-Shape fuel 0 (normalize opt) out h in
      rw (shape, collect_all-last xs e) refl

-- The items of pages `k`, `k + 1`, …, `r` of them.
abbrev pub items_from : {A : Type 0} → (ℕ → List A) → ℕ → ℕ → List A
items_from pages k zero = []
items_from pages k (suc r) = pages k ++ items_from pages (k + 1) r

-- A server that has pages 1 to `last`, none of them empty: a query for one of them is answered with
-- its items, and names the next page unless it is the last.
pub record Serves {A : Type 0} (go : Parsers) (fetch : ℕ → PaginationOptions → Fetched A)
    (pages : ℕ → List A) (last : ℕ) : Type 0 where
  pub answers :
      (n k : ℕ) (opt : PaginationOptions)
      → opt.mode ≡ page
      → opt.page ≡ pos k
      → 1 ≤ k
      → k ≤ last
      → ((fetch n opt).items ≡ pages k) × ((fetch n opt).error ≡ none)
  pub goes_on :
      (n k : ℕ) (opt : PaginationOptions)
      → opt.mode ≡ page
      → opt.page ≡ pos k
      → 1 ≤ k
      → k < last
      → ((parse_page_response go (fetch n opt).resp).has_next ≡ true)
        × ((parse_page_response go (fetch n opt).resp).next_page ≡ pos (k + 1))
  pub stops :
      (n : ℕ) (opt : PaginationOptions)
      → opt.mode ≡ page
      → opt.page ≡ pos last
      → 1 ≤ last
      → (parse_page_response go (fetch n opt).resp).has_next ≡ false
  pub filled : (k : ℕ) → 1 ≤ k → k ≤ last → pages k ≢ []

after_page-filled :
    {A : Type 0} (opt : PaginationOptions) (items : List A) (meta : PageResponse)
    → items ≢ []
    → after_page opt items meta (items, none)
      ≡ elim (advance opt meta) [ none ↦ finish items none | some opt' ↦ again items opt' ]
unfolding after_page
after_page-filled opt [] meta filled = absurd (filled refl)
after_page-filled opt (x ∷ items) meta filled = refl

module _ {A : Type 0} (go : Parsers) (fetch : ℕ → PaginationOptions → Fetched A) (watch : ℕ → Watch)
    (auto_fallback : Bool) (pages : ℕ → List A) (last : ℕ) (server : Serves go fetch pages last)
    (calm : (n : ℕ) → watch n ≡ record { before = none; sending = none }) where
  round-arrives :
      (n k : ℕ) (opt : PaginationOptions)
      → opt.mode ≡ page
      → opt.page ≡ pos k
      → 1 ≤ k
      → k ≤ last
      → stream_round go fetch watch auto_fallback n opt
        ≡ after_page opt (pages k) (parse_page_response go (fetch n opt).resp) (pages k, none)
  unfolding stream_round
  round-arrives n k opt in_pages at from known =
      let (items, fine) = server.answers n k opt in_pages at from known in
      ground (arith, calm n, items, fine)

  round-goes :
      (n k : ℕ) (opt : PaginationOptions)
      → opt.mode ≡ page
      → opt.page ≡ pos k
      → 1 ≤ k
      → k < last
      → stream_round go fetch watch auto_fallback n opt
        ≡ again (pages k) (record opt { page = pos (k + 1) })
  unfolding advance
  round-goes n k opt in_pages at from more =
      let (next, number) = server.goes_on n k opt in_pages at from more in
      let arrives = round-arrives n k opt in_pages at from (omega (arith, more)) in
      let filled =
        after_page-filled opt (pages k) (parse_page_response go (fetch n opt).resp)
          (server.filled k from (omega (arith, more))) in
      ground (arith, arrives, filled, next, number, in_pages, at)

  round-stops :
      (n : ℕ) (opt : PaginationOptions)
      → opt.mode ≡ page
      → opt.page ≡ pos last
      → 1 ≤ last
      → stream_round go fetch watch auto_fallback n opt ≡ finish (pages last) none
  unfolding advance
  round-stops n opt in_pages at from =
      let arrives = round-arrives n last opt in_pages at from (omega arith) in
      let filled =
        after_page-filled opt (pages last) (parse_page_response go (fetch n opt).resp)
          (server.filled last from (omega arith)) in
      ground (arith, arrives, filled, server.stops n opt in_pages at from, in_pages)

  stream_loop-pages :
      (r n k fuel : ℕ) (opt : PaginationOptions)
      → opt.mode ≡ page
      → opt.page ≡ pos k
      → 1 ≤ k
      → k + r ≡ last
      → r < fuel
      → stream_loop go fetch watch auto_fallback fuel n opt
        ≡ some (map value (items_from pages k (r + 1)))
  unfolding stream_loop
  stream_loop-pages r n k zero opt in_pages at from sum enough = ground (arith, enough)
  stream_loop-pages zero n k (suc fuel) opt in_pages at from sum enough =
      let here : k ≡ last = omega (arith, sum) in
      ground (
        arith,
        round-stops n opt in_pages (rw (← here) at) (omega (arith, from, here)),
        here,
        append-nil (map value (pages k)),
        append-nil (pages k),
      )
  stream_loop-pages (suc r) n k (suc fuel) opt in_pages at from sum enough =
      let goes = round-goes n k opt in_pages at from (omega (arith, sum)) in
      let later =
        stream_loop-pages r (n + 1) (k + 1) fuel (record opt { page = pos (k + 1) }) in_pages refl
          (omega (arith, from)) (omega (arith, sum)) (omega (arith, enough)) in
      ground (arith, goes, later, map-append value (pages k) (items_from pages (k + 1) (r + 1)))

  -- In page mode from page 1 on, of a server with pages 1 to `last` and none of them empty, and with
  -- the context never done, the stream ends within `last` fetches and holds all items of the pages,
  -- in the order of the pages, and no error.
  pub stream_all-pages :
      (opt : PaginationOptions) (fuel : ℕ)
      → opt.mode ≡ page
      → opt.page ≡ pos 1
      → 1 ≤ last
      → last ≤ fuel
      → stream_all go fetch watch auto_fallback fuel opt
        ≡ some (map value (items_from pages 1 last))
  unfolding stream_all normalize
  stream_all-pages opt fuel in_pages at some_page enough =
      let whole : ((last - 1) + 1 ≡ last) = omega (arith, some_page) in
      let first : ((normalize opt).page ≡ pos 1) = ground (arith, at) in
      subst
        (λ m.
          stream_loop go fetch watch auto_fallback fuel 0 (normalize opt)
          ≡ some (map value (items_from pages 1 m)))
        whole
        (stream_loop-pages (last - 1) 0 1 fuel (normalize opt) in_pages first (omega arith)
          (omega (arith, some_page)) (omega (arith, some_page, enough)))
