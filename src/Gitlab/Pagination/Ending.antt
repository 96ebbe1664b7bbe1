-- ===== src/Gitlab/Pagination/Ending.antt =====
-- The loop of internal/gitlab/pagination.go ends: its cursor and its page number only grow, and it
-- falls back to pages once.
use gitlab_fleet_governor.Common.{
  ℕ, zero, suc, ◌+◌, ◌-◌, ◌*◌, ◌≤◌, ◌<◌, Bool, true, Option, some, none, List, [], ◌∷◌, ◌≡◌, ◌≢◌,
  ◌⊎◌, inl, inr, refl, arith, Bool-cases, Option-cases,
}
use gitlab_fleet_governor.Common.Int.{ℤ, pos, negsuc, ltb_ℤ}
use gitlab_fleet_governor.Governance.Operation.{Error}
use gitlab_fleet_governor.Gitlab.Pagination.{
  PaginationMode, keyset, page, PaginationOptions, PageResponse, Response, Parsers, Fetched, Watch,
  again, normalize, falls_back, fallback, advance, after_page, stream_round, stream_loop,
  stream_all, parse_page_response, send_items, Step-cases,
}

abbrev pub rank : ℤ → ℕ
rank (pos n) = n
rank (negsuc n) = 0

abbrev Positive : PaginationOptions → Type 0
Positive opt = ltb_ℤ (pos 0) opt.page ≡ true

-- What the loop has still to do, where no answer names a cursor or a page above `bound`.
abbrev left_in : ℕ → PaginationMode → ℤ → ℤ → ℕ
left_in bound keyset p c = (bound + 1) + ((bound + 1) - rank c)
left_in bound page p c = (bound + 1) - rank p

abbrev left : ℕ → PaginationOptions → ℕ
left bound opt = left_in bound opt.mode opt.page opt.id_after

advance_in :
    (bound : ℕ) (mode : PaginationMode) (p per c : ℤ) (meta : PageResponse)
    (opt' : PaginationOptions)
    → rank meta.next_page ≤ bound
    → rank meta.next_id_after ≤ bound
    → ltb_ℤ (pos 0) p ≡ true
    → advance (record { mode = mode; page = p; per_page = per; id_after = c }) meta ≡ some opt'
    → Positive opt' × (left bound opt' < left_in bound mode p c)
unfolding advance
advance_in bound keyset p per c meta opt' b b' positive goes = ground (arith, goes)
advance_in bound page p per c meta opt' b b' positive goes = ground (arith, goes)

fallback_in :
    (bound : ℕ) (auto : Bool) (mode : PaginationMode) (p per c : ℤ) (resp : Option Response)
    → falls_back auto mode resp ≡ true
    → left bound (fallback (record { mode = mode; page = p; per_page = per; id_after = c }))
      < left_in bound mode p c
unfolding falls_back
fallback_in bound auto keyset p per c resp h = omega arith
fallback_in bound auto page p per c resp h = ground (arith, h)

normalize-Positive : (opt : PaginationOptions) → Positive (normalize opt)
unfolding normalize
normalize-Positive opt = ground arith

left-bound : (bound : ℕ) (mode : PaginationMode) (p c : ℤ) → left_in bound mode p c ≤ 2 * bound + 2
left-bound bound keyset p c = omega arith
left-bound bound page p c = omega arith

after_page-again :
    {A : Type 0} (opt opt' : PaginationOptions) (items sent' : List A) (meta : PageResponse)
    (out : List A × Option Error)
    → after_page opt items meta out ≡ again sent' opt'
    → advance opt meta ≡ some opt'
unfolding after_page
after_page-again opt opt' items sent' meta (sent, some e) h = ground (arith, h)
after_page-again opt opt' [] sent' meta (sent, none) h = ground (arith, h)
after_page-again opt opt' (x ∷ items) sent' meta (sent, none) h =
    elim (Option-cases (advance opt meta)) [
      | inl ends ↦ ground (arith, ends, h)
      | inr (next, goes) ↦ ground (arith, goes, h)
    ]

module _ {A : Type 0} (go : Parsers) (fetch : ℕ → PaginationOptions → Fetched A) (watch : ℕ → Watch)
    (auto_fallback : Bool) where
  stream_round-again :
      (n : ℕ) (opt opt' : PaginationOptions) (sent : List A)
      → stream_round go fetch watch auto_fallback n opt ≡ again sent opt'
      → ((falls_back auto_fallback opt.mode (fetch n opt).resp ≡ true) × (opt' ≡ fallback opt))
        ⊎ (advance opt (parse_page_response go (fetch n opt).resp) ≡ some opt')
  unfolding stream_round
  stream_round-again n opt opt' sent h = elim (Option-cases (watch n).before) [
    | inr (e, late) ↦ ground (arith, late, h)
    | inl runs ↦ elim (Option-cases (fetch n opt).error) [
      | inr (e, fails) ↦ elim (Bool-cases (falls_back auto_fallback opt.mode (fetch n opt).resp)) [
        | inl back ↦ inl (back, ground (arith, runs, fails, back, h))
        | inr stays ↦ ground (arith, runs, fails, stays, h)
      ]
      | inl arrives ↦ inr (
          after_page-again opt opt' (fetch n opt).items sent
            (parse_page_response go (fetch n opt).resp)
            (send_items (watch n).sending (fetch n opt).items) (ground (arith, runs, arrives, h)))
    ]
  ]

  module _ (bound : ℕ)
      (bounded : (n : ℕ) (opt : PaginationOptions)
        → (rank (parse_page_response go (fetch n opt).resp).next_page ≤ bound)
          × (rank (parse_page_response go (fetch n opt).resp).next_id_after ≤ bound)) where
    round-left :
        (n : ℕ) (opt opt' : PaginationOptions) (sent : List A)
        → Positive opt
        → stream_round go fetch watch auto_fallback n opt ≡ again sent opt'
        → Positive opt' × (left bound opt' < left bound opt)
    round-left n opt opt' sent positive goes = elim (stream_round-again n opt opt' sent goes) [
      | inl (back, same) ↦ rw same (
        refl,
        fallback_in bound auto_fallback opt.mode opt.page opt.per_page opt.id_after
            (fetch n opt).resp back,
      )
      | inr next ↦
          advance_in bound opt.mode opt.page opt.per_page opt.id_after
            (parse_page_response go (fetch n opt).resp) opt' (bounded n opt).0 (bounded n opt).1
            positive next
    ]

    stream_loop-ends :
        (fuel n : ℕ) (opt : PaginationOptions)
        → Positive opt
        → left bound opt < fuel
        → stream_loop go fetch watch auto_fallback fuel n opt ≢ none
    unfolding stream_loop
    stream_loop-ends zero n opt positive enough h = ground (arith, enough)
    stream_loop-ends (suc fuel) n opt positive enough h =
        elim (Step-cases (stream_round go fetch watch auto_fallback n opt)) [
          | inl (sent, e, ends) ↦ ground (arith, ends, h)
          | inr (sent, opt', goes) ↦
              elim (Option-cases (stream_loop go fetch watch auto_fallback fuel (n + 1) opt')) [
                | inr (rest, done) ↦ ground (arith, goes, done, h)
                | inl stuck ↦
                    let (positive', less) = round-left n opt opt' sent positive goes in
                    stream_loop-ends fuel (n + 1) opt' positive' (omega (arith, less, enough)) stuck
              ]
        ]

    -- Where no answer names a cursor or a page above the bound, the stream ends within
    -- `2 * bound + 3` fetches, whatever the answers, the errors and the context do.
    pub stream_all-ends :
        (opt : PaginationOptions) (fuel : ℕ)
        → 2 * bound + 3 ≤ fuel
        → stream_all go fetch watch auto_fallback fuel opt ≢ none
    unfolding stream_all
    stream_all-ends opt fuel enough =
        stream_loop-ends fuel 0 (normalize opt) (normalize-Positive opt) (
          omega (
            arith,
            left-bound bound (normalize opt).mode (normalize opt).page (normalize opt).id_after,
            enough,
          ))
