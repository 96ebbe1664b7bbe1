-- ===== src/Examples/Gitlab.antt =====
-- Runs of the paginated stream.
use gitlab_fleet_governor.Common.{
  ℕ, zero, suc, ◌+◌, ◌≤◌, ◌<◌, true, false, Option, some, none, List, [], ◌∷◌, map, ◌≡◌, ◌≢◌, refl,
  arith, ◌==◌, ◌&&◌, nat_eq, if◌then◌else◌, length, lookup,
}
use gitlab_fleet_governor.Common.Int.{ℤ, pos, negsuc, int_eq}
use gitlab_fleet_governor.Common.Text.{Text, codes, text_eq}
use gitlab_fleet_governor.Gitlab.Pagination.{
  page, PaginationOptions, Response, Parsers, Fetched, Watch, StreamItem, value, stream_all,
  parse_page_response, parse_link_header,
}
use gitlab_fleet_governor.Gitlab.Pagination.Ending.{rank, stream_all-ends}
use gitlab_fleet_governor.Gitlab.Pagination.Order.{Serves, items_from, stream_all-pages}

-- Numbers written in unary.
abbrev parsers : Parsers
parsers = record {
  atoi = λ s. if 0 == length s then none else some (pos (length s));
  split_commas = λ s. s ∷ [];
  find_link = λ s. none;
  query = λ s. none;
}

abbrev calm : ℕ → Watch
calm n = record { before = none; sending = none }

-- Two pages, of which the first names the second.
abbrev header_of : ℤ → Text → Text
header_of p name = if (name == codes "X-Next-Page") && (p == pos 1) then codes "||" else []

abbrev server : ℕ → PaginationOptions → Fetched ℕ
server n opt = record {
  items = if opt.page == pos 1 then 10 ∷ 11 ∷ [] else 12 ∷ [];
  resp = some (record { status_code = 200; header = header_of opt.page });
  error = none;
}

abbrev pages : ℕ → List ℕ
pages zero = 12 ∷ []
pages (suc zero) = 10 ∷ 11 ∷ []
pages (suc (suc k)) = 12 ∷ []

abbrev by_page : PaginationOptions
by_page = record { mode = page; page = pos 1; per_page = pos 100; id_after = pos 0 }

pages-filled : (k : ℕ) → 1 ≤ k → k ≤ 2 → pages k ≢ []
pages-filled zero from h e = ground (arith, e)
pages-filled (suc zero) from h e = ground (arith, e)
pages-filled (suc (suc k)) from h e = ground (arith, e)

server-answers :
    (n k : ℕ) (opt : PaginationOptions)
    → opt.mode ≡ page
    → opt.page ≡ pos k
    → 1 ≤ k
    → k ≤ 2
    → ((server n opt).items ≡ pages k) × ((server n opt).error ≡ none)
server-answers n zero opt in_pages at from known = ground (arith, from)
server-answers n (suc zero) opt in_pages at from known = rw at (refl, refl)
server-answers n (suc (suc k)) opt in_pages at from known = rw at (ground arith, refl)

server-goes_on :
    (n k : ℕ) (opt : PaginationOptions)
    → opt.mode ≡ page
    → opt.page ≡ pos k
    → 1 ≤ k
    → k < 2
    → ((parse_page_response parsers (server n opt).resp).has_next ≡ true)
      × ((parse_page_response parsers (server n opt).resp).next_page ≡ pos (k + 1))
unfolding parse_page_response parse_link_header lookup
server-goes_on n zero opt in_pages at from more = ground (arith, from)
server-goes_on n (suc zero) opt in_pages at from more = rw at (refl, refl)
server-goes_on n (suc (suc k)) opt in_pages at from more = ground (arith, more)

server-stops :
    (n : ℕ) (opt : PaginationOptions)
    → opt.mode ≡ page
    → opt.page ≡ pos 2
    → 1 ≤ 2
    → (parse_page_response parsers (server n opt).resp).has_next ≡ false
unfolding parse_page_response parse_link_header lookup
server-stops n opt in_pages at from = rw at refl

server-Serves : Serves parsers server pages 2
server-Serves = record {
  answers = server-answers;
  goes_on = server-goes_on;
  stops = server-stops;
  filled = pages-filled;
}

stream_all-pages_example :
    stream_all parsers server calm true 2 by_page ≡ some (map value (items_from pages 1 2))
stream_all-pages_example =
    stream_all-pages parsers server calm true pages 2 server-Serves (λ n. refl) by_page 2 refl refl
      (ground arith) (ground arith)

abbrev sent : List (StreamItem ℕ)
sent = value 10 ∷ value 11 ∷ value 12 ∷ []

answer_at : ℤ → Option Response
answer_at p = some (record { status_code = 200; header = header_of p })

bounded_at :
    (p : ℤ)
    → (rank (parse_page_response parsers (answer_at p)).next_page ≤ 2)
      × (rank (parse_page_response parsers (answer_at p)).next_id_after ≤ 2)
unfolding parse_page_response parse_link_header lookup answer_at
bounded_at (pos zero) = ground arith
bounded_at (pos (suc zero)) = ground arith
bounded_at (pos (suc (suc k))) = ground arith
bounded_at (negsuc k) = ground arith

server-bounded :
    (n : ℕ) (opt : PaginationOptions)
    → (rank (parse_page_response parsers (server n opt).resp).next_page ≤ 2)
      × (rank (parse_page_response parsers (server n opt).resp).next_id_after ≤ 2)
unfolding answer_at
server-bounded n opt = bounded_at opt.page

stream_all-ends_example : stream_all parsers server calm true 7 by_page ≢ none
stream_all-ends_example =
    stream_all-ends parsers server calm true 2 server-bounded by_page 7 (ground arith)
