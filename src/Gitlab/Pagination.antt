-- ===== src/Gitlab/Pagination.antt =====
-- internal/gitlab/pagination.go: streams of items over pages. What the server answers, the context
-- and Go's parsers are parameters; a channel is the list of what was sent on it.
pub mod Ending
pub mod Order
use gitlab_fleet_governor.Common.{
  ℕ, zero, suc, ◌+◌, Bool, true, false, Option, some, none, List, [], ◌∷◌, ◌++◌, map, not, ◌&&◌,
  ◌||◌, ◌==◌, if◌then◌else◌, lookup, insert, ◌≡◌, ◌⊎◌, inl, inr, refl, nat_beq, ltb,
}
use gitlab_fleet_governor.Common.Int.{ℤ, pos, negsuc, int_eq, ltb_ℤ}
use gitlab_fleet_governor.Common.Text.{Text, codes, text_eq, is_empty, to_lower, trim_space}
use gitlab_fleet_governor.Governance.Operation.{Error}

pub data PaginationMode : Type 0 where
  keyset page : PaginationMode

-- `PaginationOptions`, less what only the fetchers read.
pub record PaginationOptions : Type 0 where
  pub mode : PaginationMode
  pub page : ℤ
  pub per_page : ℤ
  pub id_after : ℤ

-- `PageResponse`, less the counters that nothing reads.
pub record PageResponse : Type 0 where
  pub next_page : ℤ
  pub next_url : Text
  pub next_id_after : ℤ
  pub has_next : Bool

-- `*http.Response`: the status, and `Header.Get`.
pub record Response : Type 0 where
  pub status_code : ℕ
  pub header : Text → Text

pub data StreamItem (A : Type 0) : Type 0 where
  value : A → StreamItem A
  err : Error → StreamItem A

-- `strconv.Atoi`, `strings.Split` at commas, the expression for a link (its target and its relation),
-- and the query of a URL that parses.
pub record Parsers : Type 0 where
  pub atoi : Text → Option ℤ
  pub split_commas : Text → List Text
  pub find_link : Text → Option (Text × Text)
  pub query : Text → Option (Text → Text)

module _ (go : Parsers) where
  abbrev pub parse_links : List Text → List (Text × Text) → List (Text × Text)
  parse_links [] links = links
  parse_links (part ∷ parts) links = elim (go.find_link (trim_space part)) [
    | none ↦ parse_links parts links
    | some (url, rel) ↦ parse_links parts (insert (to_lower rel) url links)
  ]

  unfoldable pub parse_link_header : Text → List (Text × Text)
  parse_link_header header = if is_empty header then [] else parse_links (go.split_commas header) []

  abbrev no_response : PageResponse
  no_response = record { next_page = pos 0; next_url = []; next_id_after = pos 0; has_next = false }

  -- The header `X-Next-Page`.
  abbrev next_page_header : Response → PageResponse
  next_page_header resp = elim (go.atoi (resp.header (codes "X-Next-Page"))) [
    | none ↦ no_response
    | some v ↦
        if ltb_ℤ (pos 0) v
        then record no_response { next_page = v; has_next = true }
        else no_response
  ]

  -- The fields `id_after` and `page` of the next page's address.
  abbrev read_query : (Text → Text) → PageResponse → PageResponse
  read_query q pr = record pr {
    next_id_after = elim (go.atoi (q (codes "id_after"))) [
      | none ↦ pr.next_id_after
      | some n ↦ if is_empty (q (codes "id_after")) then pr.next_id_after else n
    ];
    next_page = elim (go.atoi (q (codes "page"))) [
      | none ↦ pr.next_page
      | some n ↦
          if not (is_empty (q (codes "page"))) && (pr.next_page == pos 0) then n else pr.next_page
    ];
  }

  abbrev next_link : Text → PageResponse → PageResponse
  next_link url pr =
      let linked = record pr { next_url = url; has_next = true } in
      elim (go.query url) [ none ↦ linked | some q ↦ read_query q linked ]

  unfoldable pub parse_page_response : Option Response → PageResponse
  parse_page_response none = no_response
  parse_page_response (some resp) =
      elim (lookup (codes "next") (parse_link_header (resp.header (codes "Link")))) [
        | none ↦ next_page_header resp
        | some url ↦
            if is_empty url then next_page_header resp else next_link url (next_page_header resp)
      ]

-- The answer of a `PageFetcherFunc`.
pub record Fetched (A : Type 0) : Type 0 where
  pub items : List A
  pub resp : Option Response
  pub error : Option Error

-- What the context does in one round: it is done before the fetch, or while the items are sent, after
-- the first `k` of them.
pub record Watch : Type 0 where
  pub before : Option Error
  pub sending : Option (ℕ × Error)

-- The items that go out before the context is done, and its error where it is done before the last.
abbrev pub send_items : {A : Type 0} → Option (ℕ × Error) → List A → List A × Option Error
send_items none items = (items, none)
send_items (some (k, e)) [] = ([], none)
send_items (some (zero, e)) (x ∷ items) = ([], some e)
send_items (some (suc k, e)) (x ∷ items) =
    let (sent, stopped) = send_items (some (k, e)) items in (x ∷ sent, stopped)

-- Mode, page and cursor before the first fetch.
unfoldable pub normalize : PaginationOptions → PaginationOptions
normalize opt = record opt {
  per_page = if ltb_ℤ (pos 0) opt.per_page then opt.per_page else pos 100;
  page = if ltb_ℤ (pos 0) opt.page then opt.page else pos 1;
}

-- 400 Bad Request to a keyset query.
unfoldable pub falls_back : Bool → PaginationMode → Option Response → Bool
falls_back auto page resp = false
falls_back auto keyset none = false
falls_back auto keyset (some resp) = auto && nat_beq resp.status_code 400

abbrev pub fallback : PaginationOptions → PaginationOptions
fallback opt = record opt { mode = page; page = pos 1; id_after = pos 0 }

-- The termination checks after a page that had items: the options of the next fetch.
unfoldable pub advance : PaginationOptions → PageResponse → Option PaginationOptions
advance opt meta = elim opt.mode [
  | keyset ↦
      if not meta.has_next || is_empty meta.next_url
      then none
      else if ltb_ℤ (pos 0) meta.next_id_after && ltb_ℤ opt.id_after meta.next_id_after
      then some (record opt { id_after = meta.next_id_after })
      else none
  | page ↦
      if meta.has_next && ltb_ℤ opt.page meta.next_page
      then some (record opt { page = meta.next_page })
      else none
]

-- What a round of the loop decides: to go on with new options, or to end.
pub data Step (A : Type 0) : Type 0 where
  again : List A → PaginationOptions → Step A
  finish : List A → Option Error → Step A

abbrev pub last_item : {A : Type 0} → Option Error → List (StreamItem A)
last_item none = []
last_item (some e) = err e ∷ []

pub Step-cases :
    {A : Type 0} (s : Step A)
    → ((sent : List A) × (e : Option Error) × (s ≡ finish sent e))
      ⊎ ((sent : List A) × (opt : PaginationOptions) × (s ≡ again sent opt))
Step-cases (finish sent e) = inl (sent, e, refl)
Step-cases (again sent opt) = inr (sent, opt, refl)

-- The page arrived: its items go out, then the checks for the end.
unfoldable pub after_page :
    {A : Type 0} → PaginationOptions → List A → PageResponse → List A × Option Error → Step A
after_page opt items meta (sent, some e) = finish sent (some e)
after_page opt [] meta (sent, none) = finish sent none
after_page opt (x ∷ items) meta (sent, none) = elim (advance opt meta) [
  | none ↦ finish sent none
  | some opt' ↦ again sent opt'
]

module _ {A : Type 0} (go : Parsers) (fetch : ℕ → PaginationOptions → Fetched A) (watch : ℕ → Watch)
    (auto_fallback : Bool) where
  -- Round `n` of the loop.
  unfoldable pub stream_round : ℕ → PaginationOptions → Step A
  stream_round n opt = elim (watch n).before [
    | some e ↦ finish [] (some e)
    | none ↦
        let answer = fetch n opt in
        elim answer.error [
          | some e ↦
              if falls_back auto_fallback opt.mode answer.resp
              then again [] (fallback opt)
              else finish [] (some e)
          | none ↦
              after_page opt answer.items (parse_page_response go answer.resp)
                (send_items (watch n).sending answer.items)
        ]
  ]

  -- The loop of `StreamAll`; `none` is a loop that did not end.
  unfoldable pub stream_loop : ℕ → ℕ → PaginationOptions → Option (List (StreamItem A))
  stream_loop zero n opt = none
  stream_loop (suc fuel) n opt = elim (stream_round n opt) [
    | finish sent e ↦ some (map value sent ++ last_item e)
    | again sent opt' ↦ elim (stream_loop fuel (n + 1) opt') [
      | none ↦ none
      | some rest ↦ some (map value sent ++ rest)
    ]
  ]

  unfoldable pub stream_all : ℕ → PaginationOptions → Option (List (StreamItem A))
  stream_all fuel opt = stream_loop fuel 0 (normalize opt)

-- `CollectAll`: the values up to the first error, and that error.
unfoldable pub collect_all : {A : Type 0} → List (StreamItem A) → List A × Option Error
collect_all [] = ([], none)
collect_all (value x ∷ stream) = let (xs, e) = collect_all stream in (x ∷ xs, e)
collect_all (err e ∷ stream) = ([], some e)
