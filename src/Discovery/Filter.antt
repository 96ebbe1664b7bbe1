-- ===== src/Discovery/Filter.antt =====
-- internal/discovery/projectfilter.go: the filter that a project has to pass. The texts of `Reason`
-- are left out; compiling a regular expression is the parameter `compile` of `new_project_filter`.
pub mod Namespace
pub mod Topics
pub mod Matching
use gitlab_fleet_governor.Common.{
  ℕ, suc, Bool, true, false, Option, some, none, List, [], ◌∷◌, ◌++◌, map, not, ◌&&◌, ◌||◌, ◌==◌,
  if◌then◌else◌, any, contains,
}
use gitlab_fleet_governor.Common.Int.{ℤ, pos, ltb_ℤ}
use gitlab_fleet_governor.Common.Text.{
  Text, text_eq, codes, is_empty, to_lower, trim, trim_space, is_slash, has_prefix,
  before_last_slash, replace_all,
}
use gitlab_fleet_governor.Resources.{Project}
use gitlab_fleet_governor.Governance.Operation.{has_items}

-- `config.IDRange`
pub record IdRange : Type 0 where
  pub min : ℤ
  pub max : ℤ

-- `config.ProjectSelector`, the fields that the filter reads.
pub record ProjectSelector : Type 0 where
  pub namespaces_include : List Text
  pub namespaces_exclude : List Text
  pub project_name_regex_include : Text
  pub project_name_regex_exclude : Text
  pub topics_include : List Text
  pub topics_exclude : List Text
  pub visibility : Text
  pub archived : Option Bool
  pub exclude_marked_for_deletion : Option Bool
  pub id_range : Option IdRange

pub data FilterDecision : Type 0 where
  matched excluded_namespace excluded_regex excluded_topic : FilterDecision
  missing_namespace missing_regex missing_topic : FilterDecision
  mismatch_visibility mismatch_archived mismatch_marked_for_deletion : FilterDecision
  mismatch_id_range nil_project : FilterDecision

pub record FilterResult : Type 0 where
  pub is_match : Bool
  pub decision : FilterDecision
  pub matched_rule : Text

-- `*regexp.Regexp`: its source, and `MatchString`.
pub record Regexp : Type 0 where
  pub pattern_text : Text
  pub match_string : Text → Bool

pub record ProjectFilter : Type 0 where
  pub namespaces_include : List Text
  pub namespaces_exclude : List Text
  pub regex_include : Option Regexp
  pub regex_exclude : Option Regexp
  pub topics_include : List Text
  pub topics_exclude : List Text
  pub visibility : Text
  pub archived : Option Bool
  pub exclude_marked_for_deletion : Option Bool
  pub id_range : Option IdRange

-- `strings.Trim(strings.ToLower(ns), "/")`
unfoldable pub clean_namespace : Text → Text
clean_namespace ns = trim is_slash (to_lower ns)

-- `strings.TrimSpace(strings.ToLower(topic))`
unfoldable pub clean_topic : Text → Text
clean_topic topic = trim_space (to_lower topic)

-- Normalised texts, the blank ones left out.
unfoldable pub clean_all : (Text → Text) → List Text → List Text
clean_all clean [] = []
clean_all clean (t ∷ ts) =
    let rest = clean_all clean ts in if is_empty (clean t) then rest else clean t ∷ rest

-- `pf.topicsInclude[t] = struct{}{}` for each topic: a set.
unfoldable pub topic_set : List Text → List Text
topic_set [] = []
topic_set (t ∷ ts) =
    let rest = topic_set ts in
    if is_empty (clean_topic t) || contains (clean_topic t) rest then rest else clean_topic t ∷ rest

pub data FilterError : Type 0 where
  invalid_regex_include invalid_regex_exclude : Text → FilterError

pub data Built : Type 0 where
  built : ProjectFilter → Built
  refused : FilterError → Built

abbrev pub empty_filter : ProjectFilter
empty_filter = record {
  namespaces_include = [];
  namespaces_exclude = [];
  regex_include = none;
  regex_exclude = none;
  topics_include = [];
  topics_exclude = [];
  visibility = [];
  archived = none;
  exclude_marked_for_deletion = none;
  id_range = none;
}

module _ (compile : Text → Option Regexp) where
  -- A blank pattern asks nothing; `none` is a pattern that does not compile.
  unfoldable pub compile_pattern : Text → Option (Option Regexp)
  compile_pattern source =
      if is_empty (trim_space source)
      then some none
      else elim (compile source) [ some re ↦ some (some re) | none ↦ none ]

  unfoldable pub new_project_filter : Option ProjectSelector → Built
  new_project_filter none = built empty_filter
  new_project_filter (some sel) = elim (compile_pattern sel.project_name_regex_include) [
    | none ↦ refused (invalid_regex_include sel.project_name_regex_include)
    | some inc ↦ elim (compile_pattern sel.project_name_regex_exclude) [
      | none ↦ refused (invalid_regex_exclude sel.project_name_regex_exclude)
      | some exc ↦ built (record {
        namespaces_include = clean_all clean_namespace sel.namespaces_include;
        namespaces_exclude = clean_all clean_namespace sel.namespaces_exclude;
        regex_include = inc;
        regex_exclude = exc;
        topics_include = topic_set sel.topics_include;
        topics_exclude = topic_set sel.topics_exclude;
        visibility = to_lower (trim_space sel.visibility);
        archived = sel.archived;
        exclude_marked_for_deletion = sel.exclude_marked_for_deletion;
        id_range = sel.id_range;
      })
    ]
  ]

unfoldable pub extract_project_namespace : Project → Text
extract_project_namespace p = elim p.namespace [
  | some (c ∷ path) ↦ clean_namespace (c ∷ path)
  | _ ↦ elim (before_last_slash p.path_with_namespace) [
    | some dir ↦ clean_namespace dir
    | none ↦ []
  ]
]

-- The closure `add`, over the topics found so far, which are also its map `seen`.
unfoldable pub add_topics : List Text → List Text → List Text
add_topics topics [] = topics
add_topics topics (item ∷ items) =
    let t = clean_topic item in
    add_topics (if not (is_empty t) && not (contains t topics) then topics ++ t ∷ [] else topics)
      items

unfoldable pub extract_project_topics : Project → List Text
extract_project_topics p = add_topics (add_topics [] p.topics) p.tag_list

unfoldable pub match_namespace : Text → Text → Bool
match_namespace proj_ns target_ns =
    let proj = clean_namespace proj_ns in
    let target = clean_namespace target_ns in
    if is_empty proj || is_empty target
    then proj == target
    else if proj == target
    then true
    else has_prefix proj (target ++ codes "/")

unfoldable pub regex_candidates : Project → List Text
regex_candidates p =
    p.name
    ∷ to_lower p.name
    ∷ p.path
    ∷ to_lower p.path
    ∷ p.path_with_namespace
    ∷ to_lower p.path_with_namespace
    ∷ replace_all (to_lower p.name) (codes " - ") (codes "-")
    ∷ replace_all (to_lower p.name) (codes " ") (codes "-")
    ∷ []

unfoldable pub match_project_regex : Regexp → Project → Bool
match_project_regex re p = any (λ c. not (is_empty c) && re.match_string c) (regex_candidates p)

abbrev pub reject : FilterDecision → FilterResult
reject decision = record { is_match = false; decision = decision; matched_rule = [] }

abbrev pub reject_by : FilterDecision → Text → FilterResult
reject_by decision rule = record { is_match = false; decision = decision; matched_rule = rule }

abbrev pub accept : FilterResult
accept = record { is_match = true; decision = FilterDecision.matched; matched_rule = [] }

-- Step 1
abbrev pub archived_mismatch : ProjectFilter → Project → Bool
archived_mismatch pf p = elim pf.archived [
  | none ↦ false
  | some b ↦ if b then not p.archived else p.archived
]

-- Step 1b
abbrev pub should_exclude_marked : ProjectFilter → Bool
should_exclude_marked pf = elim pf.exclude_marked_for_deletion [
  | some b ↦ b
  | none ↦ elim pf.archived [ none ↦ false | some b ↦ not b ]
]

abbrev pub marked : Project → Bool
marked p = elim p.marked_for_deletion_at [ none ↦ false | some t ↦ true ]

-- Step 2
abbrev pub visibility_mismatch : ProjectFilter → Project → Bool
visibility_mismatch pf p =
    not (is_empty pf.visibility)
    && not (pf.visibility == codes "any")
    && not (to_lower p.visibility == pf.visibility)

-- Step 3
abbrev pub outside : ℤ → Option IdRange → Bool
outside id none = false
outside id (some r) = ltb_ℤ (pos 0) r.min && ltb_ℤ id r.min || ltb_ℤ (pos 0) r.max && ltb_ℤ r.max id

abbrev pub out_of_range : ProjectFilter → Project → Bool
out_of_range pf p = outside p.id pf.id_range

-- The first item that passes the test, of a loop that returns at it.
abbrev pub first {ℓ} : {A : Type ℓ} → (A → Bool) → List A → Option A
first test [] = none
first test (x ∷ xs) = let rest = first test xs in if test x then some x else rest

abbrev pub regex_hits : Option Regexp → Project → Bool
regex_hits none p = false
regex_hits (some re) p = match_project_regex re p

abbrev pub regex_source : Option Regexp → Text
regex_source none = []
regex_source (some re) = re.pattern_text

abbrev pub regex_misses : Option Regexp → Project → Bool
regex_misses none p = false
regex_misses (some re) p = not (match_project_regex re p)

-- Steps 7 to 9
unfoldable pub check_includes : ProjectFilter → Project → FilterResult
check_includes pf p =
    if has_items pf.namespaces_include
      && not (any (match_namespace (extract_project_namespace p)) pf.namespaces_include)
    then reject FilterDecision.missing_namespace
    else if regex_misses pf.regex_include p
    then reject FilterDecision.missing_regex
    else if has_items pf.topics_include
        && not (any (λ t. contains t pf.topics_include) (extract_project_topics p))
    then reject FilterDecision.missing_topic
    else accept

-- Steps 4 to 6, and then the others
unfoldable pub check_excludes : ProjectFilter → Project → FilterResult
check_excludes pf p =
    elim (first (match_namespace (extract_project_namespace p)) pf.namespaces_exclude) [
      | some rule ↦ reject_by FilterDecision.excluded_namespace rule
      | none ↦
          if regex_hits pf.regex_exclude p
          then reject_by FilterDecision.excluded_regex (regex_source pf.regex_exclude)
          else elim (first (λ t. contains t pf.topics_exclude) (extract_project_topics p)) [
            | some t ↦ reject_by FilterDecision.excluded_topic t
            | none ↦ check_includes pf p
          ]
    ]

-- Steps 1 to 3, in order: the outcomes of their tests, and the result of the later steps.
unfoldable pub checks :
    (archived marked_out hidden outside_range : Bool) → FilterResult → FilterResult
checks archived marked_out hidden outside_range later =
    if archived
    then reject FilterDecision.mismatch_archived
    else if marked_out
    then reject FilterDecision.mismatch_marked_for_deletion
    else if hidden
    then reject FilterDecision.mismatch_visibility
    else if outside_range
    then reject FilterDecision.mismatch_id_range
    else later

unfoldable pub evaluate : Option ProjectFilter → Option Project → FilterResult
evaluate pf none = reject FilterDecision.nil_project
evaluate none (some p) = accept
evaluate (some pf) (some p) =
    checks (archived_mismatch pf p) (should_exclude_marked pf && marked p)
      (visibility_mismatch pf p) (out_of_range pf p) (check_excludes pf p)

-- `Matches`
unfoldable pub matches : Option ProjectFilter → Option Project → Bool
matches pf p = (evaluate pf p).is_match
