-- ===== src/Discovery/Groups.antt =====
-- internal/discovery/grouptree.go: the group selector and the breadth-first walk over the tree of
-- groups. The GitLab client is a parameter: what it answers does not change during a walk.
pub mod Selector
pub mod Walk
use gitlab_fleet_governor.Common.{
  ℕ, zero, suc, ◌+◌, Bool, true, false, Option, some, none, List, [], ◌∷◌, ◌++◌, not, ◌&&◌, ◌||◌,
  ◌==◌, if◌then◌else◌, contains, ltb, nat_beq,
}
use gitlab_fleet_governor.Common.Int.{ℤ, pos, int_eq}
use gitlab_fleet_governor.Common.Text.{Text, text_eq, codes, is_empty, to_lower, trim, is_slash}
use gitlab_fleet_governor.Resources.{Group}
use gitlab_fleet_governor.Governance.Operation.{Error, wrapped, has_items}
pub use gitlab_fleet_governor.Governance.Operation.{Reply, ok, fail}

-- `config.GroupSelector`
pub record GroupSelector : Type 0 where
  pub group_ids_include : List ℤ
  pub group_ids_exclude : List ℤ
  pub group_paths_include : List Text
  pub group_paths_exclude : List Text
  pub recursive : Option Bool

pub record DiscoveredGroup : Type 0 where
  pub id : ℤ
  pub name : Text
  pub path : Text
  pub full_path : Text
  pub parent_id : ℤ
  pub root_parent_id : ℤ
  pub depth : ℕ
  pub visibility : Text
  pub description : Text
  pub web_url : Text
  pub raw : Group

-- The maps to `true` are sets: their keys.
pub record GroupSelectorEvaluator : Type 0 where
  pub include_ids : List ℤ
  pub exclude_ids : List ℤ
  pub include_paths : List Text
  pub exclude_paths : List Text
  pub has_includes : Bool
  pub recursive : Bool

-- `strings.Trim(strings.ToLower(p), "/")`
unfoldable pub clean_path : Text → Text
clean_path p = trim is_slash (to_lower p)

unfoldable pub clean_paths : List Text → List Text
clean_paths [] = []
clean_paths (p ∷ ps) =
    let rest = clean_paths ps in if is_empty (clean_path p) then rest else clean_path p ∷ rest

abbrev pub or_else : Option Bool → Bool → Bool
or_else none d = d
or_else (some b) d = b

unfoldable pub new_group_selector_evaluator : Option GroupSelector → GroupSelectorEvaluator
new_group_selector_evaluator none = record {
  include_ids = [];
  exclude_ids = [];
  include_paths = [];
  exclude_paths = [];
  has_includes = false;
  recursive = true;
}
new_group_selector_evaluator (some sel) = record {
  include_ids = sel.group_ids_include;
  exclude_ids = sel.group_ids_exclude;
  include_paths = clean_paths sel.group_paths_include;
  exclude_paths = clean_paths sel.group_paths_exclude;
  has_includes = has_items sel.group_ids_include || has_items (clean_paths sel.group_paths_include);
  recursive = or_else sel.recursive true;
}

abbrev pub excludes_group : GroupSelectorEvaluator → Group → Bool
excludes_group e g =
    contains g.id e.exclude_ids || contains (clean_path g.full_path) e.exclude_paths

-- `Matches`
unfoldable pub matches : GroupSelectorEvaluator → Option Group → Bool
matches e none = false
matches e (some g) =
    if excludes_group e g
    then false
    else if not e.has_includes
    then true
    else contains g.id e.include_ids || contains (clean_path g.full_path) e.include_paths

unfoldable pub is_excluded : GroupSelectorEvaluator → Option Group → Bool
is_excluded e none = true
is_excluded e (some g) = excludes_group e g

-- `NormalizeGroup` of a pointer that is not nil.
unfoldable pub normalize_group : Group → ℕ → ℤ → DiscoveredGroup
normalize_group raw depth root = record {
  id = raw.id;
  name = raw.name;
  path = raw.path;
  full_path = raw.full_path;
  parent_id = raw.parent_id;
  root_parent_id = root;
  depth = depth;
  visibility = raw.visibility;
  description = raw.description;
  web_url = raw.web_url;
  raw = raw;
}

-- `queueItem`
pub record QueueItem : Type 0 where
  pub group : Group
  pub depth : ℕ
  pub root_parent_id : ℤ

-- `visited`, `queue[head:]` and `matchedGroups`
pub record Progress : Type 0 where
  pub visited : List ℤ
  pub pending : List QueueItem
  pub found : List DiscoveredGroup

pub data Outcome : Type 0 where
  found : List DiscoveredGroup → Outcome
  failed : Error → Outcome
  out_of_fuel : Outcome

-- A group that was not visited yet is marked and queued; a nil pointer is passed over.
unfoldable pub offer : ℕ → ℤ → Progress → Option Group → Progress
offer depth root s none = s
offer depth root s (some g) = if contains g.id s.visited then s else record s {
  visited = g.id ∷ s.visited;
  pending = s.pending ++ record { group = g; depth = depth; root_parent_id = root } ∷ [];
}

unfoldable pub offer_children : ℕ → ℤ → Progress → List (Option Group) → Progress
offer_children depth root s [] = s
offer_children depth root s (g ∷ gs) = offer_children depth root (offer depth root s g) gs

-- The loop over the roots: each is its own root, at depth 0.
unfoldable pub offer_roots : Progress → List (Option Group) → Progress
offer_roots s [] = s
offer_roots s (none ∷ gs) = offer_roots s gs
offer_roots s (some g ∷ gs) = offer_roots (offer 0 g.id s (some g)) gs

abbrev pub start : Progress
start = record { visited = []; pending = []; found = [] }

-- Phase 2: the item that left the queue is listed unless it is excluded.
unfoldable pub list_item : GroupSelectorEvaluator → Progress → QueueItem → List QueueItem → Progress
list_item e s item rest = record s {
  pending = rest;
  found =
      if is_excluded e (some item.group)
      then s.found
      else s.found ++ normalize_group item.group item.depth item.root_parent_id ∷ [];
}

-- `curr.rootParentID`, or the group itself where that is 0.
abbrev pub root_of : QueueItem → ℤ
root_of item = if item.root_parent_id == pos 0 then item.group.id else item.root_parent_id

abbrev pub expands : ℕ → GroupSelectorEvaluator → QueueItem → Bool
expands max_depth e item = e.recursive && (nat_beq max_depth 0 || ltb item.depth max_depth)

-- Phase 3, on the answer of `listAllSubgroups`.
unfoldable pub expand : Progress → QueueItem → Reply (List (Option Group)) → Reply Progress
expand s item (ok children) = ok (offer_children (item.depth + 1) (root_of item) s children)
expand s item (fail err) = fail (wrapped (codes "failed to list subgroups for group") err)

module _ (subgroups : ℤ → Reply (List (Option Group))) (max_depth : ℕ)
    (e : GroupSelectorEvaluator) where
  -- One round of the loop.
  unfoldable pub round : Progress → QueueItem → List QueueItem → Reply Progress
  round s item rest =
      let s' = list_item e s item rest in
      if expands max_depth e item then expand s' item (subgroups item.group.id) else ok s'

  -- `canceled n` is `ctx.Err()` at round `n`, once the context is done.
  unfoldable pub walk : (ℕ → Option Error) → ℕ → ℕ → Progress → Outcome
  walk canceled zero n s = elim s.pending [ [] ↦ Outcome.found s.found | _ ∷ _ ↦ out_of_fuel ]
  walk canceled (suc fuel) n s = elim s.pending [
    | [] ↦ Outcome.found s.found
    | item ∷ rest ↦ elim (canceled n) [
      | some err ↦ failed err
      | none ↦ elim (round s item rest) [
        | ok s' ↦ walk canceled fuel (n + 1) s'
        | fail err ↦ failed err
      ]
    ]
  ]

  -- `Traverse`, on the roots that `resolveRoots` answers.
  unfoldable pub traverse : (ℕ → Option Error) → ℕ → Reply (List (Option Group)) → Outcome
  traverse canceled fuel (fail err) = failed (wrapped (codes "failed to resolve root groups") err)
  traverse canceled fuel (ok roots) = walk canceled fuel 0 (offer_roots start roots)

-- A page of an answer, and the number of the next one (0 at the last).
pub record Page : Type 0 where
  pub groups : List (Option Group)
  pub next_page : ℕ

-- `listAllSubgroups`: pages are asked for from page 1 on, until one names no next page. `none` is a
-- client that named a next page each time.
unfoldable pub list_pages :
    (ℕ → Reply Page) → ℕ → ℕ → List (Option Group) → Option (Reply (List (Option Group)))
list_pages get zero page all = none
list_pages get (suc fuel) page all = elim (get page) [
  | fail err ↦ some (fail err)
  | ok answer ↦
      let all' = all ++ answer.groups in
      let more = list_pages get fuel answer.next_page all' in
      if nat_beq answer.next_page 0 then some (ok all') else more
]

unfoldable pub list_all_subgroups :
    (ℤ → ℕ → Reply Page) → ℕ → ℤ → Option (Reply (List (Option Group)))
list_all_subgroups get fuel gid = list_pages (get gid) fuel 1 []
