-- ===== src/Discovery/Roots.antt =====
-- `resolveRoots` of internal/discovery/grouptree.go: the groups that a traversal starts from. The
-- client's two calls are parameters; a page without a response is one that names no next page.
use gitlab_fleet_governor.Common.{
  ℕ, zero, suc, true, false, Option, some, none, List, [], ◌∷◌, ◌++◌, ◌||◌, if◌then◌else◌, nat_beq,
  contains,
}
use gitlab_fleet_governor.Common.Int.{ℤ, int_eq}
use gitlab_fleet_governor.Common.Text.{Text, codes, is_empty, trim, is_slash}
use gitlab_fleet_governor.Resources.{Group}
use gitlab_fleet_governor.Governance.Operation.{wrapped, has_items, Reply, ok, fail}
use gitlab_fleet_governor.Discovery.Groups.{GroupSelector, Page}

-- `GetGroup` by an identifier and by a path, and a page of `ListGroups`.
pub record GroupClient : Type 0 where
  pub get_by_id : ℤ → Reply (Option Group)
  pub get_by_path : Text → Reply (Option Group)
  pub list_page : ℕ → Reply Page

-- `seen` and `roots`
pub record Roots : Type 0 where
  pub seen : List ℤ
  pub roots : List Group

-- `if g != nil && !seen[g.ID] { ... }`
unfoldable pub add_root : Roots → Option Group → Roots
add_root r none = r
add_root r (some g) =
    if contains g.id r.seen
    then r
    else record { seen = r.seen ++ g.id ∷ []; roots = r.roots ++ g ∷ [] }

unfoldable pub add_roots : Roots → List (Option Group) → Roots
unfolding add_root
add_roots r [] = r
add_roots r (g ∷ gs) = add_roots (add_root r g) gs

module _ (client : GroupClient) where
  unfoldable pub roots_by_id : Roots → List ℤ → Reply Roots
  unfolding add_root
  roots_by_id r [] = ok r
  roots_by_id r (id ∷ ids) = elim (contains id r.seen) [
    | true ↦ roots_by_id r ids
    | false ↦ elim (client.get_by_id id) [
      | fail err ↦ fail (wrapped (codes "failed to get group by ID") err)
      | ok g ↦ roots_by_id (add_root r g) ids
    ]
  ]

  unfoldable pub roots_by_path : Roots → List Text → Reply Roots
  unfolding add_root
  roots_by_path r [] = ok r
  roots_by_path r (path ∷ paths) = elim (is_empty (trim is_slash path)) [
    | true ↦ roots_by_path r paths
    | false ↦ elim (client.get_by_path (trim is_slash path)) [
      | fail err ↦ fail (wrapped (codes "failed to get group by path") err)
      | ok g ↦ roots_by_path (add_root r g) paths
    ]
  ]

  -- The pages of top-level groups from `page` on. `none` is a client that named a next page each time.
  unfoldable pub top_level_roots : (fuel page : ℕ) → Roots → Option (Reply Roots)
  unfolding add_roots
  top_level_roots zero page r = none
  top_level_roots (suc fuel) page r = elim (client.list_page page) [
    | fail err ↦ some (fail (wrapped (codes "failed to list top-level groups") err))
    | ok answer ↦ elim (nat_beq answer.next_page 0) [
      | true ↦ some (ok (add_roots r answer.groups))
      | false ↦ top_level_roots fuel answer.next_page (add_roots r answer.groups)
    ]
  ]

  abbrev no_roots : Roots
  no_roots = record { seen = []; roots = [] }

  abbrev explicit_roots : GroupSelector → Reply Roots
  explicit_roots sel = elim (roots_by_id no_roots sel.group_ids_include) [
    | fail err ↦ fail err
    | ok r ↦ roots_by_path r sel.group_paths_include
  ]

  unfoldable pub resolve_roots : ℕ → Option GroupSelector → Option (Reply Roots)
  unfolding roots_by_id roots_by_path top_level_roots
  resolve_roots fuel none = top_level_roots fuel 1 no_roots
  resolve_roots fuel (some sel) =
      if has_items sel.group_ids_include || has_items sel.group_paths_include
      then some (explicit_roots sel)
      else top_level_roots fuel 1 no_roots
