-- ===== src/Discovery/Fleet/Lists.antt =====
-- internal/discovery/discovery.go: the lists that a fleet is read as.
use gitlab_fleet_governor.Common.{
  Bool, true, false, not, ◌&&◌, List, [], ◌∷◌, ◌==◌, if◌then◌else◌, keys, values, ◌≡◌, ◌⊎◌, arith,
}
use gitlab_fleet_governor.Common.Int.{ℤ, int_eq, ltb_ℤ, ltb_ℤ_trans, ltb_ℤ_total, ltb_ℤ_asymm}
use gitlab_fleet_governor.Common.Text.{
  Text, text_eq, text_beq_iff, text_le, text_le_total, text_le_trans, text_le_antisymm,
}
use gitlab_fleet_governor.Common.Sort.{sort}
use gitlab_fleet_governor.Resources.{TargetProject, TargetGroup, TargetFleet}

-- `NewTargetFleet`
unfoldable pub new_target_fleet : TargetFleet
new_target_fleet = record {
  projects = [];
  groups = [];
  scanned_projects_count = 0;
  scanned_groups_count = 0;
  matched_projects_count = 0;
  matched_groups_count = 0;
}

abbrev no_entries : {A : Type 0} → List A → Bool
no_entries [] = true
no_entries (x ∷ xs) = false

-- `TargetFleet.IsEmpty`
unfoldable pub fleet_is_empty : TargetFleet → Bool
fleet_is_empty f = no_entries f.projects && no_entries f.groups

-- The comparison of the two lists, at a path and an identifier.
abbrev pub path_less : Text → ℤ → Text → ℤ → Bool
path_less s i t j = if s == t then ltb_ℤ i j else not (text_le t s)

abbrev pub path_le : Text → ℤ → Text → ℤ → Bool
path_le s i t j = not (path_less t j s i)

abbrev pub project_le : TargetProject → TargetProject → Bool
project_le p q = path_le p.path_with_namespace p.id q.path_with_namespace q.id

abbrev pub group_le : TargetGroup → TargetGroup → Bool
group_le g h = path_le g.full_path g.id h.full_path h.id

unfoldable pub project_list : TargetFleet → List TargetProject
project_list f = sort project_le (values f.projects)

unfoldable pub group_list : TargetFleet → List TargetGroup
group_list f = sort group_le (values f.groups)

abbrev pub id_le : ℤ → ℤ → Bool
id_le i j = not (ltb_ℤ j i)

unfoldable pub project_ids : TargetFleet → List ℤ
project_ids f = sort id_le (keys f.projects)

unfoldable pub group_ids : TargetFleet → List ℤ
group_ids f = sort id_le (keys f.groups)

pub path_le_total : (i j : ℤ) (s t : Text) → (path_le s i t j ≡ true) ⊎ (path_le t j s i ≡ true)
path_le_total i j s t = ground (
  arith,
  text_le_total s t,
  text_beq_iff s t,
  text_beq_iff t s,
  ltb_ℤ_asymm i j,
  text_le_antisymm s t,
)

pub path_le_trans :
    (i j k : ℤ) (s t u : Text)
    → path_le s i t j ≡ true
    → path_le t j u k ≡ true
    → path_le s i u k ≡ true
path_le_trans i j k s t u p q = ground (
  arith,
  text_beq_iff t s,
  text_beq_iff u t,
  text_beq_iff u s,
  text_le_trans s t u,
  text_le_antisymm s t,
  text_le_antisymm t u,
  ltb_ℤ_total i j,
  ltb_ℤ_total j k,
  ltb_ℤ_total i k,
  ltb_ℤ_asymm i j,
  ltb_ℤ_asymm j k,
  ltb_ℤ_asymm i k,
  ltb_ℤ_trans k j i,
  ltb_ℤ_trans j k i,
  ltb_ℤ_trans k i j,
  ltb_ℤ_trans i j k,
)
