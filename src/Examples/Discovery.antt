-- ===== src/Examples/Discovery.antt =====
-- Runs of the project filter.
use gitlab_fleet_governor.Common.{true, some, [], ◌∷◌, ◌≡◌, ◌↔◌, refl}
use gitlab_fleet_governor.Common.Int.{pos}
use gitlab_fleet_governor.Common.Text.{codes, trim, to_lower}
use gitlab_fleet_governor.Discovery.Filter.{
  ProjectFilter, FilterDecision, evaluate, match_namespace, clean_namespace, empty_filter,
  check_excludes, checks, extract_project_namespace,
}
use gitlab_fleet_governor.Discovery.Filter.Matching.{Accepts, evaluate_iff}
use gitlab_fleet_governor.Examples.Samples.{widget}

abbrev tools_only : ProjectFilter
tools_only = record empty_filter {
  namespaces_include = codes "org" ∷ [];
  namespaces_exclude = codes "org/tools" ∷ [];
  topics_include = codes "go" ∷ [];
  visibility = codes "any";
  id_range = some (record { min = pos 0; max = pos 100 });
}

-- The exclusion of `org/tools` beats the inclusion of `org`.
tools_excluded :
    (evaluate (some tools_only) (some widget)).decision ≡ FilterDecision.excluded_namespace
unfolding evaluate check_excludes checks extract_project_namespace match_namespace clean_namespace
    trim to_lower
tools_excluded = refl

evaluate_iff_example :
    (((evaluate (some tools_only) (some widget)).is_match ≡ true) ↔ Accepts tools_only widget)
    × (((evaluate (some tools_only) (some widget)).decision ≡ FilterDecision.matched)
        ↔ Accepts tools_only widget)
evaluate_iff_example = evaluate_iff tools_only widget
