-- ===== src/Discovery/Filter/Topics.antt =====
-- The topics of a project: its topics and tags, normalised, without blanks and without repetition.
use gitlab_fleet_governor.Common.{
  List, [], ◌∷◌, ◌++◌, not, ◌&&◌, ◌≡◌, ◌≢◌, ◌↔◌, ◌⊎◌, if◌then◌else◌, arith, In, In-append, Distinct,
  Distinct-snoc, contains, contains_iff,
}
use gitlab_fleet_governor.Common.Text.{Text, text_eq, is_empty, is_empty_iff}
use gitlab_fleet_governor.Resources.{Project}
use gitlab_fleet_governor.Discovery.Filter.{clean_topic, add_topics, extract_project_topics}

-- Some item normalises to the text.
abbrev pub Spelled : Text → List Text → Type 0
Spelled t [] = ⊥
Spelled t (item ∷ items) = (t ≡ clean_topic item) ⊎ Spelled t items

module _ (topics : List Text) (item : Text) where
  grown : List Text
  grown =
      if not (is_empty (clean_topic item)) && not (contains (clean_topic item) topics)
      then topics ++ clean_topic item ∷ []
      else topics

  grown-Distinct : Distinct topics → Distinct grown
  unfolding grown
  grown-Distinct h =
      ground
        (arith, contains_iff (clean_topic item) topics, Distinct-snoc topics (clean_topic item) h)

  In-grown : (t : Text) → In t grown ↔ (In t topics ⊎ ((t ≢ []) × (t ≡ clean_topic item)))
  unfolding grown
  In-grown t = ground (
    arith,
    contains_iff (clean_topic item) topics,
    is_empty_iff (clean_topic item),
    In-append t topics (clean_topic item ∷ []),
  )

add_topics-Distinct :
    (items topics : List Text) → Distinct topics → Distinct (add_topics topics items)
unfolding add_topics grown
add_topics-Distinct [] topics h = h
add_topics-Distinct (item ∷ items) topics h =
    add_topics-Distinct items (grown topics item) (grown-Distinct topics item h)

In-add_topics :
    (items topics : List Text) (t : Text)
    → In t (add_topics topics items) ↔ (In t topics ⊎ ((t ≢ []) × Spelled t items))
unfolding add_topics grown
In-add_topics [] topics t = ground arith
In-add_topics (item ∷ items) topics t =
    ground (arith, In-add_topics items (grown topics item) t, In-grown topics item t)

-- No topic is listed twice, and a text is listed exactly if it is not blank and some topic or tag of
-- the project normalises to it.
pub extract_project_topics_lem :
    (p : Project) (t : Text)
    → Distinct (extract_project_topics p)
      × (In t (extract_project_topics p) ↔ ((t ≢ []) × (Spelled t p.topics ⊎ Spelled t p.tag_list)))
unfolding extract_project_topics
extract_project_topics_lem p t =
    let first = add_topics [] p.topics in
    (
      add_topics-Distinct p.tag_list first (add_topics-Distinct p.topics [] tt),
      ground (arith, In-add_topics p.tag_list first t, In-add_topics p.topics [] t),
    )
