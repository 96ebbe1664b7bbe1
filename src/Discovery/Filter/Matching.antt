-- ===== src/Discovery/Filter/Matching.antt =====
-- Which projects a filter lets through, and what a rejection is put down to.
use gitlab_fleet_governor.Common.{
  Bool, true, false, Option, some, none, List, [], ◌∷◌, not, ◌&&◌, ◌≡◌, ◌↔◌, ◌⊎◌, inl, inr, refl,
  arith, In, All, any, any_sound, any_complete, contains, contains_iff,
}
use gitlab_fleet_governor.Common.Int.{ℤ, pos, ◌<ℤ◌, ltb_ℤ_iff}
use gitlab_fleet_governor.Common.Text.{Text, text_eq, text_beq_iff, codes, is_empty_iff, to_lower}
use gitlab_fleet_governor.Resources.{Project}
use gitlab_fleet_governor.Governance.Operation.{has_items}
use gitlab_fleet_governor.Discovery.Filter.{
  ProjectFilter, FilterDecision, clean_namespace, match_namespace, extract_project_namespace,
  extract_project_topics, archived_mismatch, should_exclude_marked, marked, visibility_mismatch,
  out_of_range, outside, first, regex_hits, regex_misses, check_includes, check_excludes, checks,
  evaluate, IdRange, FilterResult,
}
use gitlab_fleet_governor.Discovery.Filter.Namespace.{Within, match_namespace_iff}

-- Whether the project's namespace is a rule's, or below it.
abbrev pub Covers : Project → Text → Type 0
Covers p rule = Within (clean_namespace (extract_project_namespace p)) (clean_namespace rule)

abbrev pub InRange : ℤ → Option IdRange → Type 0
InRange id none = Unit
InRange id (some r) =
    ((¬ (pos 0 <ℤ r.min)) ⊎ (¬ (id <ℤ r.min))) × ((¬ (pos 0 <ℤ r.max)) ⊎ (¬ (r.max <ℤ id)))

abbrev pub SameArchived : Bool → Option Bool → Type 0
SameArchived archived none = Unit
SameArchived archived (some b) = archived ≡ b

-- The criteria of a filter, each by itself. A bound of an ID range counts if it is positive.
pub record Accepts (pf : ProjectFilter) (p : Project) : Type 0 where
  pub archived : SameArchived p.archived pf.archived
  pub unmarked : (should_exclude_marked pf ≡ false) ⊎ (p.marked_for_deletion_at ≡ none)
  pub visible :
      (pf.visibility ≡ [])
      ⊎ ((pf.visibility ≡ codes "any") ⊎ (to_lower p.visibility ≡ pf.visibility))
  pub in_range : InRange p.id pf.id_range
  pub no_namespace_excludes : All (λ rule. ¬ Covers p rule) pf.namespaces_exclude
  pub no_regex_excludes : regex_hits pf.regex_exclude p ≡ false
  pub no_topic_excludes : All (λ t. ¬ In t pf.topics_exclude) (extract_project_topics p)
  pub namespace_included :
      (pf.namespaces_include ≡ []) ⊎ ((rule : Text) × In rule pf.namespaces_include × Covers p rule)
  pub regex_included : regex_misses pf.regex_include p ≡ false
  pub topic_included :
      (pf.topics_include ≡ [])
      ⊎ ((t : Text) × In t (extract_project_topics p) × In t pf.topics_include)

-- A loop that returns at the first hit finds none exactly if no item is one.
first-none :
    (test : Text → Bool) (P : Text → Type 0) (l : List Text)
    → ((t : Text) → (test t ≡ true) ↔ P t)
    → (first test l ≡ none) ↔ All (λ t. ¬ P t) l
first-none test P [] h = (λ _. tt, λ _. refl)
first-none test P (t ∷ l) h = ground (arith, h t, first-none test P l h)

-- A list of alternatives is met if it is empty or one of them is.
alternatives :
    (rules candidates : List Text) (test : Text → Bool)
    → ((has_items rules && not (any test candidates)) ≡ false)
      ↔ ((rules ≡ []) ⊎ ((t : Text) × In t candidates × (test t ≡ true)))
alternatives [] candidates test = (λ _. inl refl, λ _. refl)
alternatives (r ∷ rules) candidates test = (
  λ h. inr (any_sound test candidates (ground arith)),
  elim [ inl e ↦ absurd (cc) | inr (t, m, h) ↦ rw (any_complete test candidates t m h) ],
)

visible_iff :
    (pf : ProjectFilter) (p : Project)
    → (visibility_mismatch pf p ≡ false) ↔ (
        (pf.visibility ≡ [])
        ⊎ ((pf.visibility ≡ codes "any") ⊎ (to_lower p.visibility ≡ pf.visibility)))
visible_iff pf p = ground (
  arith,
  is_empty_iff pf.visibility,
  text_beq_iff pf.visibility (codes "any"),
  text_beq_iff (to_lower p.visibility) pf.visibility,
)

InRange-iff : (id : ℤ) (range : Option IdRange) → (outside id range ≡ false) ↔ InRange id range
InRange-iff id none = (λ _. tt, λ _. refl)
InRange-iff id (some r) = ground (
  arith,
  ltb_ℤ_iff (pos 0) r.min,
  ltb_ℤ_iff id r.min,
  ltb_ℤ_iff (pos 0) r.max,
  ltb_ℤ_iff r.max id,
)

archived_iff :
    (pf : ProjectFilter) (p : Project)
    → (archived_mismatch pf p ≡ false) ↔ SameArchived p.archived pf.archived
archived_iff pf p = ground arith

unmarked_iff :
    (pf : ProjectFilter) (p : Project)
    → ((should_exclude_marked pf && marked p) ≡ false)
      ↔ ((should_exclude_marked pf ≡ false) ⊎ (p.marked_for_deletion_at ≡ none))
unmarked_iff pf p = ground arith

Covers-iff :
    (p : Project) (rule : Text)
    → (match_namespace (extract_project_namespace p) rule ≡ true) ↔ Covers p rule
Covers-iff p rule = match_namespace_iff (extract_project_namespace p) rule

-- Steps 1 to 3, over the outcomes of their tests and the result of the later steps.
chain_iff :
    (a b c d : Bool) (r : FilterResult)
    → (((checks a b c d r).is_match ≡ true)
        ↔ ((a ≡ false) × (b ≡ false) × (c ≡ false) × (d ≡ false) × (r.is_match ≡ true)))
      × (((checks a b c d r).decision ≡ FilterDecision.matched) ↔ (
          (a ≡ false)
          × (b ≡ false)
          × (c ≡ false)
          × (d ≡ false)
          × (r.decision ≡ FilterDecision.matched)))
unfolding checks
chain_iff a b c d r = ground arith

module _ (pf : ProjectFilter) (p : Project) where
  namespace_included_iff :
      ((has_items pf.namespaces_include
          && not (any (match_namespace (extract_project_namespace p)) pf.namespaces_include))
        ≡ false)
      ↔ ((pf.namespaces_include ≡ [])
          ⊎ ((rule : Text) × In rule pf.namespaces_include × Covers p rule))
  namespace_included_iff =
      let a =
        alternatives pf.namespaces_include pf.namespaces_include
          (match_namespace (extract_project_namespace p)) in
      (
        λ h. elim (a.0 h) [ inl e ↦ inl e | inr (t, m, k) ↦ inr (t, m, (Covers-iff p t).0 k) ],
        λ h. a.1 (elim h [ inl e ↦ inl e | inr (t, m, k) ↦ inr (t, m, (Covers-iff p t).1 k) ]),
      )

  topic_included_iff :
      ((has_items pf.topics_include
          && not (any (λ t. contains t pf.topics_include) (extract_project_topics p)))
        ≡ false)
      ↔ ((pf.topics_include ≡ [])
          ⊎ ((t : Text) × In t (extract_project_topics p) × In t pf.topics_include))
  topic_included_iff =
      let a =
        alternatives pf.topics_include (extract_project_topics p)
          (λ t. contains t pf.topics_include) in
      (
        λ h. elim (a.0 h) [
          | inl e ↦ inl e
          | inr (t, m, k) ↦ inr (t, m, (contains_iff t pf.topics_include).0 k)
        ],
        λ h. a.1 (elim h [
          | inl e ↦ inl e
          | inr (t, m, k) ↦ inr (t, m, (contains_iff t pf.topics_include).1 k)
        ]),
      )

  -- The criteria of steps 4 to 9.
  record AcceptsNames : Type 0 where
    no_namespace_excludes : All (λ rule. ¬ Covers p rule) pf.namespaces_exclude
    no_regex_excludes : regex_hits pf.regex_exclude p ≡ false
    no_topic_excludes : All (λ t. ¬ In t pf.topics_exclude) (extract_project_topics p)
    namespace_included :
        (pf.namespaces_include ≡ [])
        ⊎ ((rule : Text) × In rule pf.namespaces_include × Covers p rule)
    regex_included : regex_misses pf.regex_include p ≡ false
    topic_included :
        (pf.topics_include ≡ [])
        ⊎ ((t : Text) × In t (extract_project_topics p) × In t pf.topics_include)

  no_namespace_iff :
      (first (match_namespace (extract_project_namespace p)) pf.namespaces_exclude ≡ none)
      ↔ All (λ rule. ¬ Covers p rule) pf.namespaces_exclude
  no_namespace_iff =
      first-none (match_namespace (extract_project_namespace p)) (Covers p) pf.namespaces_exclude
        (Covers-iff p)

  no_topic_iff :
      (first (λ t. contains t pf.topics_exclude) (extract_project_topics p) ≡ none)
      ↔ All (λ t. ¬ In t pf.topics_exclude) (extract_project_topics p)
  no_topic_iff =
      first-none (λ t. contains t pf.topics_exclude) (λ t. In t pf.topics_exclude)
        (extract_project_topics p) (λ t. contains_iff t pf.topics_exclude)

  check_excludes_iff :
      (((check_excludes pf p).is_match ≡ true) ↔ AcceptsNames)
      × (((check_excludes pf p).decision ≡ FilterDecision.matched) ↔ AcceptsNames)
  unfolding check_excludes check_includes
  check_excludes_iff =
      ground (arith, no_namespace_iff, no_topic_iff, namespace_included_iff, topic_included_iff)

  -- A result that tells whether the names pass tells, behind steps 1 to 3, whether all passes.
  whole :
      (ok : Type 0)
      → ok ↔ AcceptsNames
      → ((archived_mismatch pf p ≡ false)
          × ((should_exclude_marked pf && marked p) ≡ false)
          × (visibility_mismatch pf p ≡ false)
          × (out_of_range pf p ≡ false)
          × ok)
        ↔ Accepts pf p
  whole ok names =
      let (a, a') = archived_iff pf p in
      let (b, b') = unmarked_iff pf p in
      let (c, c') = visible_iff pf p in
      let (d, d') = InRange-iff p.id pf.id_range in
      (
        λ h.
            let n = names.0 h.4 in
            record {
              archived = a h.0;
              unmarked = b h.1;
              visible = c h.2;
              in_range = d h.3;
              no_namespace_excludes = n.no_namespace_excludes;
              no_regex_excludes = n.no_regex_excludes;
              no_topic_excludes = n.no_topic_excludes;
              namespace_included = n.namespace_included;
              regex_included = n.regex_included;
              topic_included = n.topic_included;
            },
        λ h. (
          a' h.archived,
          b' h.unmarked,
          c' h.visible,
          d' h.in_range,
          names.1 (record {
            no_namespace_excludes = h.no_namespace_excludes;
            no_regex_excludes = h.no_regex_excludes;
            no_topic_excludes = h.no_topic_excludes;
            namespace_included = h.namespace_included;
            regex_included = h.regex_included;
            topic_included = h.topic_included;
          }),
        ),
      )

  -- The filter lets a project through, with the decision `matched`, exactly if it meets each of the
  -- criteria: so a match with any exclusion is final, whatever is included.
  pub evaluate_iff :
      (((evaluate (some pf) (some p)).is_match ≡ true) ↔ Accepts pf p)
      × (((evaluate (some pf) (some p)).decision ≡ FilterDecision.matched) ↔ Accepts pf p)
  unfolding evaluate
  evaluate_iff =
      let c =
        chain_iff (archived_mismatch pf p) (should_exclude_marked pf && marked p)
          (visibility_mismatch pf p) (out_of_range pf p) (check_excludes pf p) in
      let flag = whole ((check_excludes pf p).is_match ≡ true) check_excludes_iff.0 in
      let decision =
        whole ((check_excludes pf p).decision ≡ FilterDecision.matched) check_excludes_iff.1 in
      (
        (λ h. flag.0 (c.0.0 h), λ h. c.0.1 (flag.1 h)),
        (λ h. decision.0 (c.1.0 h), λ h. c.1.1 (decision.1 h)),
      )
