-- ===== src/Discovery/Filter/Namespace.antt =====
-- Namespaces are compared by whole path segments.
use mathlib.Core.List.{append_assoc}
use gitlab_fleet_governor.Common.{
  Bool, true, [], ◌∷◌, ◌++◌, ◌||◌, ◌==◌, ◌≡◌, ◌≢◌, ◌↔◌, ◌⊎◌, inl, inr, refl, ◌∙◌, if◌then◌else◌,
  Bool-cases,
}
use gitlab_fleet_governor.Common.Text.{
  Text, text_eq, text_beq, text_beq_iff, codes, is_empty, has_prefix, has_prefix_sound,
  has_prefix-append,
}
use gitlab_fleet_governor.Discovery.Filter.{clean_namespace, match_namespace}

-- `ns` is `target`, or a path below it.
abbrev pub Within : Text → Text → Type 0
Within ns target = (ns ≡ target) ⊎ ((target ≢ []) × ((rest : Text) × (ns ≡ target ++ b'/' ∷ rest)))

below_sound :
    (ns target : Text)
    → has_prefix ns (target ++ codes "/") ≡ true
    → (rest : Text) × (ns ≡ target ++ b'/' ∷ rest)
below_sound ns target h =
    let (rest, e) = has_prefix_sound ns (target ++ codes "/") h in
    (rest, e ∙ append_assoc target (codes "/") rest)

below_complete :
    (ns target rest : Text)
    → ns ≡ target ++ b'/' ∷ rest
    → has_prefix ns (target ++ codes "/") ≡ true
below_complete ns target rest e =
    rw (e, ← append_assoc target (codes "/") rest) (has_prefix-append (target ++ codes "/") rest)

abbrev within : Text → Text → Bool
within ns target =
    if is_empty ns || is_empty target
    then ns == target
    else if ns == target
    then true
    else has_prefix ns (target ++ codes "/")

within_sound : (ns target : Text) → within ns target ≡ true → Within ns target
within_sound [] target h = inl ((text_beq_iff [] target).0 h)
within_sound (c ∷ ns) [] h = absurd (cc)
within_sound (c ∷ ns) (d ∷ target) h = elim (Bool-cases (text_beq (c ∷ ns) (d ∷ target))) [
  | inl same ↦ inl ((text_beq_iff (c ∷ ns) (d ∷ target)).0 same)
  | inr other ↦ inr (λ e. cc, below_sound (c ∷ ns) (d ∷ target) (rw other at h))
]

within_complete : (ns target : Text) → Within ns target → within ns target ≡ true
within_complete [] target (inl e) = (text_beq_iff [] target).1 e
within_complete [] [] (inr (n, (rest, e))) = absurd (n refl)
within_complete [] (d ∷ target) (inr (n, (rest, e))) = absurd (cc)
within_complete (c ∷ ns) [] (inl e) = absurd (cc)
within_complete (c ∷ ns) [] (inr (n, (rest, e))) = absurd (n refl)
within_complete (c ∷ ns) (d ∷ target) (inl e) = rw ((text_beq_iff (c ∷ ns) (d ∷ target)).1 e)
within_complete (c ∷ ns) (d ∷ target) (inr (n, (rest, e))) =
    elim (Bool-cases (text_beq (c ∷ ns) (d ∷ target))) [
      | inl same ↦ rw same
      | inr other ↦ rw other (below_complete (c ∷ ns) (d ∷ target) rest e)
    ]

-- A project's namespace matches a rule exactly if, both normalised, it is the rule's path or stands
-- below it behind a slash: `org/app` does not match a rule `org/a`. An empty path matches itself only.
pub match_namespace_iff :
    (ns target : Text)
    → (match_namespace ns target ≡ true) ↔ Within (clean_namespace ns) (clean_namespace target)
unfolding match_namespace
match_namespace_iff ns target = (
  within_sound (clean_namespace ns) (clean_namespace target),
  within_complete (clean_namespace ns) (clean_namespace target),
)
