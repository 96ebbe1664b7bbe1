-- ===== src/Config/Validator/Files.antt =====
-- internal/config/validator.go: validateRepositoryFiles, with what it reads of RepositoryFileConfig of
-- internal/config/model.go. `clean` is path.Clean.
use gitlab_fleet_governor.Common.{
  ℕ, Bool, true, not, ◌&&◌, ◌||◌, List, [], ◌∷◌, ◌++◌, if◌then◌else◌, ◌==◌, nat_beq,
}
use gitlab_fleet_governor.Common.Int.{int_eq}
use gitlab_fleet_governor.Common.Text.{
  Text, text_eq, codes, is_empty, to_lower, trim_space, has_prefix,
}
use gitlab_fleet_governor.Config.Validator.{
  Path_, Problem, Shown, Errors, below, at_index, report, each, check_choice,
}
use gitlab_fleet_governor.Governance.Operation.{has_items}

pub record RepositoryFile : Type 0 where
  pub path : Text
  pub content : Text
  pub content_file : Text
  pub ensure_contains : List Text
  pub enforcement : Text

-- `strings.ReplaceAll(s, "\\", "/")`
unfoldable pub to_slashes : Text → Text
to_slashes [] = []
to_slashes (c ∷ s) = (if nat_beq c b'\\' then b'/' else c) ∷ to_slashes s

unfoldable pub escapes : Text → Bool
escapes cleaned = has_prefix cleaned (codes "../") || cleaned == codes ".."

unfoldable pub check_repository_file : (Text → Text) → Path_ → ℕ → RepositoryFile → Errors
unfolding to_slashes escapes check_choice
check_repository_file clean prefix i f =
    let field = at_index prefix i in
    let path = trim_space f.path in
    let content = not (is_empty f.content) in
    let file = not (is_empty (trim_space f.content_file)) in
    let parts = has_items f.ensure_contains in
    (if is_empty path
      then report true (below field (codes "path")) Problem.empty Shown.nothing
      else report (escapes (clean (to_slashes path))) (below field (codes "path")) Problem.traversal
          (Shown.text f.path))
    ++ (report (not content && not file && not parts) field Problem.no_content Shown.nothing
        ++ (report (content && file) field Problem.two_contents Shown.nothing
            ++ (report ((content || file) && parts) field Problem.content_with_parts Shown.nothing
                ++ check_choice
                    (codes "direct_commit" ∷ codes "merge_request" ∷ codes "audit_only" ∷ [])
                    (to_lower f.enforcement) f.enforcement (below field (codes "enforcement")))))

unfoldable pub validate_repository_files : (Text → Text) → List RepositoryFile → Path_ → Errors
unfolding each check_repository_file
validate_repository_files clean files prefix = each (check_repository_file clean prefix) 0 files
