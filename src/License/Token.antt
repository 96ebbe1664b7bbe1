-- ===== src/License/Token.antt =====
-- `ResolveToken` of internal/license/enforcer.go: where the token of a license is read from. Opening
-- and reading a file, and the library's own search, are parameters.
use gitlab_fleet_governor.Common.{ℕ, ◌+◌, [], not, if◌then◌else◌, contains, length, ltb, nat_eq}
use gitlab_fleet_governor.Common.Text.{Text, codes, is_empty, trim_space}
use gitlab_fleet_governor.Governance.Operation.{external, wrapped, Reply, ok, fail}
use gitlab_fleet_governor.License.Model.{Library, OpenFile, found, not_found, broken}

abbrev pub max_license_file_size : ℕ
max_license_file_size = 65536

-- What is made of a file that was opened.
unfoldable pub read_token : OpenFile → Reply Text
read_token file = elim file.is_regular [
  | fail err ↦ fail (wrapped (codes "failed to stat license file") err)
  | ok regular ↦
      if not regular
      then fail (external (codes "invalid license file: must be a regular file"))
      else elim (file.read_limited (max_license_file_size + 1)) [
        | fail err ↦ fail (wrapped (codes "failed to read license file") err)
        | ok content ↦
            if ltb max_license_file_size (length content)
            then fail (external (codes "license file exceeds maximum allowed size"))
            else ok (trim_space content)
      ]
]

module _ {Claims : Type 0} (lib : Library Claims) where
  unfoldable pub read_license_file : Text → Reply Text
  unfolding read_token
  read_license_file path =
      if contains 0 path
      then fail (external (codes "invalid license file path: contains null byte"))
      else elim (lib.open_file path) [
        | fail err ↦ fail (wrapped (codes "failed to open license file") err)
        | ok file ↦ read_token file
      ]

  unfoldable pub resolve_token : Text → Text → Reply Text
  unfolding read_license_file
  resolve_token key file =
      if not (is_empty (trim_space key))
      then ok (trim_space key)
      else if not (is_empty (trim_space file))
      then read_license_file (lib.clean_path (trim_space file))
      else elim lib.resolve_token [
        | found token ↦ ok (trim_space token)
        | not_found ↦ ok []
        | broken err ↦ fail err
      ]
