-- ===== src/Archive.antt =====
-- Uploaded archives: `_validate_archive_extension` and `_extract_archive` of
-- backend/app/api/v1/analyze.py. What zipfile and tarfile read in the bytes, and what the operating
-- system makes of a path, are parameters.
pub mod Admitted
mod Examples
use ai_project.Prelude.{
  ℕ, suc, ◌+◌, String, Bool, true, false, Option, none, some, List, [], ◌∷◌, any, ends_with, length,
  lower, ltb, starts_with, if◌then◌else◌,
}

abbrev pub allowed_extensions : List String
allowed_extensions = ".zip" ∷ ".tar.gz" ∷ ".tgz" ∷ ".tar" ∷ []

abbrev pub max_files_in_archive : ℕ
max_files_in_archive = 50000

abbrev pub max_uncompressed_bytes : ℕ
max_uncompressed_bytes = 2147483648

-- the check of `_validate_archive_extension`
unfoldable pub extension_allowed : String → Bool
unfolding lower
extension_allowed filename =
    let name_lower = lower filename in any (λ ext. ends_with name_lower ext) allowed_extensions

-- An entry of an archive, with its uncompressed size.
pub record Member : Type 0 where
  pub name : String
  pub size : ℕ
  pub is_file : Bool

-- The 400 responses of `_extract_archive`, by their error and message.
pub data Refusal : Type 0 where
  too_many_files too_large path_traversal corrupted : Refusal

pub data Extracted : Type 0 where
  extracted : (file_count total_bytes : ℕ) → Extracted
  refused : Refusal → Extracted

-- The members that a library finds in the bytes, none where it raises its own error, and whether
-- its `extractall` succeeds.
pub record Library : Type 0 where
  pub members : String → Option (List Member)
  pub extractall : String → Bool

-- What the environment answers: `real_path dest name` is `realpath(join(dest, name))`.
pub record Platform : Type 0 where
  pub zip : Library
  pub tar : Library
  pub real_path : String → String → String
  pub real_dest : String → String

module _ (p : Platform) (dest : String) where
  -- the path check of a member
  abbrev pub is_safe : Member → Bool
  is_safe m = starts_with (p.real_path dest m.name) (p.real_dest dest)

  -- the loop over the members of a ZIP archive: the refusal that it raises, or the counts
  unfoldable pub check_zip : List Member → ℕ → ℕ → Extracted
  check_zip [] file_count total_bytes = extracted file_count total_bytes
  check_zip (m ∷ members) file_count total_bytes =
      let rest = check_zip members (suc file_count) (total_bytes + m.size) in
      if ltb max_uncompressed_bytes (m.size + total_bytes)
      then refused too_large
      else if is_safe m
      then rest
      else refused path_traversal

  -- the loop over the members of a TAR archive
  unfoldable pub check_tar : List Member → ℕ → ℕ → Extracted
  check_tar [] file_count total_bytes = extracted file_count total_bytes
  check_tar (m ∷ members) file_count total_bytes =
      let total = total_bytes + m.size in
      let rest = check_tar members (if m.is_file then suc file_count else file_count) total in
      if ltb max_uncompressed_bytes total
      then refused too_large
      else if is_safe m
      then rest
      else refused path_traversal

  -- what a branch of `_extract_archive` does with the members, with the loop of its format
  unfoldable pub extract_members :
      Library → (List Member → ℕ → ℕ → Extracted) → String → List Member → Extracted
  extract_members library check content members =
      if ltb max_files_in_archive (length members)
      then refused too_many_files
      else (elim (check members 0 0) [
        | refused r ↦ refused r
        | extracted file_count total_bytes ↦
            if library.extractall content
            then extracted file_count total_bytes
            else refused corrupted
      ])

  -- a branch of `_extract_archive`
  unfoldable pub extract_with : Library → (List Member → ℕ → ℕ → Extracted) → String → Extracted
  unfolding extract_members
  extract_with library check content = elim (library.members content) [
    | none ↦ refused corrupted
    | some members ↦ extract_members library check content members
  ]

  -- `_extract_archive`
  unfoldable pub extract_archive : String → Extracted
  unfolding extract_with check_zip check_tar
  extract_archive content =
      if starts_with content "PK"
      then extract_with p.zip check_zip content
      else extract_with p.tar check_tar content
