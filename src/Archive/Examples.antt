-- ===== src/Archive/Examples.antt =====
-- A ZIP archive with a directory and two files, and one with a member in a sibling directory whose
-- name begins like the target's.
use ai_project.Prelude.{
  ◌≡◌, ◌↔◌, refl, String, true, false, some, List, [], ◌∷◌, join_text, lower, str_eq, if◌then◌else◌,
}
use ai_project.Archive.{
  Member, extracted, refused, path_traversal, Library, Platform, extract_archive, extract_with,
  extract_members, check_zip, extension_allowed,
}
use ai_project.Archive.Admitted.{Fit, extract_archive_iff}

abbrev plain : String → Member
plain name = record { name = name; size = 10; is_file = true }

abbrev members : List Member
members =
    record (plain "shop/") { size = 0; is_file = false } ∷ plain "shop/a.py" ∷ plain "b.py" ∷ []

abbrev zip : Library
zip = record {
  members =
      λ content. if str_eq content "PK" then some members else some (plain "../job_12/x" ∷ []);
  extractall = λ content. true;
}

-- `join`, and one parent directory resolved
abbrev resolve : String → String → String
resolve dest name =
    if str_eq name "../job_12/x" then "/tmp/job_12/x" else join_text dest (join_text "/" name)

abbrev platform : Platform
platform = record { zip = zip; tar = zip; real_path = resolve; real_dest = λ dest. dest }

counted_as_files : extract_archive platform "/tmp/job_1" "PK" ≡ extracted 3 20
unfolding extract_archive extract_with extract_members check_zip
counted_as_files = refl

sibling_accepted : extract_archive platform "/tmp/job_1" "PK2" ≡ extracted 1 10
unfolding extract_archive extract_with extract_members check_zip
sibling_accepted = refl

other_refused : extract_archive platform "/srv" "PK2" ≡ refused path_traversal
unfolding extract_archive extract_with extract_members check_zip
other_refused = refl

upper_case_allowed : extension_allowed "Shop.TAR.GZ" ≡ true
unfolding extension_allowed lower
upper_case_allowed = refl

extract_archive_iff_example : (extract_archive platform "/tmp/job_1" "PK" ≡ extracted 3 20) ↔ (
    (found : List Member) × (zip.members "PK" ≡ some found)
    × Fit platform "/tmp/job_1" zip true "PK" 3 20 found)
extract_archive_iff_example = extract_archive_iff platform "/tmp/job_1" "PK" 3 20
