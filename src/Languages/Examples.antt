-- ===== src/Languages/Examples.antt =====
-- A repository with two Python files and one in Java, a requirements file, and tsconfig.json.
use ai_project.Prelude.{
  ℕ, ◌≡◌, length, ◌⊎◌, refl, String, true, false, none, some, List, [], ◌∷◌, count_if, lower,
  total_of,
}
use ai_project.Mapper.{Item, but_last, language_of, get}
use ai_project.Mapper.Files.{is_in}
use ai_project.Languages.{
  Manifests, walk, run, count_files, ensure, change, add_file, detect_frameworks,
  detect_from_manifests, read_manifest, read_all, read_package, name_frameworks, sort_infos, detect,
  persist_results, DetectedRow, insert_info,
}
use ai_project.Languages.Totals.{gain_of}
use ai_project.Languages.Counted.{value, files_of, run-counts_files}

abbrev file : String → String → Item
file name suffix = record { is_file = true; relative = "shop" ∷ name ∷ []; suffix = suffix }

abbrev items : List Item
items = file "A.java" ".java" ∷ file "a.py" ".py" ∷ file "b.PY" ".PY" ∷ file "notes" "" ∷ []

abbrev manifests : Manifests
manifests = record {
  pom = none;
  python = some (some "flask==3.0 sqlalchemy") ∷ none ∷ none ∷ none ∷ [];
  composer = none;
  package_json = some none;
  has_gradle = false;
  has_tsconfig = true;
}

abbrev ten_lines : Item → ℕ
ten_lines i = 10

abbrev empty_row : DetectedRow
empty_row = record { languages = []; file_count = none; total_lines = none }

ordered : (run true ten_lines ("srv" ∷ []) items manifests empty_row).1 ≡ record {
  languages = "python" ∷ "java" ∷ "typescript" ∷ [];
  file_count = some 4;
  total_lines = some 30;
}
unfolding run detect persist_results walk but_last count_files language_of get lower ensure change
    add_file detect_frameworks detect_from_manifests read_manifest read_all read_package
    name_frameworks sort_infos insert_info
ordered = refl

run-counts_files_example :
    let outcome = run true ten_lines ("srv" ∷ []) items manifests empty_row in
    let files = walk ("srv" ∷ []) items in
    let lines = total_of (gain_of (λ lang i. ten_lines i)) files in
    (total_of (files_of "python") outcome.0.languages ≡ count_if (is_in "python") files)
    × (outcome.0.total_lines ≡ lines)
    × ((outcome.1 ≡ empty_row)
        ⊎ ((value outcome.1.file_count ≡ length files) × (value outcome.1.total_lines ≡ lines)))
run-counts_files_example =
    run-counts_files true ten_lines ("srv" ∷ []) items manifests empty_row "python"
