-- ===== src/Languages.antt =====
-- The language detector of backend/app/agents/language_detector.py: the files that it counts, the
-- frameworks that the manifests name, and the order of the languages. The dict of languages is a
-- list in the order of insertion. What the walk yields, the lines of a file and the contents of the
-- manifests are parameters.
mod Totals
pub mod Counted
mod Examples
use ai_project.Prelude.{
  ℕ, suc, ◌+◌, ◌&&◌, ltb, String, Bool, true, false, not, Option, none, some, List, [], ◌∷◌, ◌++◌,
  any, contains, keep, length, lower, map, one_of, starts_with, str_eq, total_of, if◌then◌else◌,
}
use ai_project.Mapper.{Item, but_last, language_of}

pub record LanguageInfo : Type 0 where
  pub language : String
  pub file_count : ℕ
  pub total_lines : ℕ
  pub file_extensions : List String
  pub frameworks_detected : List String

abbrev pub no_files : String → LanguageInfo
no_files language = record {
  language = language;
  file_count = 0;
  total_lines = 0;
  file_extensions = [];
  frameworks_detected = [];
}

abbrev pub skip_dirs : List String
skip_dirs =
    "node_modules" ∷ "vendor" ∷ ".git" ∷ "__pycache__" ∷ ".venv" ∷ "venv" ∷ "env" ∷ "dist" ∷ "build"
    ∷ "target" ∷ ".idea" ∷ ".vscode" ∷ "coverage" ∷ ".tox" ∷ "htmlcov" ∷ ".mypy_cache"
    ∷ ".pytest_cache" ∷ ".ruff_cache" ∷ []

-- `_walk`
unfoldable pub walk : List String → List Item → List Item
unfolding but_last
walk root items =
    keep
      (λ (i : Item).
        i.is_file
        && not (any (λ part. one_of part skip_dirs) (root ++ i.relative))
        && not (any (λ part. starts_with part ".") (but_last i.relative)))
      items

-- `if lang not in language_map: language_map[lang] = LanguageInfo(language=lang)`
unfoldable pub ensure : String → List LanguageInfo → List LanguageInfo
ensure lang infos =
    if any (λ (i : LanguageInfo). str_eq i.language lang) infos
    then infos
    else infos ++ no_files lang ∷ []

-- a change of the entry of a language
unfoldable pub change :
    String → (LanguageInfo → LanguageInfo) → List LanguageInfo → List LanguageInfo
change lang f [] = []
change lang f (i ∷ infos) =
    let later = change lang f infos in if str_eq i.language lang then f i ∷ infos else i ∷ later

abbrev pub append_new : String → List String → List String
append_new s texts = if one_of s texts then texts else texts ++ s ∷ []

-- what a file of a language adds to its entry
unfoldable pub add_file : String → ℕ → LanguageInfo → LanguageInfo
add_file ext lines i = record i {
  file_count = suc i.file_count;
  file_extensions = append_new ext i.file_extensions;
  total_lines = i.total_lines + lines;
}

-- the loop over the files; `count_lines` is 0 for a file that cannot be read
unfoldable pub count_files : (Item → ℕ) → List Item → List LanguageInfo → List LanguageInfo
unfolding language_of ensure change add_file
count_files count_lines [] infos = infos
count_files count_lines (i ∷ items) infos = count_files count_lines items (elim (language_of i) [
  | none ↦ infos
  | some lang ↦ change lang (add_file (lower i.suffix) (count_lines i)) (ensure lang infos)
])

-- A framework, and the texts of which one names it.
abbrev pub Marks : Type 0
Marks = List (List String × String)

abbrev pub java_marks : Marks
java_marks =
    ("spring" ∷ [], "spring")
    ∷ ("jakarta" ∷ "javax.persistence" ∷ [], "jakarta-ee")
    ∷ ("hibernate" ∷ [], "hibernate")
    ∷ ("quarkus" ∷ [], "quarkus")
    ∷ ("micronaut" ∷ [], "micronaut")
    ∷ []

abbrev pub python_marks : Marks
python_marks =
    ("django" ∷ [], "django")
    ∷ ("flask" ∷ [], "flask")
    ∷ ("fastapi" ∷ [], "fastapi")
    ∷ ("sqlalchemy" ∷ [], "sqlalchemy")
    ∷ ("celery" ∷ [], "celery")
    ∷ []

abbrev pub php_marks : Marks
php_marks =
    ("laravel" ∷ [], "laravel")
    ∷ ("symfony" ∷ [], "symfony")
    ∷ ("slim" ∷ [], "slim")
    ∷ ("codeigniter" ∷ [], "codeigniter")
    ∷ []

abbrev pub js_marks : Marks
js_marks =
    ("react" ∷ [], "react")
    ∷ ("vue" ∷ [], "vue")
    ∷ ("@angular/core" ∷ [], "angular")
    ∷ ("next" ∷ [], "next.js")
    ∷ ("nuxt" ∷ [], "nuxt")
    ∷ ("svelte" ∷ [], "svelte")
    ∷ ("express" ∷ [], "express")
    ∷ []

-- the frameworks that a text names, each once
unfoldable pub name_frameworks : Marks → String → List String → List String
name_frameworks [] text found = found
name_frameworks ((marks, name) ∷ rest) text found =
    name_frameworks rest text (if any (contains text) marks then append_new name found else found)

abbrev pub with_frameworks : Marks → String → LanguageInfo → LanguageInfo
with_frameworks marks text i = record i {
  frameworks_detected = name_frameworks marks text i.frameworks_detected;
}

-- A manifest: absent, or there, with its text in lower case unless it cannot be read or parsed. Of
-- composer.json and package.json the text is that of the names of the dependencies.
abbrev pub Manifest : Type 0
Manifest = Option (Option String)

-- a manifest that implies its language
unfoldable pub read_manifest : String → Marks → Manifest → List LanguageInfo → List LanguageInfo
unfolding ensure change name_frameworks
read_manifest lang marks none infos = infos
read_manifest lang marks (some none) infos = ensure lang infos
read_manifest lang marks (some (some text)) infos =
    change lang (with_frameworks marks text) (ensure lang infos)

-- package.json, which names frameworks of languages that are there
unfoldable pub read_package : Manifest → List LanguageInfo → List LanguageInfo
unfolding change name_frameworks
read_package none infos = infos
read_package (some none) infos = infos
read_package (some (some text)) infos =
    change "typescript" (with_frameworks js_marks text)
      (change "javascript" (with_frameworks js_marks text) infos)

pub record Manifests : Type 0 where
  pub pom : Manifest
  pub python : List Manifest
  pub composer : Manifest
  pub package_json : Manifest
  pub has_gradle : Bool
  pub has_tsconfig : Bool

unfoldable pub read_all : String → Marks → List Manifest → List LanguageInfo → List LanguageInfo
unfolding read_manifest
read_all lang marks [] infos = infos
read_all lang marks (m ∷ manifests) infos =
    read_all lang marks manifests (read_manifest lang marks m infos)

-- `_detect_frameworks`
unfoldable pub detect_frameworks : Manifests → List LanguageInfo → List LanguageInfo
unfolding read_manifest read_all read_package
detect_frameworks m infos = read_package m.package_json (
    read_manifest "php" php_marks m.composer
      (read_all "python" python_marks m.python (read_manifest "java" java_marks m.pom infos)))

-- `_detect_from_manifests`
unfoldable pub detect_from_manifests : Manifests → List LanguageInfo → List LanguageInfo
unfolding ensure
detect_from_manifests m infos =
    let with_java = if m.has_gradle then ensure "java" infos else infos in
    if m.has_tsconfig then ensure "typescript" with_java else with_java

-- `sorted(…, key=file_count, reverse=True)`: Python's sort keeps the order of equal counts
unfoldable pub insert_info : LanguageInfo → List LanguageInfo → List LanguageInfo
insert_info i [] = i ∷ []
insert_info i (j ∷ infos) =
    let later = insert_info i infos in
    if ltb i.file_count j.file_count then j ∷ later else i ∷ j ∷ infos

unfoldable pub sort_infos : List LanguageInfo → List LanguageInfo
unfolding insert_info
sort_infos [] = []
sort_infos (i ∷ infos) = insert_info i (sort_infos infos)

pub record Detected : Type 0 where
  pub languages : List LanguageInfo
  pub dominant : Option String
  pub total_files : ℕ
  pub total_lines : ℕ

-- what `run` finds and returns
unfoldable pub detect : (Item → ℕ) → List String → List Item → Manifests → Detected
unfolding walk count_files detect_frameworks detect_from_manifests sort_infos
detect count_lines root items manifests =
    let files = walk root items in
    let infos =
      detect_from_manifests manifests
        (detect_frameworks manifests (count_files count_lines files [])) in
    let sorted = sort_infos infos in
    record {
      languages = sorted;
      dominant = elim sorted [ [] ↦ none | i ∷ is ↦ some i.language ];
      total_files = length files;
      total_lines = total_of (λ (i : LanguageInfo). i.total_lines) infos;
    }

-- The columns of the job's row that the detector writes.
pub record DetectedRow : Type 0 where
  pub languages : List String
  pub file_count : Option ℕ
  pub total_lines : Option ℕ

-- `n if n > 0 else None`
abbrev pub or_none : ℕ → Option ℕ
or_none n = if ltb 0 n then some n else none

-- `_persist_results`: an error of the database is logged and leaves the row. The keys of the dict in
-- the order of their counts are the languages of the sorted entries.
unfoldable pub persist_results : Bool → Detected → DetectedRow → DetectedRow
persist_results accepted d row =
    if accepted
    then record {
      languages = map (λ (i : LanguageInfo). i.language) d.languages;
      file_count = or_none d.total_files;
      total_lines = or_none d.total_lines;
    }
    else row

-- `run`, on the files and the manifests of the repository and the job's row
unfoldable pub run :
    Bool → (Item → ℕ) → List String → List Item → Manifests → DetectedRow → Detected × DetectedRow
unfolding detect persist_results
run accepted count_lines root items manifests row =
    let detected = detect count_lines root items manifests in
    (detected, persist_results accepted detected row)
