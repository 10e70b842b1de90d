-- ===== src/Mapper.antt =====
-- The mapper of backend/app/agents/mapper.py: source files grouped by language, parsed in batches
-- by the language's adapter, and the parsed graph written in chunks. The adapters are the records
-- of backend/app/adapters/base.py; what an adapter answers for a batch, which adapters can be
-- created, and what the database accepts are parameters. Identifiers are numbers, the weight of an
-- edge is counted in thousandths.
pub mod Files
pub mod Parsed
pub mod Batches
pub mod Store
pub mod Stored
pub mod Tallies
mod Examples
use ai_project.Prelude.{
  zero, ◌&&◌, ℕ, suc, ◌+◌, ◌-◌, ◌/◌, String, Bool, true, false, not, Option, none, some, List, [],
  ◌∷◌, ◌++◌, ◌==◌, one_of, keep, map, length, max, if◌then◌else◌, take, drop, str_eq, upper, lower,
  starts_with, any, all, join_text,
}
use ai_project.Inserts.{add_chunks}

pub record UcgNodeRaw : Type 0 where
  pub id : ℕ
  pub node_type : String
  pub qualified_name : String
  pub language : String
  pub file_path : String
  pub line_start : Option ℕ
  pub line_end : Option ℕ
  pub col_start : Option ℕ
  pub col_end : Option ℕ
  pub properties : String

pub record UcgEdgeRaw : Type 0 where
  pub edge_type : String
  pub source_node_id : ℕ
  pub target_node_id : ℕ
  pub properties : String
  pub weight : ℕ

pub record ParseError : Type 0 where
  pub file_path : String
  pub error_message : String
  pub line_number : Option ℕ

pub record UcgOutput : Type 0 where
  pub nodes : List UcgNodeRaw
  pub edges : List UcgEdgeRaw
  pub parse_errors : List ParseError

-- A dict that counts, or that collects lists: the entries in their order.
unfoldable pub get : {A : Type 0} → A → String → List (String × A) → A
get missing k [] = missing
get missing k ((j, a) ∷ entries) = if str_eq j k then a else get missing k entries

-- `d[k] = d.get(k, 0) + 1`
unfoldable pub bump : String → List (String × ℕ) → List (String × ℕ)
bump k [] = (k, 1) ∷ []
bump k ((j, n) ∷ entries) = if str_eq j k then (j, suc n) ∷ entries else (j, n) ∷ bump k entries

-- `range(0, len(xs), size)`: as many steps as Python's `len` of it
unfoldable pub chunks_from {ℓ} : {A : Type ℓ} → ℕ → ℕ → ℕ → List A → List (List A)
chunks_from size start zero xs = []
chunks_from size start (suc steps) xs =
    take size (drop start xs) ∷ chunks_from size (start + size) steps xs

unfoldable pub chunks {ℓ} : {A : Type ℓ} → ℕ → List A → List (List A)
unfolding chunks_from
chunks size xs = chunks_from size 0 ((length xs + size - 1) / size) xs

abbrev pub batch_size : ℕ
batch_size = 50

abbrev pub insert_chunk : ℕ
insert_chunk = 500

-- Something that `rglob` yields. `relative` are the parts of its path behind the root, `suffix` is
-- pathlib's.
pub record Item : Type 0 where
  pub is_file : Bool
  pub relative : List String
  pub suffix : String

abbrev pub skip_dirs : List String
skip_dirs =
    "node_modules" ∷ "vendor" ∷ ".git" ∷ "__pycache__" ∷ ".venv" ∷ "venv" ∷ "env" ∷ "dist" ∷ "build"
    ∷ "target" ∷ ".idea" ∷ ".vscode" ∷ "coverage" ∷ ".tox" ∷ []

-- `parts[:-1]`
unfoldable pub but_last : List String → List String
but_last [] = []
but_last (part ∷ []) = []
but_last (part ∷ next ∷ parts) = part ∷ but_last (next ∷ parts)

-- `_walk_source_files`; `root` are the parts of the root's own path
unfoldable pub walk_source_files : List String → List Item → List Item
unfolding but_last
walk_source_files root items =
    keep
      (λ (i : Item).
        i.is_file
        && not (any (λ part. one_of part skip_dirs) (root ++ i.relative))
        && not (any (λ part. starts_with part ".") (but_last i.relative)))
      items

abbrev pub extension_map : List (String × String)
extension_map =
    (".java", "java")
    ∷ (".py", "python")
    ∷ (".php", "php")
    ∷ (".js", "javascript")
    ∷ (".jsx", "javascript")
    ∷ (".ts", "typescript")
    ∷ (".tsx", "typescript")
    ∷ (".mjs", "javascript")
    ∷ (".cjs", "javascript")
    ∷ []

-- `EXTENSION_MAP.get(path.suffix.lower())`
unfoldable pub language_of : Item → Option String
unfolding get lower
language_of i =
    get none (lower i.suffix) (map (λ (e : String × String). (e.0, some e.1)) extension_map)

-- `files_by_lang[lang].append(path)`, where the language is a key
unfoldable pub file_under : String → Item → List (String × List Item) → List (String × List Item)
file_under lang i [] = []
file_under lang i ((l, files) ∷ entries) =
    if str_eq l lang then (l, files ++ i ∷ []) ∷ entries else (l, files) ∷ file_under lang i entries

-- the loop that groups the files by language
unfoldable pub group : List Item → List (String × List Item) → List (String × List Item)
unfolding language_of file_under
group [] by_lang = by_lang
group (i ∷ items) by_lang =
    group items (elim (language_of i) [ none ↦ by_lang | some lang ↦ file_under lang i by_lang ])

-- `_get_adapter`; `creates` says whether the import and the constructor succeed
pub data Adapter : Type 0 where
  java : Adapter
  python_ast : Adapter
  php : Adapter
  js_ts : String → Adapter

unfoldable pub get_adapter : (Adapter → Bool) → String → Option Adapter
get_adapter creates language =
    let created : Adapter → Option Adapter = λ a. if creates a then some a else none in
    if str_eq language "java"
    then created java
    else if str_eq language "python"
    then created python_ast
    else if str_eq language "php"
    then created php
    else if one_of language ("javascript" ∷ "typescript" ∷ [])
    then created (js_ts language)
    else none

-- What a call of `parse_files` comes to, with the text of the exception.
pub data Parsing : Type 0 where
  parsed : UcgOutput → Parsing
  raised : String → Parsing

module _ (parse_files : Adapter → List Item → Parsing) (repo_path : String) where
  -- one batch: its output is added, or one parse error
  unfoldable pub parse_batch : Adapter → String → List Item → UcgOutput → UcgOutput
  parse_batch adapter lang batch total = elim (parse_files adapter batch) [
    | parsed output ↦ record {
      nodes = total.nodes ++ output.nodes;
      edges = total.edges ++ output.edges;
      parse_errors = total.parse_errors ++ output.parse_errors;
    }
    | raised message ↦ record total {
      parse_errors =
          total.parse_errors
          ++ record {
            file_path = repo_path;
            error_message =
                join_text "Adapter error for " (join_text lang (join_text ": " message));
            line_number = none;
          }
            ∷ [];
    }
  ]

  -- the loop over the batches of a language
  unfoldable pub parse_batches : Adapter → String → List (List Item) → UcgOutput → UcgOutput
  unfolding parse_batch
  parse_batches adapter lang [] total = total
  parse_batches adapter lang (batch ∷ batches) total =
      parse_batches adapter lang batches (parse_batch adapter lang batch total)

  -- the body of the loop over the languages, for the language's files
  unfoldable pub parse_language : (Adapter → Bool) → String → List Item → UcgOutput → UcgOutput
  unfolding get_adapter parse_batches chunks
  parse_language creates lang [] total = total
  parse_language creates lang (i ∷ files) total = elim (get_adapter creates lang) [
    | none ↦ total
    | some adapter ↦ parse_batches adapter lang (chunks batch_size (i ∷ files)) total
  ]

  -- the loop over the languages
  unfoldable pub parse_languages :
      (Adapter → Bool) → List (String × List Item) → List String → UcgOutput → UcgOutput
  unfolding get parse_language
  parse_languages creates by_lang [] total = total
  parse_languages creates by_lang (lang ∷ langs) total =
      parse_languages creates by_lang langs
        (parse_language creates lang (get [] lang by_lang) total)
