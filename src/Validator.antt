-- ===== src/Validator.antt =====
-- The validator of backend/app/agents/validator.py: the checks of one patch and their verdict. The
-- parser of Python and the subprocess are parameters. Durations and the texts of an output that no
-- tool writes are left out, the score is counted in thousandths.
pub mod Run
pub mod Verdict
pub mod Reported
mod Examples
use ai_project.Prelude.{
  or_else, ℕ, ◌+◌, ◌*◌, ◌/◌, ◌==◌, String, Bool, true, false, not, ◌&&◌, ◌||◌, Option, none, some,
  List, [], ◌∷◌, ◌++◌, all, any, keep, take, length, count_if, count_char, contains, starts_with,
  lower, one_of, str_eq, strip, split_lines, split_at, join_text, if◌then◌else◌,
}
use ai_project.Smells.Names.{rsplit_dot, last_part}
use ai_project.Patches.{Patch}

pub record Check : Type 0 where
  pub check_name : String
  pub check_type : String
  pub passed : Bool
  pub output : String

-- How the subprocess `python -m py_compile` ends: with a return code and what it writes to stderr,
-- killed at the time limit, with no interpreter in the path, or with another exception.
pub data Compilation : Type 0 where
  ended : ℕ → String → Compilation
  timed_out no_interpreter broken : Compilation

-- What the environment answers: `ast_parse` is none where Python parses the text, and otherwise the
-- message of the exception; `py_compile` is asked for a content and a file name.
pub record Tools : Type 0 where
  pub ast_parse : String → Option String
  pub py_compile : String → String → Compilation

abbrev pub syntax_check : String → Bool → String → Check
syntax_check name passed output = record {
  check_name = name;
  check_type = "syntax";
  passed = passed;
  output = output;
}

-- `_check_diff_format`
unfoldable pub check_diff_format : String → Check
unfolding strip split_lines
check_diff_format diff =
    let lines = split_lines diff in
    let has_header =
      any (λ line. starts_with line "---" || starts_with line "+++") (take 5 lines) in
    let is_stub =
      contains diff "# TODO: Apply refactoring manually" || contains diff "# REFACTORING TASK:" in
    let passed = has_header || is_stub in
    if str_eq (strip diff) ""
    then syntax_check "diff_format" false "Empty diff"
    else syntax_check "diff_format" passed (
        if passed
        then "Valid unified diff format"
        else "Invalid diff format (missing --- / +++ headers)")

-- `_check_python_syntax`
unfoldable pub check_python_syntax : Tools → String → Check
check_python_syntax tools content = elim (tools.ast_parse content) [
  | none ↦ syntax_check "python_syntax" true "Python syntax valid"
  | some message ↦ syntax_check "python_syntax" false message
]

-- `_check_java_stub`
unfoldable pub check_java_stub : String → Check
unfolding strip
check_java_stub content =
    let has_class =
      contains content "class " || contains content "interface " || contains content "enum " in
    let passed = has_class || str_eq (strip content) "" in
    syntax_check "java_syntax" passed (
      if passed
      then "Java heuristic check passed"
      else "Java heuristic check: missing class/interface declaration")

-- `_check_php_stub`
unfoldable pub check_php_stub : String → Check
unfolding strip
check_php_stub content =
    let passed = str_eq (strip content) "" || contains content "<?php" || contains content "<?=" in
    syntax_check "php_syntax" passed
      (if passed then "PHP heuristic check passed" else "PHP content missing <?php opening tag")

-- `_check_js_ts_stub`
unfoldable pub check_js_ts_stub : String → String → Check
unfolding count_char
check_js_ts_stub content language =
    let balanced = count_char content "(" == count_char content ")" in
    syntax_check (join_text language "_syntax") balanced (
      if balanced
      then join_text language " heuristic check passed"
      else join_text language ": unbalanced parentheses")

-- `_check_syntax`
unfoldable pub check_syntax : Tools → String → String → Check
unfolding check_python_syntax check_java_stub check_php_stub check_js_ts_stub
check_syntax tools content language =
    if str_eq language "python"
    then check_python_syntax tools content
    else if str_eq language "java"
    then check_java_stub content
    else if str_eq language "php"
    then check_php_stub content
    else if one_of language ("javascript" ∷ "typescript" ∷ [])
    then check_js_ts_stub content language
    else syntax_check "syntax" true (join_text "No syntax checker for language: " language)

-- the result of a subprocess that wrote to stderr
unfoldable pub compile_check : Bool → String → Check
unfolding strip
compile_check passed stderr = record {
  check_name = "py_compile";
  check_type = "lint";
  passed = passed;
  output = or_else (if str_eq stderr "" then "OK" else strip stderr) "Compilation successful";
}

-- the check that a subprocess gives
unfoldable pub compilation_check : Compilation → Option Check
unfolding compile_check
compilation_check (ended code stderr) = some (compile_check (code == 0) stderr)
compilation_check timed_out = some (compile_check false "Timeout")
compilation_check no_interpreter = none
compilation_check broken = none

-- `_sandbox_python`
unfoldable pub sandbox_python : Tools → String → String → Option Check
unfolding compilation_check
sandbox_python tools content file_path = compilation_check (tools.py_compile content file_path)

-- `_check_in_sandbox`
unfoldable pub check_in_sandbox : Tools → String → String → String → Option Check
unfolding sandbox_python
check_in_sandbox tools content language file_path =
    if str_eq language "python" then sandbox_python tools content file_path else none

-- the last part of a path, as pathlib's `name` has it
abbrev last_name : List String → String
last_name [] = ""
last_name (part ∷ parts) =
    let later = last_name parts in
    if str_eq later "" then (if str_eq part "." then "" else part) else later

-- `Path(file_path).suffix`: what follows the last dot of the name, if something precedes it
unfoldable pub suffix : String → String
unfolding rsplit_dot last_part split_at
suffix file_path =
    let name = last_name (split_at file_path "/") in
    elim (rsplit_dot name) [
      | none ↦ ""
      | some stem ↦
          if str_eq stem "" || str_eq (last_part name) ""
          then ""
          else join_text "." (last_part name)
    ]

-- `_detect_language`
unfoldable pub detect_language : String → String
unfolding suffix lower
detect_language file_path =
    let ext = lower (suffix file_path) in
    if str_eq ext ".java"
    then "java"
    else if str_eq ext ".py"
    then "python"
    else if str_eq ext ".php"
    then "php"
    else if one_of ext (".js" ∷ ".jsx" ∷ [])
    then "javascript"
    else if one_of ext (".ts" ∷ ".tsx" ∷ [])
    then "typescript"
    else "java"

-- `_is_stub_content`
unfoldable pub is_stub_content : String → Bool
is_stub_content content =
    any (contains content)
      ("# TODO: Apply refactoring manually" ∷ "# REFACTORING TASK:" ∷ "[LLM not configured]" ∷ [])
