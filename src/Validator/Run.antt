-- ===== src/Validator/Run.antt =====
-- The verdict on one patch, and the run over the pending patches of a job.
use ai_project.Prelude.{
  or_else, ℕ, suc, ◌+◌, ◌*◌, ◌/◌, ◌==◌, ltb, String, Bool, false, not, ◌&&◌, Option, none, some,
  List, [], ◌∷◌, ◌++◌, all, keep, length, count_if, one_of, str_eq, if◌then◌else◌,
}
use ai_project.Patches.{Patch}
use ai_project.Inserts.{add_rows}
use ai_project.Validator.{
  Check, Tools, check_diff_format, check_syntax, check_in_sandbox, detect_language, is_stub_content,
  syntax_check,
}

-- A row of the table `validation_results`; its own identifier and its time are left out.
pub record ValidationRow : Type 0 where
  pub job_id : ℕ
  pub patch_id : ℕ
  pub passed : Bool
  pub overall_score : ℕ
  pub checks : List Check

-- `round(passed / total, 3)`, in thousandths: of at most three checks, no quotient lies half-way
unfoldable pub score : ℕ → ℕ → ℕ
score passed total = if ltb 0 total then (2000 * passed + total) / (2 * total) else 0

-- the content of a patch that is checked, and its language
abbrev pub content_of : Patch → String
content_of patch = or_else patch.patched_content patch.original_content

unfoldable pub language_of : Patch → String
unfolding detect_language
language_of patch = or_else patch.language (detect_language patch.file_path)

-- the check of the sandbox, if there is one
abbrev pub if_any : Option Check → List Check
if_any none = []
if_any (some check) = check ∷ []

-- the checks that `_validate_patch` collects
unfoldable pub checks_of : Tools → Patch → List Check
unfolding check_diff_format check_syntax check_in_sandbox is_stub_content language_of
checks_of tools patch =
    let content = content_of patch in
    let language = language_of patch in
    let wanted = not (str_eq content "") && not (is_stub_content content) in
    let sandbox =
      if wanted then check_in_sandbox tools content language patch.file_path else none in
    check_diff_format patch.diff ∷ check_syntax tools content language ∷ if_any sandbox

-- the verdict on some checks
unfoldable pub verdict : ℕ → ℕ → List Check → ValidationRow
unfolding score
verdict job_id patch_id checks = record {
  job_id = job_id;
  patch_id = patch_id;
  passed =
      all (λ (c : Check). c.passed)
        (keep (λ (c : Check). one_of c.check_type ("syntax" ∷ "lint" ∷ [])) checks);
  overall_score = score (count_if (λ (c : Check). c.passed) checks) (length checks);
  checks = checks;
}

-- `_validate_patch`
unfoldable pub validate_patch : Tools → ℕ → Patch → ValidationRow
unfolding checks_of verdict
validate_patch tools job_id patch = verdict job_id patch.id (checks_of tools patch)

-- the row of a patch whose validation raises
abbrev pub error_row : ℕ → ℕ → String → ValidationRow
error_row job_id patch_id message = record {
  job_id = job_id;
  patch_id = patch_id;
  passed = false;
  overall_score = 0;
  checks = syntax_check "error" false message ∷ [];
}

-- The numbers that `run` returns.
pub record Summary : Type 0 where
  pub patches_validated : ℕ
  pub passed : ℕ
  pub failed : ℕ

module _ (tools : Tools) (raises : Patch → Option String) (job_id : ℕ) where
  -- one turn of the loop; `raises` says which validations raise, and with what message
  abbrev pub row_of : Patch → ValidationRow
  row_of patch = elim (raises patch) [
    | none ↦ validate_patch tools job_id patch
    | some message ↦ error_row job_id patch.id message
  ]

  -- the loop: the counters and the collected rows
  unfoldable pub validate_each :
      List Patch → ℕ × ℕ × List ValidationRow → ℕ × ℕ × List ValidationRow
  unfolding validate_patch
  validate_each [] (passed, failed, rows) = (passed, failed, rows)
  validate_each (patch ∷ patches) (passed, failed, rows) =
      let row = row_of patch in
      validate_each patches (
        (if row.passed then suc passed else passed),
        (if row.passed then failed else suc failed),
        rows ++ row ∷ [],
      )

  -- `run` behind its query; `accepts` says which insertions the database accepts
  unfoldable pub run_pending :
      (List ValidationRow → List ValidationRow → Bool)
      → List Patch
      → List ValidationRow
      → Summary × List ValidationRow
  unfolding validate_each
  run_pending accepts [] table = (record { patches_validated = 0; passed = 0; failed = 0 }, table)
  run_pending accepts (p ∷ ps) table =
      let (passed, failed, rows) = validate_each (p ∷ ps) (0, 0, []) in
      let (count, after) = add_rows accepts rows table in
      (record { patches_validated = length (p ∷ ps); passed = passed; failed = failed }, after)

  -- `run`
  unfoldable pub run :
      (List ValidationRow → List ValidationRow → Bool)
      → List Patch
      → List ValidationRow
      → Summary × List ValidationRow
  unfolding run_pending
  run accepts patches table =
      run_pending accepts
        (keep (λ (p : Patch). (p.job_id == job_id) && str_eq p.status "pending") patches) table
