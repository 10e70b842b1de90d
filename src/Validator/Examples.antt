-- ===== src/Validator/Examples.antt =====
-- Three patches of a job: one whose subprocess fails, one in Java that passes, and one without a diff.
use ai_project.Prelude.{
  ◌≡◌, ◌≢◌, refl, String, Bool, true, false, Option, none, some, List, [], ◌∷◌, ◌==◌, map,
  if◌then◌else◌, strip, split_lines, split_at, lower,
}
use ai_project.Patches.{Patch}
use ai_project.Validator.{Tools, timed_out, suffix, detect_language}
use ai_project.Validator.Run.{ValidationRow, validate_patch, run, language_of}
use ai_project.Validator.Verdict.{Sound, validate_patch-Sound}
use ai_project.Validator.Reported.{Reports, pending_of, rows_of, run-Reports}

abbrev java_patch : Patch
java_patch = record {
  id = 1;
  job_id = 7;
  task_id = 3;
  file_path = "src/Order.Java";
  patch_type = "modify";
  language = "java";
  status = "pending";
  original_content = "";
  patched_content = "class A {}";
  diff = "--- a\n+++ b\n";
  tokens_used = none;
  model_used = none;
  applied_at = none;
  applied_by = none;
  reverted_at = none;
  reverted_reason = none;
  created_at = 5;
  updated_at = 5;
}

abbrev python_patch : Patch
python_patch = record java_patch {
  id = 2;
  file_path = "a.py";
  language = "python";
  patched_content = "x = 1";
}

abbrev undiffed : Patch
undiffed = record java_patch { id = 3; diff = " \n" }

abbrev tools : Tools
tools = record { ast_parse = λ content. none; py_compile = λ content path. timed_out }

detected : detect_language "src/Order.Java" ≡ "java"
unfolding detect_language suffix lower split_at
detected = refl

windows_lines : split_lines "a\r\nb\n" ≡ "a" ∷ "b" ∷ []
unfolding split_lines
windows_lines = refl

passed_two : (validate_patch tools 7 python_patch).overall_score ≡ 667
unfolding validate_patch strip split_lines
passed_two = refl

validate_patch-Sound_example : Sound (validate_patch tools 7 python_patch)
validate_patch-Sound_example = validate_patch-Sound tools 7 python_patch

java_is_not_python : language_of java_patch ≢ "python"
unfolding language_of
java_is_not_python h = absurd (cc)

abbrev patches : List Patch
patches =
    java_patch ∷ python_patch ∷ record java_patch { id = 4; status = "applied" } ∷ undiffed ∷ []

abbrev raises : Patch → Option String
raises p = if p.id == 2 then some "no space left" else none

abbrev refuses_three : List ValidationRow → List ValidationRow → Bool
refuses_three table [] = true
refuses_three table (r ∷ []) = if r.patch_id == 3 then false else true
refuses_three table (r ∷ s ∷ rows) = false

abbrev sure : ValidationRow → Bool
sure r = if r.patch_id == 3 then false else true

run-Reports_example :
    Reports tools raises 7 sure
      (pending_of 7 patches)
      []
      (run tools raises 7 refuses_three patches [])
    × (map (λ r. r.patch_id) (rows_of tools raises 7 (pending_of 7 patches))
        ≡ map (λ p. p.id) (pending_of 7 patches))
run-Reports_example = run-Reports tools raises 7 sure refuses_three (λ r table h. h) patches []
