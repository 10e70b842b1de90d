-- ===== src/Transformer.antt =====
-- The transformer of backend/app/agents/transformer.py, which drafts a patch for every automated task
-- of a plan, and the endpoint of backend/app/api/v1/patches.py that calls it. The language model,
-- difflib, the files of the repository and the way a number of hours is written are parameters; the
-- texts of the prompts are left out. `_detect_language` is the same function as the validator's.
pub mod Drafts
pub mod Endpoint
pub mod Generated
mod Examples
use ai_project.Prelude.{
  ℕ, suc, ◌+◌, ◌==◌, min, String, Bool, true, false, not, ◌&&◌, ◌||◌, Option, none, some, List, [],
  ◌∷◌, ◌++◌, keep, map, length, elem, or_else, ltb, str_eq, one_of, strip, contains, starts_with,
  join_text, first_chars, if◌then◌else◌,
}
use Prim.Native.String.{len, slice}
use ai_project.Plans.{PlanTask}
use ai_project.Patches.{Patch}
use ai_project.Inserts.{add_rows}
use ai_project.Validator.{detect_language}

pub record Completion : Type 0 where
  pub content : String
  pub input_tokens : ℕ
  pub output_tokens : ℕ
  pub model : String

-- What an agent gets from its environment. `read_file` is none where a file does not exist or
-- cannot be read; `complete` is none where the call raises; `interrupted` says which drafts end with
-- an exception all the same; `unified_diff` joins the lines that difflib yields.
pub record Environment : Type 0 where
  pub job_id : ℕ
  pub read_file : String → Option String
  pub llm : Option (PlanTask → String → Option Completion)
  pub interrupted : PlanTask → Bool
  pub unified_diff : String → String → String → String
  pub write_hours : Option ℕ → String
  pub new_id : PlanTask → ℕ
  pub now : ℕ

-- `_apply_diff_to_get_patched`: the patched content and the diff
unfoldable pub apply_diff_to_get_patched :
    (String → String → String → String) → String → String → String → String × String
apply_diff_to_get_patched unified_diff original llm_output file_path =
    if starts_with llm_output "---" || contains (first_chars 500 llm_output) "@@"
    then (original, llm_output)
    else if ltb 50 (len llm_output)
    then (llm_output, unified_diff original llm_output file_path)
    else (original, "")

-- one text after the other
unfoldable pub lines_of : List String → String
lines_of [] = ""
lines_of (s ∷ texts) = join_text s (lines_of texts)

-- `_make_stub_diff`
unfoldable pub make_stub_diff : (Option ℕ → String) → String → PlanTask → String
unfolding lines_of
make_stub_diff write_hours file_path task = lines_of (
    "--- a/"
    ∷ file_path
    ∷ "\n+++ b/"
    ∷ file_path
    ∷ "\n@@ -1,1 +1,1 @@\n"
    ∷ "-# TODO: Apply refactoring manually\n+# REFACTORING TASK: "
    ∷ task.title
    ∷ "\n+# Pattern: "
    ∷ task.refactor_pattern
    ∷ "\n+# Description: "
    ∷ first_chars 200 task.description
    ∷ "\n+# Estimated effort: "
    ∷ write_hours task.estimated_hours
    ∷ "h\n+# This patch was generated as a stub because LLM was not available\n"
    ∷ "+# or the source file could not be located.\n"
    ∷ [])

-- what a draft has of the language model
pub record Draft : Type 0 where
  pub patched_content : String
  pub diff : String
  pub tokens_used : ℕ
  pub model_used : String

module _ (env : Environment) where
  -- `task.affected_files[0]`, where there is one
  unfoldable pub file_of : PlanTask → String
  file_of task = elim task.affected_files [ [] ↦ "unknown" | path ∷ paths ↦ path ]

  -- the original content; `unknown` names no file
  unfoldable pub original_of : String → String
  original_of file_path =
      if str_eq file_path "unknown"
      then ""
      else (elim (env.read_file file_path) [ none ↦ "" | some content ↦ content ])

  -- the call of the model, or the stub in its place
  unfoldable pub draft : PlanTask → String → String → Draft
  unfolding apply_diff_to_get_patched strip
  draft task file_path original =
      let stub : Draft = record {
        patched_content = original;
        diff = make_stub_diff env.write_hours file_path task;
        tokens_used = 0;
        model_used = "stub";
      } in
      elim env.llm [
        | none ↦ stub
        | some complete ↦ elim (complete task original) [
          | none ↦ stub
          | some c ↦
              let (patched, diff) =
                apply_diff_to_get_patched env.unified_diff original (strip c.content) file_path in
              record {
                patched_content = patched;
                diff = diff;
                tokens_used = c.input_tokens + c.output_tokens;
                model_used = c.model;
              }
        ]
      ]

  -- `_generate_patch`
  unfoldable pub generate_patch : PlanTask → Patch
  unfolding file_of original_of draft detect_language make_stub_diff
  generate_patch task =
      let file_path = file_of task in
      let original = original_of file_path in
      let d = draft task file_path original in
      record {
        id = env.new_id task;
        job_id = env.job_id;
        task_id = task.id;
        file_path = file_path;
        patch_type = "modify";
        language = detect_language file_path;
        status = "pending";
        original_content = original;
        patched_content = d.patched_content;
        diff = or_else d.diff (make_stub_diff env.write_hours file_path task);
        tokens_used = some d.tokens_used;
        model_used = some d.model_used;
        applied_at = none;
        applied_by = none;
        reverted_at = none;
        reverted_reason = none;
        created_at = env.now;
        updated_at = env.now;
      }

  -- the tasks that `run` loads: an absent or empty list of identifiers selects all
  unfoldable pub is_selected : Option (List ℕ) → PlanTask → Bool
  is_selected task_ids task =
      let wanted : Bool = elim task_ids [
        | none ↦ true
        | some [] ↦ true
        | some (id ∷ ids) ↦ elem task.id (id ∷ ids)
      ] in
      (task.job_id == env.job_id)
      && task.automated
      && one_of task.status ("pending" ∷ "approved" ∷ [])
      && wanted

  -- the patches of some tasks: a draft that ends with an exception is passed over
  abbrev pub patches_of : List PlanTask → List Patch
  patches_of tasks = map generate_patch (keep (λ t. not (env.interrupted t)) tasks)

-- What `run` returns; the early return has no `patch_ids`.
pub record Result : Type 0 where
  pub patches_created : ℕ
  pub patch_ids : Option (List ℕ)

module _ (env : Environment) (accepts : List Patch → List Patch → Bool) where
  -- `run` behind its query
  unfoldable pub run_tasks : List PlanTask → List Patch → Result × List Patch
  unfolding generate_patch
  run_tasks [] table = (record { patches_created = 0; patch_ids = none }, table)
  run_tasks (t ∷ tasks) table =
      let rows = patches_of env (t ∷ tasks) in
      (
        record { patches_created = length rows; patch_ids = some (map (λ (p : Patch). p.id) rows) },
        elim rows [
          | [] ↦ table
          | r ∷ rs ↦ (let (count, after) = add_rows accepts (r ∷ rs) table in after)
        ],
      )

  -- `run`
  unfoldable pub run : Option (List ℕ) → List PlanTask → List Patch → Result × List Patch
  unfolding run_tasks is_selected
  run task_ids tasks table = run_tasks (keep (is_selected env task_ids) tasks) table
