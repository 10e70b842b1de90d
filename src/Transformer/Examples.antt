-- ===== src/Transformer/Examples.antt =====
-- A plan with two automated tasks, one of which raises, and a model that answers with a diff.
use ai_project.Prelude.{
  ◌≡◌, ◌≢◌, refl, String, Bool, true, false, Option, none, some, List, [], ◌∷◌, ◌==◌, strip, str_eq,
}
use ai_project.Plans.{PlanTask}
use ai_project.Patches.{Patch}
use ai_project.Transformer.{Environment, Completion, generate_patch}
use ai_project.Transformer.Endpoint.{Tables, generate_patches}
use ai_project.Transformer.Drafts.{IsContent, generate_patch-IsDraft}
use ai_project.Transformer.Generated.{Serves, generate_patches-Serves}

abbrev task : PlanTask
task = record {
  id = 3;
  plan_id = 1;
  job_id = 7;
  title = "Split 'Orders'";
  description = "Too large";
  smell_ids = [];
  affected_files = "orders.py" ∷ [];
  refactor_pattern = "extract_class";
  dependencies = [];
  estimated_hours = some 40;
  automated = true;
  status = "approved";
  priority_override = none;
  notes = none;
}

abbrev answer : Completion
answer = record {
  content = "--- a/orders.py\n+++ b/orders.py\n@@ -1 +1 @@\n-x = 1\n+x = 2\n";
  input_tokens = 90;
  output_tokens = 10;
  model = "m";
}

abbrev complete : PlanTask → String → Option Completion
complete t original = some answer

abbrev env : Environment
env = record {
  job_id = 7;
  read_file = λ path. some "x = 1\n";
  llm = some complete;
  interrupted = λ t. t.id == 4;
  unified_diff = λ original new path. "";
  write_hours = λ hours. "4.0";
  new_id = λ t. t.id;
  now = 5;
}

begins_like_diff : str_eq (strip "--- a\n") "--- a" ≡ true
unfolding strip
begins_like_diff = refl

generate_patch-IsDraft_example :
    let patch = generate_patch env task in
    (patch.status ≡ "pending")
    × (patch.task_id ≡ 3)
    × (patch.diff ≢ "")
    × IsContent env task patch.original_content patch.patched_content
generate_patch-IsDraft_example = generate_patch-IsDraft env task

abbrev tables : Tables
tables = record {
  job = some record { status = "complete"; repo_path = some "/tmp/alm_job_7"; patch_count = none };
  tasks = task ∷ record task { id = 4 } ∷ record task { id = 5; automated = false } ∷ [];
  patches = [];
}

abbrev sure : Patch → Bool
sure p = true

abbrev accepts : List Patch → List Patch → Bool
accepts table rows = true

generate_patches-Serves_example :
    Serves env sure (some []) tables (generate_patches env accepts (λ path. true) (some []) tables)
generate_patches-Serves_example =
    generate_patches-Serves env sure accepts (λ p table h. refl) (λ path. true) (some []) tables
