-- ===== src/Report/Examples.antt =====
-- The score of a job that gets a critical smell, and the report of a job with two patches.
use ai_project.Prelude.{ℕ, ◌*◌, ◌-◌, ◌/◌, ◌≤◌, ◌≡◌, ◌⊎◌, true, false, none, some, List, [], ◌∷◌}
use ai_project.Planner.{Smell}
use ai_project.Job.{Job}
use ai_project.Patches.{Patch, ValidationResult}
use ai_project.Report.{score_of, ReportTables}
use ai_project.Report.Score.{is_counted, score_of-antitone}

abbrev cycle : Smell
cycle = record {
  id = 1;
  job_id = 7;
  smell_type = "circular_dependency";
  severity = "critical";
  method_count = none;
  loc = none;
  file_path = none;
  llm_rationale = none;
  dismissed = false;
}

-- The exact quotient, rounded down.
abbrev exact : ℕ → ℕ → ℕ
exact p g = (g - p) * 20 / g

score_of-antitone_example :
    (score_of exact 7 (cycle ∷ []) 3 2 ≤ score_of exact 7 [] 3 2)
    × ((is_counted 7 cycle ≡ true) ⊎ (score_of exact 7 (cycle ∷ []) 3 2 ≡ score_of exact 7 [] 3 2))
    × (score_of exact 7 [] 3 2 ≤ 100)
score_of-antitone_example = score_of-antitone exact 7 cycle [] 3 2

abbrev smells : List Smell
smells =
    cycle
    ∷ record cycle { id = 2; severity = "odd"; smell_type = "dead_code" }
    ∷ record cycle { id = 3; dismissed = true }
    ∷ record cycle { id = 4; job_id = 8 }
    ∷ []

abbrev fix : Patch
fix = record {
  id = 1;
  job_id = 7;
  task_id = 1;
  file_path = "orders.py";
  patch_type = "modify";
  language = "python";
  status = "pending";
  original_content = "x = 1";
  patched_content = "x = 2";
  diff = "-x = 1";
  tokens_used = none;
  model_used = none;
  applied_at = none;
  applied_by = none;
  reverted_at = none;
  reverted_reason = none;
  created_at = 5;
  updated_at = 5;
}

abbrev patches : List Patch
patches = fix ∷ record fix { id = 2; job_id = 8 } ∷ record fix { id = 3; language = "java" } ∷ []

-- The first patch failed and passed later; the third has no result.
abbrev results : List ValidationResult
results =
    record { patch_id = 1; passed = false; created_at = 6 }
    ∷ record { patch_id = 1; passed = true; created_at = 9 }
    ∷ record { patch_id = 2; passed = true; created_at = 9 }
    ∷ []

abbrev tables : ReportTables
tables = record { smells = smells; plans = []; tasks = []; patches = patches; results = results }

abbrev job : Job
job = record {
  status = "complete";
  current_stage = none;
  languages = "python" ∷ "java" ∷ [];
  file_count = some 2;
  total_lines = none;
  config = record { eager_embeddings = false; deferred_stages = none };
  ucg_node_count = none;
  ucg_edge_count = none;
  smell_count = some 3;
  patch_count = some 2;
  error_message = none;
  error_stage = none;
  started_at = none;
  completed_at = none;
}

abbrev thousandths : ℕ → ℕ → ℕ
thousandths p g = p * 1000 / g
