-- ===== src/Patches/Examples.antt =====
-- Two patches of a job, one of them failed, with their validation results.
use ai_project.Prelude.{refl, true, false, none, some, List, [], ◌∷◌, All, Holds}
use ai_project.Patches.{Patch, ValidationResult, apply, revert}
use ai_project.Patches.Review.{is_stamped}
use ai_project.Patches.Sequence.{Request, serve, serve-is_stamped}

abbrev fix : Patch
fix = record {
  id = 1;
  job_id = 7;
  task_id = 1;
  file_path = "orders.py";
  patch_type = "modify";
  language = "python";
  status = "pending";
  original_content = "x = 1";
  patched_content = "x = 2";
  diff = "-x = 1";
  tokens_used = some 100;
  model_used = none;
  applied_at = none;
  applied_by = none;
  reverted_at = none;
  reverted_reason = none;
  created_at = 5;
  updated_at = 5;
}

abbrev broken : Patch
broken = record fix { id = 2; status = "failed"; patched_content = "" }

abbrev patches : List Patch
patches = fix ∷ broken ∷ []

abbrev requests : List Request
requests =
    record { job_id = 7; patch_id = 1; action = apply 8 (some "ann") }
    ∷ record { job_id = 7; patch_id = 2; action = apply 9 none }
    ∷ record { job_id = 7; patch_id = 1; action = revert 10 "tests fail" }
    ∷ []

serve-is_stamped_example : All (Holds is_stamped) (serve (7 ∷ []) requests patches)
serve-is_stamped_example = serve-is_stamped (7 ∷ []) requests patches (refl, (refl, tt))

abbrev results : List ValidationResult
results =
    record { patch_id = 1; passed = false; created_at = 6 }
    ∷ record { patch_id = 2; passed = false; created_at = 6 }
    ∷ record { patch_id = 1; passed = true; created_at = 9 }
    ∷ []
