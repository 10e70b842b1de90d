-- ===== src/Plans/Examples.antt =====
-- A plan with two tasks, its review, and its regeneration.
use ai_project.Prelude.{
  ◌≡◌, refl, ◌==◌, ◌+◌, true, none, some, List, [], ◌∷◌, arith, find_row, lower, if◌then◌else◌,
}
use ai_project.Pagination.{pos}
use ai_project.Plans.{
  Plan, PlanTask, PlanTaskUpdateRequest, PlanDb, ok, update_task, new_status, changed_task,
  find_task, valid_status_transitions, get_latest_plan, get_plan, regenerate_plan,
}
use ai_project.Plans.Review.{IsReviewed, id_of, update_task-writes}
use ai_project.Plans.Sequence.{Request, serve, Stays, is_decided, serve-decided}
use ai_project.Plans.Versions.{version_of, regenerate_plan-serves-empty}

abbrev first : PlanTask
first = record {
  id = 1;
  plan_id = 10;
  job_id = 7;
  title = "Split 'Orders'";
  description = "Orders has 12 methods";
  smell_ids = 3 ∷ [];
  affected_files = "orders.py" ∷ [];
  refactor_pattern = "extract_class";
  dependencies = [];
  estimated_hours = some 80;
  automated = true;
  status = "pending";
  priority_override = none;
  notes = none;
}

abbrev second : PlanTask
second = record first { id = 2; status = "applied" }

abbrev approval : PlanTaskUpdateRequest
approval = record { status = some "Approved"; priority_override = some (pos 1); notes = none }

abbrev approved : PlanTask
approved = record first { status = "approved"; priority_override = some (pos 1) }

update_task-writes_example :
    IsReviewed approval first approved
    × (find_row id_of 2 (approved ∷ second ∷ []) ≡ (if 1 == 2 then some approved else some second))
unfolding update_task new_status changed_task find_task valid_status_transitions lower
update_task-writes_example =
    update_task-writes (7 ∷ []) 7 1 approval (first ∷ second ∷ []) (approved ∷ second ∷ []) first
      approved refl refl 2

abbrev requests : List Request
requests =
    record { job_id = 7; task_id = 1; body = record approval { status = some "rejected" } }
    ∷ record { job_id = 7; task_id = 2; body = approval }
    ∷ record { job_id = 8; task_id = 1; body = approval }
    ∷ []

serve-decided_example : Stays is_decided 1 (serve (7 ∷ []) requests (approved ∷ second ∷ []))
serve-decided_example =
    serve-decided (7 ∷ []) requests (approved ∷ second ∷ []) 1 (approved, refl, refl)

abbrev plan : Plan
plan = record {
  id = 10;
  job_id = 7;
  version = 1;
  estimated_effort_hours = some 80;
  risk_level = some "high";
  priority_order = 1 ∷ 2 ∷ [];
}

abbrev empty_plan : Plan
empty_plan = record {
  id = 11;
  job_id = 7;
  version = 2;
  estimated_effort_hours = none;
  risk_level = none;
  priority_order = [];
}

abbrev unregenerated : PlanDb
unregenerated = record { plans = plan ∷ []; tasks = first ∷ second ∷ [] }

abbrev after : PlanDb
after = record unregenerated { plans = plan ∷ empty_plan ∷ [] }

regenerate_plan-serves-empty_example :
    (get_plan (7 ∷ []) none 7 after
      ≡ ok (record {
        plan_id = 11;
        estimated_effort_hours = none;
        risk_level = none;
        task_count = 0;
        automated_task_count = 0;
        priority_order = [];
        tasks = [];
      }))
    × (version_of (get_latest_plan 7 after.plans)
        ≡ version_of (get_latest_plan 7 unregenerated.plans) + 1)
unfolding regenerate_plan get_latest_plan
regenerate_plan-serves-empty_example =
    regenerate_plan-serves-empty (7 ∷ []) 3 7 11 unregenerated after
      (λ h. absurd (omega (arith, h)), (λ h. absurd (omega (arith, h)), tt)) refl
