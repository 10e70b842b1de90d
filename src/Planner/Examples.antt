-- ===== src/Planner/Examples.antt =====
-- Three smells of a job, one of them dismissed, and the plan made of them.
use ai_project.Prelude.{
  ℕ, ◌+◌, ◌*◌, ◌/◌, ◌≡◌, refl, Bool, true, false, none, some, List, [], ◌∷◌, keep, length, count_if,
  str_eq,
}
use ai_project.Planner.{
  Smell, Task, Db, severity_rank, insert_smell, sort_smells, mapping_in, effort_of, smell_to_task,
  task_rows, run, total, compute_risk_level,
}
use ai_project.Planner.Stored.{is_open, tasks_for, tasks_stored, run-reports}

abbrev long : Smell
long = record {
  id = 1;
  job_id = 7;
  smell_type = "long_method";
  severity = "medium";
  method_count = none;
  loc = some 75;
  file_path = some "orders.py";
  llm_rationale = none;
  dismissed = false;
}

abbrev god : Smell
god = record long {
  id = 2;
  smell_type = "god_class";
  severity = "high";
  method_count = some 45;
  loc = none;
}

abbrev unused : Smell
unused = record long { id = 3; smell_type = "dead_code"; severity = "low"; dismissed = true }

abbrev table : List Smell
table = long ∷ god ∷ unused ∷ []

-- Rounding down to tenths.
abbrev floor_tenths : ℕ → ℕ → ℕ
floor_tenths n d = 10 * n / d

-- The second row is refused, after the whole insertion.
abbrev refuses_methods : Task → Bool
refuses_methods t = str_eq t.refactor_pattern "extract_class"

abbrev empty : Db
empty = record { plans = []; tasks = [] }

abbrev after : Db
after = (run floor_tenths true false true refuses_methods (λ i. 100 + i) 7 table empty).1

run-reports_example :
    (2 ≡ count_if (is_open 7) table)
    × (120 ≡ total (tasks_for floor_tenths 7 table))
    × ("high" ≡ compute_risk_level (sort_smells (keep (is_open 7) table)))
    × (length after.tasks
        ≡ 0
          + tasks_stored floor_tenths true false true refuses_methods
              (λ i. 100 + i)
              (tasks_for floor_tenths 7 table))
    × (length after.plans ≡ 1)
unfolding run sort_smells insert_smell severity_rank smell_to_task mapping_in effort_of task_rows
    compute_risk_level
run-reports_example =
    run-reports floor_tenths true false true refuses_methods (λ i. 100 + i) 7 table empty after 100
      2 120 "high" refl
