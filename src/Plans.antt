-- ===== src/Plans.antt =====
-- Refactor plans and their tasks (backend/app/models/plan.py) and the endpoints on them
-- (backend/app/api/v1/plan.py). Hours are counted in tenths. A cached answer enters as an argument;
-- time stamps are left out, since rows are kept in the order of their creation.
pub mod Review
pub mod Sequence
pub mod Versions
mod Examples
use ai_project.Prelude.{
  ℕ, ◌+◌, ◌-◌, String, Bool, true, false, Option, none, some, List, [], ◌∷◌, ◌++◌, ◌==◌, ◌&&◌,
  str_eq, one_of, elem, lower, keep, count_if, length, ltb, if◌then◌else◌, find_row, replace_row,
}
use ai_project.Pagination.{QueryInt, at_least_one, clamp_size, PaginationMeta, meta_of, page_rows}

pub record Plan : Type 0 where
  pub id : ℕ
  pub job_id : ℕ
  pub version : ℕ
  pub estimated_effort_hours : Option ℕ
  pub risk_level : Option String
  pub priority_order : List ℕ

pub record PlanTask : Type 0 where
  pub id : ℕ
  pub plan_id : ℕ
  pub job_id : ℕ
  pub title : String
  pub description : String
  pub smell_ids : List ℕ
  pub affected_files : List String
  pub refactor_pattern : String
  pub dependencies : List ℕ
  pub estimated_hours : Option ℕ
  pub automated : Bool
  pub status : String
  pub priority_override : Option QueryInt
  pub notes : Option String

pub data ApiError : Type 0 where
  job_not_found plan_not_found task_not_found invalid_status_transition no_smells : ApiError

pub data Reply {ℓ} (A : Type ℓ) : Type ℓ where
  ok : A → Reply A
  err : ApiError → Reply A

-- `_VALID_STATUS_TRANSITIONS.get(status, set())`
unfoldable pub valid_status_transitions : String → List String
valid_status_transitions status =
    if str_eq status "pending"
    then "approved" ∷ "rejected" ∷ []
    else if str_eq status "approved"
    then "rejected" ∷ []
    else if str_eq status "rejected"
    then "approved" ∷ []
    else []

pub record PlanTaskUpdateRequest : Type 0 where
  pub status : Option String
  pub priority_override : Option QueryInt
  pub notes : Option String

-- `new if new is not None else old`
abbrev pub overriding {ℓ} : {A : Type ℓ} → Option A → Option A → Option A
overriding none old = old
overriding (some a) old = some a

-- the block on `body.status` in `update_task`
unfoldable pub new_status : Option String → String → Reply String
new_status none status = ok status
new_status (some wanted) status =
    if one_of (lower wanted) (valid_status_transitions status)
    then ok (lower wanted)
    else err invalid_status_transition

-- the changes that `update_task` makes to the loaded task
unfoldable pub changed_task : PlanTaskUpdateRequest → PlanTask → Reply PlanTask
unfolding new_status
changed_task body task = elim (new_status body.status task.status) [
  | err e ↦ err e
  | ok status ↦ ok (record task {
    status = status;
    priority_override = overriding body.priority_override task.priority_override;
    notes = overriding body.notes task.notes;
  })
]

-- `select(PlanTask).where(PlanTask.id == task_id, PlanTask.job_id == job_id)`
unfoldable pub find_task : ℕ → ℕ → List PlanTask → Option PlanTask
find_task job_id task_id tasks = elim (find_row (λ (t : PlanTask). t.id) task_id tasks) [
  | none ↦ none
  | some task ↦ if task.job_id == job_id then some task else none
]

-- `update_task`: the answer, and the table that it leaves
unfoldable pub update_task :
    List ℕ → ℕ → ℕ → PlanTaskUpdateRequest → List PlanTask → Reply (PlanTask × List PlanTask)
unfolding find_task changed_task
update_task jobs job_id task_id body tasks =
    if elem job_id jobs
    then elim (find_task job_id task_id tasks) [
      | none ↦ err task_not_found
      | some task ↦ elim (changed_task body task) [
        | err e ↦ err e
        | ok task' ↦ ok (task', replace_row (λ (t : PlanTask). t.id) task' tasks)
      ]
    ]
    else err job_not_found

-- `_get_latest_plan`: the first row by descending version
unfoldable pub get_latest_plan : ℕ → List Plan → Option Plan
get_latest_plan job_id [] = none
get_latest_plan job_id (plan ∷ plans) =
    let later = get_latest_plan job_id plans in
    if plan.job_id == job_id
    then elim later [
      | none ↦ some plan
      | some best ↦ if ltb plan.version best.version then some best else some plan
    ]
    else later

pub record PlanDb : Type 0 where
  pub plans : List Plan
  pub tasks : List PlanTask

-- The parts of the answer of `get_plan` that are computed.
pub record PlanResponse : Type 0 where
  pub plan_id : ℕ
  pub estimated_effort_hours : Option ℕ
  pub risk_level : Option String
  pub task_count : ℕ
  pub automated_task_count : ℕ
  pub priority_order : List ℕ
  pub tasks : List PlanTask

abbrev pub tasks_of : ℕ → List PlanTask → List PlanTask
tasks_of plan_id tasks = keep (λ t. t.plan_id == plan_id) tasks

-- `get_plan`
unfoldable pub get_plan : List ℕ → Option PlanResponse → ℕ → PlanDb → Reply PlanResponse
unfolding get_latest_plan
get_plan jobs (some cached) job_id db = if elem job_id jobs then ok cached else err job_not_found
get_plan jobs none job_id db =
    if elem job_id jobs
    then elim (get_latest_plan job_id db.plans) [
      | none ↦ err plan_not_found
      | some plan ↦
          let tasks = tasks_of plan.id db.tasks in
          ok (record {
            plan_id = plan.id;
            estimated_effort_hours = plan.estimated_effort_hours;
            risk_level = plan.risk_level;
            task_count = length tasks;
            automated_task_count = count_if (λ t. t.automated) tasks;
            priority_order = plan.priority_order;
            tasks = tasks;
          })
    ]
    else err job_not_found

-- `regenerate_plan`: the answer's plan identifier, and the database with the new row
unfoldable pub regenerate_plan : List ℕ → ℕ → ℕ → ℕ → PlanDb → Reply (ℕ × PlanDb)
unfolding get_latest_plan
regenerate_plan jobs smell_count job_id new_id db =
    if elem job_id jobs
    then (if smell_count == 0
        then err no_smells
        else let next_version : ℕ = elim (get_latest_plan job_id db.plans) [
          | none ↦ 1
          | some plan ↦ plan.version + 1
        ] in
          let new_plan : Plan = record {
            id = new_id;
            job_id = job_id;
            version = next_version;
            estimated_effort_hours = none;
            risk_level = none;
            priority_order = [];
          } in
          ok (new_id, record db { plans = db.plans ++ new_plan ∷ [] }))
    else err job_not_found
