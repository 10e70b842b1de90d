-- ===== src/Planner/Stored.antt =====
-- What a run of the planner stores, and what it reports.
use ai_project.Prelude.{
  ℕ, suc, ◌+◌, ◌≡◌, refl, sym, ap, ◌∙◌, inl, inr, String, Bool, not, List, [], ◌∷◌, ◌++◌, ◌==◌,
  ◌&&◌, keep, map, length, length-map, count_if, arith, Bool-cases, if◌then◌else◌, length-append,
  length-keep,
}
use ai_project.Planner.{
  Smell, Task, TaskRow, Db, Result, nothing_to_plan, planned, failed_to_insert, sort_smells,
  insert_smell, smell_to_task, task_rows, run, total, compute_risk_level,
}

-- The smells that the planner loads for a job.
abbrev pub is_open : ℕ → Smell → Bool
is_open job_id s = (s.job_id == job_id) && not s.dismissed

length-insert_smell :
    (s : Smell) (smells : List Smell) → length (insert_smell s smells) ≡ suc (length smells)
unfolding insert_smell
length-insert_smell s [] = refl
length-insert_smell s (t ∷ ts) = ground (arith, length-insert_smell s ts)

length-sort_smells : (smells : List Smell) → length (sort_smells smells) ≡ length smells
unfolding sort_smells
length-sort_smells [] = refl
length-sort_smells (s ∷ smells) =
    length-insert_smell s (sort_smells smells) ∙ ap suc (length-sort_smells smells)

module _ (round_tenths : ℕ → ℕ → ℕ) where
  -- The tasks that a job's open smells give, in the planned order.
  abbrev pub tasks_for : ℕ → List Smell → List Task
  tasks_for job_id table =
      map (smell_to_task round_tenths) (sort_smells (keep (is_open job_id) table))

  length-tasks_for :
      (job_id : ℕ) (table : List Smell)
      → length (tasks_for job_id table) ≡ count_if (is_open job_id) table
  length-tasks_for job_id table =
      length-map (smell_to_task round_tenths) (sort_smells (keep (is_open job_id) table))
      ∙ length-sort_smells (keep (is_open job_id) table)
      ∙ length-keep (is_open job_id) table

  module _ (plan_ok bulk order_ok : Bool) (row : Task → Bool) (fresh : ℕ → ℕ) where
    abbrev rows_from : ℕ → ℕ → ℕ → List Task → List TaskRow
    rows_from = task_rows fresh

    length-task_rows :
        (n plan_id job_id : ℕ) (tasks : List Task)
        → length (rows_from n plan_id job_id tasks) ≡ length tasks
    unfolding task_rows
    length-task_rows n plan_id job_id [] = refl
    length-task_rows n plan_id job_id (t ∷ tasks) =
        ap suc (length-task_rows (suc n) plan_id job_id tasks)

    count_if-task_rows :
        (n plan_id job_id : ℕ) (tasks : List Task)
        → count_if (λ (r : TaskRow). row r.task) (rows_from n plan_id job_id tasks)
          ≡ count_if row tasks
    unfolding task_rows
    count_if-task_rows n plan_id job_id [] = refl
    count_if-task_rows n plan_id job_id (t ∷ tasks) =
        ap (λ m. if row t then suc m else m) (count_if-task_rows (suc n) plan_id job_id tasks)

    -- The tasks that the database accepts.
    abbrev pub tasks_stored : List Task → ℕ
    tasks_stored tasks = if bulk then length tasks else count_if row tasks

    stored-length :
        (plan_id job_id : ℕ) (tasks : List Task)
        → length (
            if bulk
            then rows_from 1 plan_id job_id tasks
            else keep (λ (r : TaskRow). row r.task) (rows_from 1 plan_id job_id tasks))
          ≡ tasks_stored tasks
    stored-length plan_id job_id tasks = elim (Bool-cases bulk) [
      | inl whole ↦ rw whole (length-task_rows 1 plan_id job_id tasks)
      | inr each ↦ rw each (
          length-keep (λ (r : TaskRow). row r.task) (rows_from 1 plan_id job_id tasks)
          ∙ count_if-task_rows 1 plan_id job_id tasks)
    ]

    -- A run that plans reports one task for every open smell of the job, with the sum of their efforts
    -- and the risk level of their severities. It stores as many of the tasks as the database accepts: the
    -- report counts the others too, wherever a row is skipped.
    pub run-reports :
        (job_id : ℕ) (table : List Smell) (db db' : Db) (plan_id created effort : ℕ) (risk : String)
        → run round_tenths plan_ok bulk order_ok row fresh job_id table db
          ≡ (planned plan_id created effort risk, db')
        → (created ≡ count_if (is_open job_id) table)
          × (effort ≡ total (tasks_for job_id table))
          × (risk ≡ compute_risk_level (sort_smells (keep (is_open job_id) table)))
          × (length db'.tasks ≡ length db.tasks + tasks_stored (tasks_for job_id table))
          × (length db'.plans ≡ suc (length db.plans))
    unfolding run
    run-reports job_id table db db' plan_id created effort risk h =
        let tasks = tasks_for job_id table in
        let rows = rows_from 1 (fresh 0) job_id tasks in
        let stored : List TaskRow =
          if bulk then rows else keep (λ (r : TaskRow). row r.task) rows in
        let out : Result × Db = (planned plan_id created effort risk, db') in
        elim (Bool-cases (length tasks == 0)) [
          | inl none_open ↦
              absurd (let bad : (nothing_to_plan, db) ≡ out = rw (run, none_open) at h in cc)
          | inr some_open ↦ elim (Bool-cases plan_ok) [
            | inr refused ↦
                absurd
                  (let bad : (failed_to_insert, db) ≡ out = rw (run, some_open, refused) at h in cc)
            | inl inserted ↦
                let q = rw (run, some_open, inserted) at h in
                let n : length rows ≡ created = cc (q) in
                let e : total tasks ≡ effort = cc (q) in
                let r : compute_risk_level (sort_smells (keep (is_open job_id) table)) ≡ risk =
                  cc (q) in
                let t : db.tasks ++ stored ≡ db'.tasks = ap (λ (o : Result × Db). o.1.tasks) q in
                (
                  sym n ∙ length-task_rows 1 (fresh 0) job_id tasks ∙ length-tasks_for job_id table,
                  sym e,
                  sym r,
                  ap length (sym t)
                      ∙ length-append db.tasks stored
                      ∙ ap (λ m. length db.tasks + m) (stored-length (fresh 0) job_id tasks),
                  ap (λ (o : Result × Db). length o.1.plans) (sym q)
                      ∙ length-append db.plans _
                      ∙ omega arith,
                )
          ]
        ]
