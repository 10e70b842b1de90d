-- ===== src/Plans/Versions.antt =====
-- The versions of refactor plans, and what a regeneration serves (backend/app/api/v1/plan.py).
use ai_project.Prelude.{
  ℕ, ◌+◌, ◌<◌, ◌≡◌, ◌≢◌, refl, ap, sym, subst, true, Option, none, some, List, [], ◌∷◌, ◌++◌, elem,
  All, arith,
}
use ai_project.Plans.{
  Plan, PlanTask, PlanDb, ok, get_latest_plan, get_plan, tasks_of, regenerate_plan,
}

-- The version of the plan that is found, 0 if there is none.
abbrev pub version_of : Option Plan → ℕ
version_of none = 0
version_of (some plan) = plan.version

-- A plan that a job gets behind its others, with a higher version, is its latest.
get_latest_plan-append :
    (job_id : ℕ) (plans : List Plan) (p : Plan)
    → p.job_id ≡ job_id
    → version_of (get_latest_plan job_id plans) < p.version
    → get_latest_plan job_id (plans ++ p ∷ []) ≡ some p
unfolding get_latest_plan
get_latest_plan-append job_id [] p own above = ground arith
get_latest_plan-append job_id (q ∷ plans) p own above =
    ground (arith, get_latest_plan-append job_id plans p own)

fresh_tasks :
    (plan_id : ℕ) (tasks : List PlanTask)
    → All (λ (t : PlanTask). t.plan_id ≢ plan_id) tasks
    → tasks_of plan_id tasks ≡ []
fresh_tasks plan_id [] h = refl
fresh_tasks plan_id (t ∷ tasks) h = ground (arith, fresh_tasks plan_id tasks h.1)

-- The row that a regeneration adds.
abbrev next_plan : ℕ → ℕ → PlanDb → Plan
next_plan job_id new_id db = record {
  id = new_id;
  job_id = job_id;
  version = version_of (get_latest_plan job_id db.plans) + 1;
  estimated_effort_hours = none;
  risk_level = none;
  priority_order = [];
}

regenerate_plan-adds :
    (jobs : List ℕ) (smell_count job_id new_id : ℕ) (db db' : PlanDb)
    → regenerate_plan jobs smell_count job_id new_id db ≡ ok (new_id, db')
    → (elem job_id jobs ≡ true)
      × (db' ≡ record db { plans = db.plans ++ next_plan job_id new_id db ∷ [] })
unfolding regenerate_plan
regenerate_plan-adds jobs smell_count job_id new_id db db' h = ground arith

get_plan-uncached :
    (jobs : List ℕ) (job_id : ℕ) (db : PlanDb) (p : Plan)
    → elem job_id jobs ≡ true
    → get_latest_plan job_id db.plans ≡ some p
    → tasks_of p.id db.tasks ≡ []
    → get_plan jobs none job_id db
      ≡ ok (record {
        plan_id = p.id;
        estimated_effort_hours = p.estimated_effort_hours;
        risk_level = p.risk_level;
        task_count = 0;
        automated_task_count = 0;
        priority_order = p.priority_order;
        tasks = [];
      })
unfolding get_plan
get_plan-uncached jobs job_id db p known latest empty = rw (known, latest, empty)

-- Regeneration, where it succeeds with an identifier that no task uses, makes a plan of the next
-- version, and an uncached `get_plan` on the tables that it leaves serves that plan: it has no task, no
-- effort and no risk level, whatever tasks the job had before.
pub regenerate_plan-serves-empty :
    (jobs : List ℕ) (smell_count job_id new_id : ℕ) (db db' : PlanDb)
    → All (λ (t : PlanTask). t.plan_id ≢ new_id) db.tasks
    → regenerate_plan jobs smell_count job_id new_id db ≡ ok (new_id, db')
    → (get_plan jobs none job_id db'
        ≡ ok (record {
          plan_id = new_id;
          estimated_effort_hours = none;
          risk_level = none;
          task_count = 0;
          automated_task_count = 0;
          priority_order = [];
          tasks = [];
        }))
      × (version_of (get_latest_plan job_id db'.plans)
          ≡ version_of (get_latest_plan job_id db.plans) + 1)
regenerate_plan-serves-empty jobs smell_count job_id new_id db db' unused h =
    let (known, e) = regenerate_plan-adds jobs smell_count job_id new_id db db' h in
    let p = next_plan job_id new_id db in
    let added : PlanDb = record db { plans = db.plans ++ p ∷ [] } in
    let latest : get_latest_plan job_id added.plans ≡ some p =
      get_latest_plan-append job_id db.plans p refl (omega arith) in
    subst
      (λ (d : PlanDb).
        (get_plan jobs none job_id d
          ≡ ok (record {
            plan_id = new_id;
            estimated_effort_hours = none;
            risk_level = none;
            task_count = 0;
            automated_task_count = 0;
            priority_order = [];
            tasks = [];
          }))
        × (version_of (get_latest_plan job_id d.plans)
            ≡ version_of (get_latest_plan job_id db.plans) + 1))
      (sym e)
      (
        get_plan-uncached jobs job_id added p known latest (fresh_tasks new_id db.tasks unused),
        ap version_of latest,
      )
