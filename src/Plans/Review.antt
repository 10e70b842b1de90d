-- ===== src/Plans/Review.antt =====
-- The review of tasks: what one request changes, and what no sequence of requests can.
use ai_project.Prelude.{
  ℕ, ◌≡◌, refl, sym, ap, ◌∙◌, subst, ◌⊎◌, inl, inr, String, true, Option, none, some, List, ◌==◌,
  arith, one_of, lower, elem, Bool-cases, if◌then◌else◌, find_row, replace_row, find_row-key,
  find_row-replace_row,
}
use ai_project.Plans.{
  PlanTask, PlanTaskUpdateRequest, ApiError, Reply, ok, err, job_not_found, task_not_found,
  invalid_status_transition, valid_status_transitions, new_status, changed_task, find_task,
  update_task, overriding,
}

abbrev pub id_of : PlanTask → ℕ
id_of t = t.id

-- What a successful request does to the loaded task.
pub record IsReviewed (body : PlanTaskUpdateRequest) (task task' : PlanTask) : Type 0 where
  pub allowed :
      (task'.status ≡ task.status)
      ⊎ (one_of task'.status (valid_status_transitions task.status) ≡ true)
  pub rest : task' ≡ record task {
    status = task'.status;
    priority_override = overriding body.priority_override task.priority_override;
    notes = overriding body.notes task.notes;
  }

new_status-allowed :
    (wanted : Option String) (status s : String)
    → new_status wanted status ≡ ok s
    → (s ≡ status) ⊎ (one_of s (valid_status_transitions status) ≡ true)
unfolding new_status
new_status-allowed none status s h = inl (ground arith)
new_status-allowed (some w) status s h =
    elim (Bool-cases (one_of (lower w) (valid_status_transitions status))) [
      | inl fits ↦ let e : lower w ≡ s = cc (rw fits at h) in inr (rw e at fits)
      | inr misfits ↦
          absurd (let bad : err invalid_status_transition ≡ ok s = rw misfits at h in cc)
    ]

module _ (body : PlanTaskUpdateRequest) (task task' : PlanTask) where
  changed_task-cases :
      (r : Reply String)
      → new_status body.status task.status ≡ r
      → changed_task body task ≡ ok task'
      → (s : String) × (r ≡ ok s)
        × (task' ≡ record task {
          status = s;
          priority_override = overriding body.priority_override task.priority_override;
          notes = overriding body.notes task.notes;
        })
  unfolding changed_task
  changed_task-cases (err e) q h =
      absurd (let bad : err e ≡ ok task' = rw (q, changed_task) at h in cc)
  changed_task-cases (ok s) q h = (s, refl, cc (rw (q, changed_task) at h))

  changed_task-IsReviewed : changed_task body task ≡ ok task' → IsReviewed body task task'
  changed_task-IsReviewed h =
      let (s, q, e) = changed_task-cases (new_status body.status task.status) refl h in
      let same : task'.status ≡ s = ap (λ (t : PlanTask). t.status) e in
      record {
        allowed = rw same (new_status-allowed body.status task.status s q);
        rest =
            e
            ∙ ap
                (λ (st : String). record task {
                  status = st;
                  priority_override = overriding body.priority_override task.priority_override;
                  notes = overriding body.notes task.notes;
                })
                (sym same);
      }

module _ (jobs : List ℕ) (job_id task_id : ℕ) (body : PlanTaskUpdateRequest)
    (tasks : List PlanTask) where
  -- Either the request fails, or it changes one loaded task and rewrites its row.
  pub data Updates : Reply (PlanTask × List PlanTask) → Type 0 where
    refused : (e : ApiError) → Updates (err e)
    changes :
        (task task' : PlanTask)
        → find_row id_of task_id tasks ≡ some task
        → task.job_id ≡ job_id
        → IsReviewed body task task'
        → Updates (ok (task', replace_row id_of task' tasks))

  find_task-found :
      (task : PlanTask)
      → find_task job_id task_id tasks ≡ some task
      → (find_row id_of task_id tasks ≡ some task) × (task.job_id ≡ job_id)
  unfolding find_task
  find_task-found task h = ground arith

  apply_change-Updates :
      (task : PlanTask) (r : Reply PlanTask)
      → find_task job_id task_id tasks ≡ some task
      → changed_task body task ≡ r
      → Updates (elim r [ err e ↦ err e | ok task' ↦ ok (task', replace_row id_of task' tasks) ])
  apply_change-Updates task (err e) found h = refused e
  apply_change-Updates task (ok task') found h =
      let (row, owner) = find_task-found task found in
      changes task task' row owner (changed_task-IsReviewed body task task' h)

  load-Updates :
      (o : Option PlanTask)
      → find_task job_id task_id tasks ≡ o
      → Updates (elim o [
        | none ↦ err task_not_found
        | some task ↦ elim (changed_task body task) [
          | err e ↦ err e
          | ok task' ↦ ok (task', replace_row id_of task' tasks)
        ]
      ])
  load-Updates none h = refused task_not_found
  load-Updates (some task) h = apply_change-Updates task (changed_task body task) h refl

  pub update_task-Updates : Updates (update_task jobs job_id task_id body tasks)
  unfolding update_task
  update_task-Updates = elim (Bool-cases (elem job_id jobs)) [
    | inl known ↦ rw known (load-Updates (find_task job_id task_id tasks) refl)
    | inr unknown ↦ rw unknown (refused job_not_found)
  ]

pub stored-row :
    (body : PlanTaskUpdateRequest) (task_id : ℕ) (tasks : List PlanTask) (t t' : PlanTask)
    → find_row id_of task_id tasks ≡ some t
    → IsReviewed body t t'
    → (k : ℕ)
    → find_row id_of k (replace_row id_of t' tasks)
      ≡ (if task_id == k then some t' else find_row id_of k tasks)
stored-row body task_id tasks t t' row reviewed k =
    let e : id_of t' ≡ task_id = ap id_of reviewed.rest ∙ find_row-key id_of task_id tasks t row in
    subst
      (λ i.
        find_row id_of k (replace_row id_of t' tasks)
        ≡ (if i == k then some t' else find_row id_of k tasks))
      e (find_row-replace_row id_of t' k tasks t (rw e row))

-- A request that succeeds answers with the task as it is stored from then on, and every other row of
-- the table is as before. The stored status is the old one or one that the transition table
-- allows from it; of the other columns only the priority and the notes can differ, and only
-- by the values in the request.
pub update_task-writes :
    (jobs : List ℕ) (job_id task_id : ℕ) (body : PlanTaskUpdateRequest)
    (tasks tasks' : List PlanTask) (task task' : PlanTask)
    → find_row id_of task_id tasks ≡ some task
    → update_task jobs job_id task_id body tasks ≡ ok (task', tasks')
    → (k : ℕ)
    → IsReviewed body task task'
      × (find_row id_of k tasks' ≡ (if task_id == k then some task' else find_row id_of k tasks))
update_task-writes jobs job_id task_id body tasks tasks' task task' row h k =
    go (update_task jobs job_id task_id body tasks)
      (update_task-Updates jobs job_id task_id body tasks) h
  where
    go :
        (r : Reply (PlanTask × List PlanTask))
        → Updates jobs job_id task_id body tasks r
        → r ≡ ok (task', tasks')
        → IsReviewed body task task'
          × (find_row id_of k tasks'
              ≡ (if task_id == k then some task' else find_row id_of k tasks))
    go _ (refused e) q = absurd (cc)
    go _ (changes t t' row' owner reviewed) q =
        let same : t ≡ task = cc (row, row') in
        let pair : (t', replace_row id_of t' tasks) ≡ (task', tasks') = cc in
        subst
          (λ (x : PlanTask × List PlanTask).
            IsReviewed body task x.0
            × (find_row id_of k x.1 ≡ (if task_id == k then some x.0 else find_row id_of k tasks)))
          pair
          (
            subst (λ x. IsReviewed body x t') same reviewed,
            stored-row body task_id tasks t t' row' reviewed k,
          )
