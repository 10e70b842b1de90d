-- ===== src/Plans/Sequence.antt =====
-- Sequences of review requests (backend/app/api/v1/plan.py): what none of them can change.
use ai_project.Prelude.{
  ℕ, ◌≡◌, sym, ◌∙◌, subst, inl, inr, String, Bool, true, some, List, [], ◌∷◌, ◌==◌, arith, str_eq,
  eq_iff, one_of, Bool-cases, find_row, ==_iff,
}
use ai_project.Plans.{
  PlanTask, PlanTaskUpdateRequest, Reply, ok, err, valid_status_transitions, update_task,
}
use ai_project.Plans.Review.{
  id_of, IsReviewed, Updates, refused, changes, update_task-Updates, stored-row,
}

-- A request, with the identifiers in its path.
pub record Request : Type 0 where
  pub job_id : ℕ
  pub task_id : ℕ
  pub body : PlanTaskUpdateRequest

table_after : List PlanTask → Reply (PlanTask × List PlanTask) → List PlanTask
table_after tasks (ok (task, tasks')) = tasks'
table_after tasks (err e) = tasks

-- The table after a sequence of requests; a refused request changes nothing.
pub serve : List ℕ → List Request → List PlanTask → List PlanTask
serve jobs [] tasks = tasks
serve jobs (r ∷ rs) tasks =
    serve jobs rs (table_after tasks (update_task jobs r.job_id r.task_id r.body tasks))

abbrev pub IsClosed : (String → Bool) → Type 0
IsClosed p = (s t : String) → p s ≡ true → one_of t (valid_status_transitions s) ≡ true → p t ≡ true

abbrev pub Stays : (String → Bool) → ℕ → List PlanTask → Type 0
Stays p k tasks = (t : PlanTask) × (find_row id_of k tasks ≡ some t) × (p t.status ≡ true)

module _ (jobs : List ℕ) (p : String → Bool) (closed : IsClosed p) (k : ℕ) where
  IsReviewed-closed :
      {body : PlanTaskUpdateRequest} {t t' : PlanTask}
      → IsReviewed body t t'
      → p t.status ≡ true
      → p t'.status ≡ true
  IsReviewed-closed {t = t} {t' = t'} h held = elim h.allowed [
    | inl same ↦ rw same held
    | inr step ↦ closed t.status t'.status held step
  ]

  table_after-Stays :
      (tasks : List PlanTask) (job_id task_id : ℕ) (body : PlanTaskUpdateRequest)
      (r : Reply (PlanTask × List PlanTask))
      → Updates jobs job_id task_id body tasks r
      → Stays p k tasks
      → Stays p k (table_after tasks r)
  unfolding table_after
  table_after-Stays tasks job_id task_id body _ (refused e) h = h
  table_after-Stays tasks job_id task_id body _ (changes t t' row owner reviewed)
        (old, found, held) =
      elim (Bool-cases (task_id == k)) [
        | inl here ↦
            let e : t ≡ old = cc (
              row,
              subst (λ i. find_row id_of i tasks ≡ some old) (sym ((==_iff task_id k).0 here))
                  found,
            ) in
            (
              t',
              stored-row body task_id tasks t t' row reviewed k ∙ rw here,
              IsReviewed-closed reviewed (subst (λ (x : PlanTask). p x.status ≡ true) (sym e) held),
            )
        | inr elsewhere ↦
            (old, stored-row body task_id tasks t t' row reviewed k ∙ rw elsewhere found, held)
      ]

  serve-Stays :
      (rs : List Request) (tasks : List PlanTask)
      → Stays p k tasks
      → Stays p k (serve jobs rs tasks)
  unfolding serve
  serve-Stays [] tasks h = h
  serve-Stays (r ∷ rs) tasks h = serve-Stays rs _ (
      table_after-Stays tasks r.job_id r.task_id r.body _
        (update_task-Updates jobs r.job_id r.task_id r.body tasks) h)

abbrev pub is_decided : String → Bool
is_decided s = one_of s ("approved" ∷ "rejected" ∷ [])

decided-IsClosed : IsClosed is_decided
unfolding valid_status_transitions
decided-IsClosed s t h step = ground arith

applied-IsClosed : IsClosed (λ s. str_eq s "applied")
unfolding valid_status_transitions
applied-IsClosed s t h step =
    let e : s ≡ "applied" = (eq_iff s "applied").0 h in
    let bad : one_of t (valid_status_transitions "applied") ≡ true =
      subst (λ x. one_of t (valid_status_transitions x) ≡ true) e step in
    cc

-- Once a task is approved or rejected, no sequence of update requests for tasks, refused ones included,
-- removes it or brings it to any other status: they never make it pending again and never mark it
-- applied. Other requests, such as the deletion of the job, are not part of the sequence.
pub serve-decided :
    (jobs : List ℕ) (requests : List Request) (tasks : List PlanTask) (k : ℕ)
    → Stays is_decided k tasks
    → Stays is_decided k (serve jobs requests tasks)
serve-decided jobs requests tasks k = serve-Stays jobs is_decided decided-IsClosed k requests tasks

-- A task that is marked applied stays applied through every sequence of requests.
serve-applied :
    (jobs : List ℕ) (requests : List Request) (tasks : List PlanTask) (k : ℕ)
    → Stays (λ s. str_eq s "applied") k tasks
    → Stays (λ s. str_eq s "applied") k (serve jobs requests tasks)
serve-applied jobs requests tasks k =
    serve-Stays jobs (λ s. str_eq s "applied") applied-IsClosed k requests tasks
