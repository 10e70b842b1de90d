-- ===== src/Job.antt =====
-- The job record (backend/app/models/job.py) with the columns that the pipeline and the endpoints
-- decide on, its stage display, and the endpoints that end a job from outside
-- (backend/app/api/v1/analyze.py, backend/app/services/analysis.py). Time is a number of seconds.
pub mod Progress
pub mod Logs
use ai_project.Prelude.{
  ℕ, suc, ◌+◌, ◌-◌, String, Bool, true, false, Option, none, some, List, [], ◌∷◌, str_eq, one_of,
  ltb, ◌==◌, ◌||◌, ◌&&◌, if◌then◌else◌,
}

-- The keys of `config` that are read.
pub record JobConfig : Type 0 where
  pub eager_embeddings : Bool
  pub deferred_stages : Option (List String)

pub record Job : Type 0 where
  pub status : String
  pub current_stage : Option String
  pub languages : List String
  pub file_count : Option ℕ
  pub total_lines : Option ℕ
  pub config : JobConfig
  pub ucg_node_count : Option ℕ
  pub ucg_edge_count : Option ℕ
  pub smell_count : Option ℕ
  pub patch_count : Option ℕ
  pub error_message : Option String
  pub error_stage : Option String
  pub started_at : Option ℕ
  pub completed_at : Option ℕ

-- `duration_seconds`, for a job that completed at or after its start
unfoldable pub duration_seconds : Job → Option ℕ
duration_seconds job = elim job.started_at [
  | none ↦ none
  | some started ↦ elim job.completed_at [
    | none ↦ none
    | some completed ↦ some (completed - started)
  ]
]

abbrev pub stages : List String
stages = "detecting" ∷ "mapping" ∷ "analyzing" ∷ "planning" ∷ "validating" ∷ []

-- `stage_order.get(current, -1)`, where `none` is -1
unfoldable pub index_from : ℕ → String → List String → Option ℕ
index_from i current [] = none
index_from i current (stage ∷ rest) =
    let later = index_from (suc i) current rest in if str_eq stage current then some i else later

abbrev pub current_of : Job → String
current_of job = elim job.current_stage [ none ↦ "" | some stage ↦ stage ]

abbrev pub deferred_of : Job → List String
deferred_of job = elim job.config.deferred_stages [ none ↦ [] | some l ↦ l ]

-- `idx < current_idx` and `idx == current_idx`
abbrev pub before : ℕ → Option ℕ → Bool
before idx none = false
before idx (some i) = ltb idx i

abbrev pub at : ℕ → Option ℕ → Bool
at idx none = false
at idx (some i) = idx == i

-- the body of the loop of `stage_progress`
unfoldable pub progress_of : Job → Option ℕ → ℕ → String → String
progress_of job current_idx idx stage =
    if one_of stage (deferred_of job)
    then "skipped"
    else if str_eq job.status "failed" && str_eq stage (current_of job)
    then "failed"
    else if before idx current_idx || one_of job.status ("complete" ∷ [])
    then "complete"
    else if at idx current_idx
    then "running"
    else "pending"

unfoldable pub progress_from : Job → Option ℕ → ℕ → List String → List String
unfolding progress_of
progress_from job current_idx i [] = []
progress_from job current_idx i (stage ∷ rest) =
    progress_of job current_idx i stage ∷ progress_from job current_idx (suc i) rest

-- `stage_progress`: the values at the five stages, in their order
unfoldable pub stage_progress : Job → List String
unfolding progress_from index_from
stage_progress job = progress_from job (index_from 0 (current_of job) stages) 0 stages

pub data StopError : Type 0 where
  job_not_found job_not_stoppable : StopError

pub data Reply {ℓ} (A : Type ℓ) : Type ℓ where
  ok : A → Reply A
  err : StopError → Reply A

abbrev pub stoppable : List String
stoppable = "pending" ∷ "detecting" ∷ "mapping" ∷ "analyzing" ∷ "planning" ∷ "validating" ∷ []

-- `stop_job`: the row that the request leaves
unfoldable pub stop_job : Option Job → Reply Job
stop_job none = err job_not_found
stop_job (some job) =
    if one_of job.status stoppable
    then ok (record job { status = "cancelled" })
    else err job_not_stoppable

-- `cancel_job`
unfoldable pub cancel_job : Option Job → Reply Job
cancel_job none = err job_not_found
cancel_job (some job) =
    if str_eq job.status "pending"
    then ok (record job { status = "cancelled" })
    else err job_not_stoppable
