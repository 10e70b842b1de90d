-- ===== src/Pipeline/Outcomes.antt =====
-- What a run of the pipeline (backend/app/services/analysis.py) can come to, and what its agents leave of the job.
use ai_project.Prelude.{
  ℕ, zero, suc, ◌≡◌, refl, String, Bool, true, false, Option, none, some, arith, str_eq,
}
use ai_project.Job.{Job, JobConfig}
use ai_project.Job.Progress.{stage_at}
use ai_project.Pipeline.{
  Outcome, returned, unavailable, raised, Agents, Attempt, completed, failed, World, Ended,
  not_found, cancelled_error, finished, Session, run_language_detector, run_mapper,
  run_smell_detector, run_planner, run_validator, detect_languages_fallback, stop_row,
}

-- The session of the application, as SQLAlchemy documents it for `expire_on_commit=False` and no
-- rollback in between: a commit leaves the loaded object as it is and writes its status, which
-- every commit of the pipeline has changed, to the row, and a query for a loaded row returns the loaded object unrefreshed.
pub record KeepsLoaded (db : Session) : Type 0 where
  pub same_object : (job row : Job) → (db.commit job row).job ≡ job
  pub writes_status : (job row : Job) → (db.commit job row).row.status ≡ job.status
  pub same_query : (w : World) → db.requery w ≡ some w.job

abbrev pub raises : {A : Type 0} → Outcome A → Option String
raises (returned a) = none
raises unavailable = none
raises (raised message) = some message

-- A failure here, or else the one further on.
abbrev pub fail_or : ℕ → Option String → Option (ℕ × String) → Option (ℕ × String)
fail_or k none later = later
fail_or k (some m) later = some (k, m)

-- The position of the first stage whose agent raises, with the message.
abbrev pub first_failure : Agents → Option (ℕ × String)
first_failure agents = fail_or 0 (raises agents.language_detector) (
    fail_or 1 (raises agents.mapper) (
      fail_or 2 (raises agents.smell_detector)
        (fail_or 3 (raises agents.planner) (fail_or 4 (raises agents.validator) none))))

pub record IsComplete (w : World) : Type 0 where
  pub status : w.job.status ≡ "complete"
  pub row_status : w.row.status ≡ "complete"
  pub stage : w.job.current_stage ≡ none

pub record IsFailedAt (k : ℕ) (message : String) (config : JobConfig) (w : World) : Type 0 where
  pub status : w.job.status ≡ "failed"
  pub row_status : w.row.status ≡ "failed"
  pub stage : w.job.current_stage ≡ some (stage_at k)
  pub error_stage : w.job.error_stage ≡ some (stage_at k)
  pub error_message : w.job.error_message ≡ some message
  pub same_config : w.job.config ≡ config

-- What a run comes to, by the first failing stage.
abbrev pub EndsAs : JobConfig → Option (ℕ × String) → Ended → Type 0
EndsAs config none (finished w) = IsComplete w
EndsAs config (some (k, m)) (finished w) = IsFailedAt k m config w
EndsAs config failure not_found = ⊥
EndsAs config failure (cancelled_error w) = ⊥

abbrev pub attempt_error : Attempt → Option String
attempt_error (completed job) = none
attempt_error (failed m) = some m

-- An agent's dispatch raises by its outcome alone, and leaves the status and the configuration.
pub record IsAgent (agent : Job → Attempt) (error : Option String) : Type 0 where
  pub errs : (job : Job) → attempt_error (agent job) ≡ error
  pub leaves :
      (job job' : Job)
      → agent job ≡ completed job'
      → (job'.status ≡ job.status) × (job'.config ≡ job.config)

pub run_language_detector-IsAgent :
    (agents : Agents) → IsAgent (run_language_detector agents) (raises agents.language_detector)
unfolding run_language_detector detect_languages_fallback
run_language_detector-IsAgent agents = record {
  errs = λ job. ground arith;
  leaves = λ job job' e. ground arith;
}

pub run_mapper-IsAgent : (agents : Agents) → IsAgent (run_mapper agents) (raises agents.mapper)
unfolding run_mapper
run_mapper-IsAgent agents = record {
  errs = λ job. ground arith;
  leaves = λ job job' e. ground arith;
}

pub run_smell_detector-IsAgent :
    (agents : Agents) → IsAgent (run_smell_detector agents) (raises agents.smell_detector)
unfolding run_smell_detector
run_smell_detector-IsAgent agents = record {
  errs = λ job. ground arith;
  leaves = λ job job' e. ground arith;
}

pub run_planner-IsAgent : (agents : Agents) → IsAgent (run_planner agents) (raises agents.planner)
unfolding run_planner
run_planner-IsAgent agents = record {
  errs = λ job. ground arith;
  leaves = λ job job' e. ground arith;
}

pub run_validator-IsAgent :
    (agents : Agents) → IsAgent (run_validator agents) (raises agents.validator)
unfolding run_validator
run_validator-IsAgent agents = record {
  errs = λ job. ground arith;
  leaves = λ job job' e. ground arith;
}

pub stop_row-job : (stopped : Bool) (w : World) → (stop_row stopped w).job ≡ w.job
unfolding stop_row
stop_row-job false w = refl
stop_row-job true w = ground arith

pub stage_at-live : (k : ℕ) → str_eq (stage_at k) "cancelled" ≡ false
stage_at-live zero = refl
stage_at-live (suc zero) = refl
stage_at-live (suc (suc zero)) = refl
stage_at-live (suc (suc (suc zero))) = refl
stage_at-live (suc (suc (suc (suc k)))) = refl
