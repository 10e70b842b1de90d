-- ===== src/Pipeline.antt =====
-- The pipeline of backend/app/services/analysis.py, run for one job. The agents' own work enters as
-- the outcome of each agent's call; what the service does with an outcome is modelled whole. The
-- database session is SQLAlchemy's: `commit` and the query in the error handler are parameters.
pub mod Outcomes
pub mod Run
mod Examples
use ai_project.Prelude.{
  ℕ, ◌+◌, String, Bool, true, false, Option, none, some, List, [], ◌∷◌, map, str_eq, ltb,
  if◌then◌else◌, not,
}
use ai_project.Job.{Job, JobConfig, stop_job, ok, err, Reply}

-- How an agent's call ends. `unavailable` stands for ImportError, NotImplementedError and
-- AttributeError, which the dispatch methods catch; `raised` for any other exception.
pub data Outcome (A : Type 0) : Type 0 where
  returned : A → Outcome A
  unavailable : Outcome A
  raised : String → Outcome A

pub record LanguageInfo : Type 0 where
  pub language : String
  pub file_count : ℕ
  pub total_lines : ℕ

pub record UcgStats : Type 0 where
  pub node_count : ℕ
  pub edge_count : ℕ

-- The calls of the agents in one run. `fallback` is what `_detect_languages_fallback` counts: the
-- files of each language, and all their lines.
pub record Agents : Type 0 where
  pub language_detector : Outcome (List LanguageInfo)
  pub fallback : List LanguageInfo × ℕ
  pub mapper : Outcome (Option UcgStats)
  pub smell_detector : Outcome ℕ
  pub planner : Outcome Unit
  pub validator : Outcome Unit
  pub learner : Outcome Unit

-- What a dispatch method does to the job object, or the exception that leaves it.
pub data Attempt : Type 0 where
  completed : Job → Attempt
  failed : String → Attempt

sum_of : (LanguageInfo → ℕ) → List LanguageInfo → ℕ
sum_of f [] = 0
sum_of f (i ∷ is) = f i + sum_of f is

-- `n if n > 0 else None`
abbrev pub positive : ℕ → Option ℕ
positive n = if ltb 0 n then some n else none

-- `_detect_languages_fallback`
unfoldable pub detect_languages_fallback : List LanguageInfo × ℕ → Job → Job
unfolding sum_of
detect_languages_fallback (infos, lines) job = record job {
  languages = map (λ i. i.language) infos;
  file_count = positive (sum_of (λ i. i.file_count) infos);
  total_lines = positive lines;
}

-- `_run_language_detector`
unfoldable pub run_language_detector : Agents → Job → Attempt
unfolding sum_of detect_languages_fallback
run_language_detector agents job = elim agents.language_detector [
  | returned infos ↦ completed (record job {
    languages = map (λ i. i.language) infos;
    file_count = positive (sum_of (λ i. i.file_count) infos);
    total_lines = positive (sum_of (λ i. i.total_lines) infos);
  })
  | unavailable ↦ completed (detect_languages_fallback agents.fallback job)
  | raised message ↦ failed message
]

-- `_run_mapper`
unfoldable pub run_mapper : Agents → Job → Attempt
run_mapper agents job = elim agents.mapper [
  | returned none ↦ completed job
  | returned (some stats) ↦ completed (record job {
    ucg_node_count = some stats.node_count;
    ucg_edge_count = some stats.edge_count;
  })
  | unavailable ↦ completed job
  | raised message ↦ failed message
]

-- `_run_smell_detector`
unfoldable pub run_smell_detector : Agents → Job → Attempt
run_smell_detector agents job = elim agents.smell_detector [
  | returned count ↦ completed (record job { smell_count = some count })
  | unavailable ↦ completed job
  | raised message ↦ failed message
]

keep_job : Outcome Unit → Job → Attempt
keep_job (returned u) job = completed job
keep_job unavailable job = completed job
keep_job (raised message) job = failed message

-- `_run_planner`
unfoldable pub run_planner : Agents → Job → Attempt
unfolding keep_job
run_planner agents = keep_job agents.planner

-- `_run_validator`
unfoldable pub run_validator : Agents → Job → Attempt
unfolding keep_job
run_validator agents = keep_job agents.validator

-- The job object in the session, and the row that other sessions see.
pub record World : Type 0 where
  pub job : Job
  pub row : Job

-- How `run` ends: the job was not found; `_update_status` raised `CancelledError`, which is no
-- `Exception` and so passes the handler; or it returned.
pub data Ended : Type 0 where
  not_found : Ended
  cancelled_error : World → Ended
  finished : World → Ended

-- What the service asks of its session. `commit` gives the object and the row after a commit, and
-- `requery` the object that `_get_job` returns for the row.
pub record Session : Type 0 where
  pub commit : Job → Job → World
  pub requery : World → Option Job

-- A request to stop the job, committed by another session while an agent runs.
unfoldable pub stop_row : Bool → World → World
unfolding stop_job
stop_row false w = w
stop_row true w = elim (stop_job (some w.row)) [ ok row ↦ record w { row = row } | err e ↦ w ]

module _ (db : Session) (now : ℕ) where
  -- `_update_status`; `none` is the CancelledError
  unfoldable pub update_status : String → String → World → Option World
  update_status stage status w =
      if str_eq w.job.status "cancelled"
      then none
      else some (
          db.commit
            (record w.job {
              status = status;
              current_stage = some stage;
              started_at = elim w.job.started_at [ none ↦ some now | some t ↦ some t ];
            })
            w.row)

  -- the `except Exception` block of `run`
  unfoldable pub on_exception : String → World → Ended
  on_exception message w =
      let give_up = finished (
        db.commit
          (record w.job {
            status = "failed";
            error_message = some message;
            error_stage = w.job.current_stage;
          })
          w.row) in
      elim (db.requery w) [
        | none ↦ give_up
        | some refreshed ↦ if str_eq refreshed.status "cancelled" then finished w else give_up
      ]

  -- the block behind the last stage. The learner changes no job, and its errors are caught.
  unfoldable pub complete_job : World → Ended
  complete_job w =
      let config =
        if w.job.config.eager_embeddings
        then w.job.config
        else record w.job.config { deferred_stages = some ("learning" ∷ []) } in
      finished (
        db.commit
          (record w.job {
            config = config;
            status = "complete";
            current_stage = none;
            completed_at = some now;
          })
          w.row)

  -- One stage: the status update, then the agent, while which the job may be stopped from outside.
  unfoldable pub run_stage : String → (Job → Attempt) → Bool → (World → Ended) → World → Ended
  unfolding update_status on_exception stop_row
  run_stage stage agent stopped next w = elim (update_status stage stage w) [
    | none ↦ cancelled_error w
    | some started ↦
        let w' = stop_row stopped started in
        elim (agent w'.job) [
          | failed message ↦ on_exception message w'
          | completed job ↦ next (record w' { job = job })
        ]
  ]

  -- `run`. `stopped stage` says whether a stop request is committed while that stage's agent runs.
  unfoldable pub run : Agents → (String → Bool) → Option World → Ended
  unfolding run_stage complete_job run_language_detector run_mapper run_smell_detector run_planner
      run_validator
  run agents stopped none = not_found
  run agents stopped (some w) =
      run_stage "detecting" (run_language_detector agents) (stopped "detecting")
        (run_stage "mapping" (run_mapper agents) (stopped "mapping") (
          run_stage "analyzing" (run_smell_detector agents) (stopped "analyzing") (
            run_stage "planning" (run_planner agents) (stopped "planning")
              (run_stage "validating" (run_validator agents) (stopped "validating") complete_job))))
        w
