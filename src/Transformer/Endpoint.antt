-- ===== src/Transformer/Endpoint.antt =====
-- `generate_patches` of backend/app/api/v1/patches.py: the guards, the run, and the job's counter.
use ai_project.Prelude.{
  ℕ, ◌==◌, String, Bool, not, Option, none, some, List, count_if, str_eq, if◌then◌else◌,
}
use ai_project.Plans.{PlanTask}
use ai_project.Patches.{Patch}
use ai_project.Transformer.{Environment, Result, run}

-- The columns of the job that the endpoint reads and writes.
pub record JobRow : Type 0 where
  pub status : String
  pub repo_path : Option String
  pub patch_count : Option ℕ

pub record Tables : Type 0 where
  pub job : Option JobRow
  pub tasks : List PlanTask
  pub patches : List Patch

pub data ApiError : Type 0 where
  job_not_found job_not_complete repo_path_missing repo_path_not_found : ApiError

-- How the endpoint ends; `crashed` is the ValidationError of the response without `patch_ids`.
pub data Reply : Type 0 where
  ok : (patches_created : ℕ) (patch_ids : List ℕ) → Reply
  err : ApiError → Reply
  crashed : Reply

-- `GeneratePatchesResponse(**result)`
unfoldable pub respond : Result → Reply
respond r = elim r.patch_ids [ none ↦ crashed | some ids ↦ ok r.patches_created ids ]

-- the guards on the path of the repository; `path_exists` is the operating system's
unfoldable pub path_error : (String → Bool) → Option String → Option ApiError
path_error path_exists none = some repo_path_missing
path_error path_exists (some path) =
    if str_eq path ""
    then some repo_path_missing
    else if path_exists path
    then none
    else some repo_path_not_found

module _ (env : Environment) (accepts : List Patch → List Patch → Bool) where
  -- the run, the counter and the commit
  unfoldable pub generate : Option (List ℕ) → JobRow → Tables → Reply × Tables
  unfolding run respond
  generate task_ids job tables =
      let (result, patches) = run env accepts task_ids tables.tasks tables.patches in
      let count = count_if (λ (p : Patch). p.job_id == env.job_id) patches in
      (
        respond result,
        record tables { job = some (record job { patch_count = some count }); patches = patches },
      )

  -- the guards for a job that was found, and the rest
  unfoldable pub guarded : (String → Bool) → Option (List ℕ) → JobRow → Tables → Reply × Tables
  unfolding path_error generate
  guarded path_exists task_ids job tables =
      if not (str_eq job.status "complete")
      then (err job_not_complete, tables)
      else (elim (path_error path_exists job.repo_path) [
        | some e ↦ (err e, tables)
        | none ↦ generate task_ids job tables
      ])

  -- `generate_patches`
  unfoldable pub generate_patches : (String → Bool) → Option (List ℕ) → Tables → Reply × Tables
  unfolding guarded
  generate_patches path_exists task_ids tables = elim tables.job [
    | none ↦ (err job_not_found, tables)
    | some job ↦ guarded path_exists task_ids job tables
  ]
