-- ===== src/Submission/Outcome.antt =====
-- What a submission leaves behind: a job with its directory, or nothing.
use Prim.Native.String.{len}
use ai_project.Archive.Admitted.{Extracted-cases}
use ai_project.Prelude.{
  ◌*◌, ◌≡◌, refl, ap, inl, inr, String, true, false, not, Option, none, some, List, [], ◌∷◌, ◌++◌,
  keep, any, str_eq, eq_iff, ltb, Bool-cases, Option-cases, ◌⊎◌, str_eq_sym,
}
use ai_project.Job.{JobConfig}
use ai_project.Queue.Worker.{enqueue_or_run_in_background}
use ai_project.Archive.{extract_archive, extension_allowed}
use ai_project.Submission.{
  JobRow, Server, Submitted, accepted, rejected, crashed, Configuration, valid, value_error,
  other_error, Environment, Upload, FromUrl, make_dir, remove_dir, configured, create_job,
  extract_and_create, submit_job, clone_request, url_row, configure_and_create, submit_job_from_url,
  text_or,
}

module _ (env : Environment) (server : Server) where
  -- A submission that is accepted adds one pending job, with the identifier that it answers and the
  -- new directory, and starts the run of just this job on this directory; one that is rejected
  -- leaves directories and jobs as they were; and one that crashes adds no job.
  abbrev pub AllOrNothing : Submitted × Server → Type 0
  AllOrNothing (rejected e, after) = after ≡ server
  AllOrNothing (crashed, after) = after.jobs ≡ server.jobs
  AllOrNothing (accepted id started, after) =
      (row : JobRow) × (after.jobs ≡ server.jobs ++ row ∷ [])
      × (after.dirs ≡ env.new_dir ∷ server.dirs)
      × (row.id ≡ id)
      × (row.status ≡ "pending")
      × (row.repo_path ≡ env.new_dir)
      × (started ≡ enqueue_or_run_in_background env.service env.publishes id env.new_dir)

  -- `mkdtemp` makes a directory of a new name.
  abbrev pub IsNew : Type 0
  IsNew = any (str_eq env.new_dir) server.dirs ≡ false

  kept_dirs :
      (dirs : List String)
      → any (str_eq env.new_dir) dirs ≡ false
      → keep (λ d. not (str_eq d env.new_dir)) dirs ≡ dirs
  kept_dirs [] h = refl
  kept_dirs (d ∷ dirs) h = elim (Bool-cases (str_eq env.new_dir d)) [
    | inl same ↦ absurd (cc (rw same at h))
    | inr other ↦
        rw (str_eq_sym d env.new_dir, other) (ap (λ ds. d ∷ ds) (kept_dirs dirs (rw other at h)))
  ]

  module _ (fresh : IsNew) where
    removed : remove_dir env.new_dir (make_dir env.new_dir server) ≡ server
    removed =
        let same : str_eq env.new_dir env.new_dir ≡ true =
          (eq_iff env.new_dir env.new_dir).1 refl in
        rw same (ap (λ ds. record server { dirs = ds }) (kept_dirs server.dirs fresh))

    created :
        (row : JobRow)
        → row.id ≡ env.job_id
        → row.status ≡ "pending"
        → row.repo_path ≡ env.new_dir
        → AllOrNothing (create_job env row (make_dir env.new_dir server))
    unfolding create_job
    created row i s d = (
      row,
      refl,
      refl,
      i,
      s,
      d,
      ap (enqueue_or_run_in_background env.service env.publishes env.job_id) d,
    )

    extract_and_create-AllOrNothing :
        (upload : Upload) (config : Option JobConfig)
        → AllOrNothing (extract_and_create env upload config server)
    unfolding extract_and_create
    extract_and_create-AllOrNothing upload config = elim (Bool-cases env.extract_crashes) [
      | inl broken ↦ rw (extract_and_create, broken) refl
      | inr fine ↦
          elim (Extracted-cases (extract_archive env.platform env.new_dir upload.content)) [
            | inl (r, e) ↦ rw (extract_and_create, fine, e) removed
            | inr (n, t, e) ↦ rw (extract_and_create, fine, e) (created _ refl refl refl)
          ]
    ]

    Configured-cases :
        (c : Option Configuration)
        → (c ≡ none)
          ⊎ (((config : JobConfig) × (c ≡ some (valid config)))
              ⊎ ((c ≡ some value_error) ⊎ (c ≡ some other_error)))
    Configured-cases none = inl refl
    Configured-cases (some (valid config)) = inr (inl (config, refl))
    Configured-cases (some value_error) = inr (inr (inl refl))
    Configured-cases (some other_error) = inr (inr (inr refl))

    -- An upload that is rejected, for its format, its size, its configuration or its content, leaves
    -- neither a job nor a directory; an accepted one adds one pending job and its directory, and starts
    -- the run of this job on this directory; an error that is no HTTP error adds no job.
    pub submit_job-AllOrNothing : (upload : Upload) → AllOrNothing (submit_job env upload server)
    unfolding submit_job
    submit_job-AllOrNothing upload =
        elim (Bool-cases (extension_allowed (text_or upload.filename "upload"))) [
          | inr bad ↦ rw (submit_job, bad) refl
          | inl good ↦
              elim (Bool-cases (ltb (env.max_upload_size_mb * 1024 * 1024) (len upload.content))) [
                | inl large ↦ rw (submit_job, good, large) refl
                | inr small ↦ elim (Configured-cases (configured env upload.config)) [
                  | inl e ↦
                      rw (submit_job, good, small, e) (extract_and_create-AllOrNothing upload none)
                  | inr (inl (config, e)) ↦
                      rw (submit_job, good, small, e)
                        (extract_and_create-AllOrNothing upload (some config))
                  | inr (inr (inl e)) ↦ rw (submit_job, good, small, e) refl
                  | inr (inr (inr e)) ↦ rw (submit_job, good, small, e) refl
                ]
              ]
        ]

    configure_and_create-AllOrNothing :
        (body : FromUrl)
        → AllOrNothing (configure_and_create env body (make_dir env.new_dir server))
    unfolding configure_and_create url_row
    configure_and_create-AllOrNothing body = elim (Configured-cases (configured env body.config)) [
      | inl e ↦ rw (configure_and_create, e) (created (url_row env body none) refl refl refl)
      | inr (inl (config, e)) ↦
          rw (configure_and_create, e) (created (url_row env body (some config)) refl refl refl)
      | inr (inr (inl e)) ↦ rw (configure_and_create, e) removed
      | inr (inr (inr e)) ↦ rw (configure_and_create, e) refl
    ]

    -- The same of a submission by URL, which is rejected where its provider does not exist, git does
    -- not clone, or its configuration is not valid.
    pub submit_job_from_url-AllOrNothing :
        (body : FromUrl) → AllOrNothing (submit_job_from_url env body server)
    unfolding submit_job_from_url
    submit_job_from_url-AllOrNothing body = elim (Option-cases (clone_request env body)) [
      | inl missing ↦ rw (submit_job_from_url, missing) refl
      | inr (request, e) ↦ elim (Option-cases (env.clone request)) [
        | inl cloned ↦ rw (submit_job_from_url, e, cloned) (configure_and_create-AllOrNothing body)
        | inr (message, failed) ↦ rw (submit_job_from_url, e, failed) removed
      ]
    ]
