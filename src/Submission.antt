-- ===== src/Submission.antt =====
-- The two handlers of backend/app/api/v1/analyze.py that create a job: `submit_job`, from an uploaded
-- archive, and `submit_job_from_url`, from a repository that git clones. The state is that of the
-- working directories and of the table of jobs. What creates identifiers and directories, reads a
-- configuration and clones is a parameter; the checksum, the times and the cache are left out.
pub mod Outcome
mod Examples
use ai_project.Prelude.{
  ℕ, suc, zero, ◌+◌, ◌*◌, ◌==◌, String, Bool, true, false, not, Option, none, some, List, [], ◌∷◌,
  ◌++◌, keep, or_else, ltb, str_eq, strip, split_at, starts_with, if◌then◌else◌,
}
use Prim.Native.String.{len}
use ai_project.Job.{JobConfig}
use ai_project.Queue.{Service}
use ai_project.Queue.Worker.{Started, enqueue_or_run_in_background}
use ai_project.Archive.{
  Platform, Refusal, Extracted, extracted, refused, extension_allowed, extract_archive,
}

-- The columns that a submission sets; `config` is none for the empty dict.
pub record JobRow : Type 0 where
  pub id : String
  pub label : Option String
  pub status : String
  pub archive_filename : String
  pub archive_size_bytes : Option ℕ
  pub repo_url : Option String
  pub repo_branch : Option String
  pub vcs_provider_id : Option ℕ
  pub repo_path : String
  pub config : Option JobConfig

pub record Server : Type 0 where
  pub dirs : List String
  pub jobs : List JobRow

-- The HTTP errors that the handlers raise.
pub data ApiError : Type 0 where
  unsupported_format archive_too_large invalid_config provider_not_found : ApiError
  not_extracted : Refusal → ApiError
  clone_failed : String → ApiError

-- How a handler ends; `crashed` is any other exception.
pub data Submitted : Type 0 where
  accepted : String → Started → Submitted
  rejected : ApiError → Submitted
  crashed : Submitted

-- `JobConfig(**json.loads(config))`: JSONDecodeError and pydantic's error are ValueErrors.
pub data Configuration : Type 0 where
  valid : JobConfig → Configuration
  value_error : Configuration
  other_error : Configuration

pub record Provider : Type 0 where
  pub id : ℕ
  pub token : String
  pub provider : String
  pub username : Option String

-- How git is asked to clone.
pub record CloneRequest : Type 0 where
  pub repo_url : String
  pub dest_dir : String
  pub token : Option String
  pub provider : String
  pub username : Option String
  pub branch : Option String

-- What a handler gets from its environment: the identifier of the job and the name of the new
-- directory, the two ends of the queue, and the answers of the libraries. `clone` is none where git
-- succeeds; `extract_crashes` says whether the extraction ends with an error that is no HTTP error.
pub record Environment : Type 0 where
  pub job_id : String
  pub new_dir : String
  pub service : Service
  pub publishes : Bool
  pub platform : Platform
  pub extract_crashes : Bool
  pub max_upload_size_mb : ℕ
  pub job_config : String → Configuration
  pub providers : List Provider
  pub clone : CloneRequest → Option String

pub record Upload : Type 0 where
  pub filename : Option String
  pub content : String
  pub label : Option String
  pub config : Option String

-- `s or default`, for a value that may be absent
abbrev pub text_or : Option String → String → String
text_or none default = default
text_or (some s) default = or_else s default

-- `tempfile.mkdtemp` and `shutil.rmtree`
abbrev pub make_dir : String → Server → Server
make_dir dir server = record server { dirs = dir ∷ server.dirs }

abbrev pub remove_dir : String → Server → Server
remove_dir dir server = record server { dirs = keep (λ d. not (str_eq d dir)) server.dirs }

module _ (env : Environment) where
  -- the reading of the configuration, if one is given
  abbrev pub configured : Option String → Option Configuration
  configured config =
      if str_eq (text_or config "") "" then none else some (env.job_config (text_or config ""))

  -- the end of both handlers: the row, and the start of the run
  unfoldable pub create_job : JobRow → Server → Submitted × Server
  unfolding enqueue_or_run_in_background
  create_job row server = (
    accepted env.job_id
        (enqueue_or_run_in_background env.service env.publishes env.job_id row.repo_path),
    record server { jobs = server.jobs ++ row ∷ [] },
  )

  -- `submit_job` from the extraction on
  unfoldable pub extract_and_create : Upload → Option JobConfig → Server → Submitted × Server
  unfolding create_job extract_archive
  extract_and_create upload config server =
      let with_dir = make_dir env.new_dir server in
      if env.extract_crashes
      then (crashed, with_dir)
      else (elim (extract_archive env.platform env.new_dir upload.content) [
        | refused r ↦ (rejected (not_extracted r), remove_dir env.new_dir with_dir)
        | extracted file_count total_bytes ↦
            create_job
              record {
                id = env.job_id;
                label = upload.label;
                status = "pending";
                archive_filename = text_or upload.filename "upload";
                archive_size_bytes = some (len upload.content);
                repo_url = none;
                repo_branch = none;
                vcs_provider_id = none;
                repo_path = env.new_dir;
                config = config;
              }
              with_dir
      ])

  -- `submit_job`
  unfoldable pub submit_job : Upload → Server → Submitted × Server
  unfolding extract_and_create extension_allowed
  submit_job upload server =
      if not (extension_allowed (text_or upload.filename "upload"))
      then (rejected unsupported_format, server)
      else if ltb (env.max_upload_size_mb * 1024 * 1024) (len upload.content)
      then (rejected archive_too_large, server)
      else (elim (configured upload.config) [
        | none ↦ extract_and_create upload none server
        | some (valid config) ↦ extract_and_create upload (some config) server
        | some value_error ↦ (rejected invalid_config, server)
        | some other_error ↦ (crashed, server)
      ])

-- The body of the request; `config` is the text of its dict, none or empty where that is empty.
pub record FromUrl : Type 0 where
  pub repo_url : String
  pub branch : Option String
  pub provider_id : Option ℕ
  pub token : Option String
  pub label : Option String
  pub config : Option String

-- `s.replace(".git", "")`; the number counts the characters of a match that are still to skip
unfoldable pub without_git : ℕ → String → String
without_git skip String.[] = String.[]
without_git (suc skip) (String.◌∷◌ c s) = without_git skip s
without_git zero (String.◌∷◌ c s) = elim (starts_with (String.◌∷◌ c s) ".git") [
  | true ↦ without_git 3 s
  | false ↦ String.◌∷◌ c (without_git 0 s)
]

abbrev last_of : String → List String → String
last_of s [] = s
last_of s (t ∷ ts) = last_of t ts

-- the label that a repository gives a job without one
unfoldable pub default_label : String → String
unfolding split_at without_git
default_label repo_url = without_git 0 (last_of "" (split_at repo_url "/"))

unfoldable pub find_provider : ℕ → List Provider → Option Provider
find_provider id [] = none
find_provider id (p ∷ providers) = if p.id == id then some p else find_provider id providers

-- `token or vcs_prov.token`
abbrev pub token_or : Option String → String → Option String
token_or token stored = some (text_or token stored)

module _ (env : Environment) where
  -- the request to git: with the stored provider, if one is given; none where it does not exist
  unfoldable pub clone_request : FromUrl → Option CloneRequest
  unfolding strip find_provider
  clone_request body =
      let plain : CloneRequest = record {
        repo_url = strip body.repo_url;
        dest_dir = env.new_dir;
        token = body.token;
        provider = "github";
        username = none;
        branch = body.branch;
      } in
      elim body.provider_id [
        | none ↦ some plain
        | some id ↦ elim (find_provider id env.providers) [
          | none ↦ none
          | some p ↦ some record plain {
            token = token_or body.token p.token;
            provider = p.provider;
            username = p.username;
          }
        ]
      ]

  -- the row that `submit_job_from_url` inserts
  unfoldable pub url_row : FromUrl → Option JobConfig → JobRow
  unfolding strip default_label
  url_row body config =
      let repo_url = strip body.repo_url in
      record {
        id = env.job_id;
        label = some (text_or body.label (default_label repo_url));
        status = "pending";
        archive_filename = repo_url;
        archive_size_bytes = none;
        repo_url = some repo_url;
        repo_branch = body.branch;
        vcs_provider_id = body.provider_id;
        repo_path = env.new_dir;
        config = config;
      }

  -- `submit_job_from_url` behind a successful clone
  unfoldable pub configure_and_create : FromUrl → Server → Submitted × Server
  unfolding url_row create_job
  configure_and_create body server = elim (configured env body.config) [
    | none ↦ create_job env (url_row body none) server
    | some (valid config) ↦ create_job env (url_row body (some config)) server
    | some value_error ↦ (rejected invalid_config, remove_dir env.new_dir server)
    | some other_error ↦ (crashed, server)
  ]

  -- `submit_job_from_url`
  unfoldable pub submit_job_from_url : FromUrl → Server → Submitted × Server
  unfolding clone_request configure_and_create
  submit_job_from_url body server = elim (clone_request body) [
    | none ↦ (rejected provider_not_found, server)
    | some request ↦
        let with_dir = make_dir env.new_dir server in
        elim (env.clone request) [
          | some message ↦ (rejected (clone_failed message), remove_dir env.new_dir with_dir)
          | none ↦ configure_and_create body with_dir
        ]
  ]
