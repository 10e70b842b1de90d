-- ===== src/Submission/Examples.antt =====
-- An upload that is accepted, a repository that is cloned with a stored token, and the run of a worker
-- that is too early.
use ai_project.Prelude.{
  ◌≡◌, refl, String, Bool, true, false, none, some, [], ◌∷◌, split_at, str_eq, if◌then◌else◌,
}
use ai_project.Job.{Job}
use ai_project.Pipeline.{Agents, Session, returned, unavailable}
use ai_project.Archive.{Library}
use ai_project.Submission.{
  Server, Environment, Upload, FromUrl, value_error, other_error, submit_job, submit_job_from_url,
  default_label, without_git,
}
use ai_project.Submission.Outcome.{
  AllOrNothing, submit_job-AllOrNothing, submit_job_from_url-AllOrNothing,
}

abbrev library : Library
library = record {
  members = λ content. some (record { name = "a.py"; size = 3; is_file = true } ∷ []);
  extractall = λ content. true;
}

abbrev env : Environment
env = record {
  job_id = "job-1";
  new_dir = "/tmp/alm_job_1";
  service = record { available = true; has_exchange = true; has_dlq_exchange = true };
  publishes = true;
  platform = record {
    zip = library;
    tar = library;
    real_path = λ dest name. dest;
    real_dest = λ dest. dest;
  };
  extract_crashes = false;
  max_upload_size_mb = 500;
  job_config = λ text. if str_eq text "[]" then other_error else value_error;
  providers = record { id = 4; token = "t"; provider = "gitlab"; username = some "u" } ∷ [];
  clone = λ request. if str_eq request.provider "gitlab" then none else some "no access";
}

abbrev server : Server
server = record { dirs = "/tmp/alm_job_0" ∷ []; jobs = [] }

abbrev upload : Upload
upload = record { filename = some "shop.zip"; content = "PK"; label = none; config = none }

submit_job-AllOrNothing_example : AllOrNothing env server (submit_job env upload server)
submit_job-AllOrNothing_example = submit_job-AllOrNothing env server refl upload

abbrev body : FromUrl
body = record {
  repo_url = "https://host/team/shop.git";
  branch = none;
  provider_id = some 4;
  token = none;
  label = none;
  config = none;
}

labelled : default_label "https://host/team/shop.git" ≡ "shop"
unfolding default_label split_at without_git
labelled = refl

submit_job_from_url-AllOrNothing_example :
    AllOrNothing env server (submit_job_from_url env body server)
submit_job_from_url-AllOrNothing_example = submit_job_from_url-AllOrNothing env server refl body

abbrev job : Job
job = record {
  status = "pending";
  current_stage = none;
  languages = [];
  file_count = none;
  total_lines = none;
  config = record { eager_embeddings = false; deferred_stages = none };
  ucg_node_count = none;
  ucg_edge_count = none;
  smell_count = none;
  patch_count = none;
  error_message = none;
  error_stage = none;
  started_at = none;
  completed_at = none;
}

abbrev session : Session
session = record { commit = λ job row. record { job = job; row = job }; requery = λ w. some w.job }

abbrev agents : Agents
agents = record {
  language_detector = returned [];
  fallback = ([], 0);
  mapper = returned none;
  smell_detector = returned 4;
  planner = returned tt;
  validator = unavailable;
  learner = unavailable;
}

abbrev unstopped : String → Bool
unstopped stage = false
