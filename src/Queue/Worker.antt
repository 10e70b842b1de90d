-- ===== src/Queue/Worker.antt =====
-- The two ends of the queue: `_enqueue_or_run_in_background` of backend/app/api/v1/analyze.py, and
-- `_handle_message` of backend/app/workers/pipeline_worker.py.
use ai_project.Prelude.{
  ◌≡◌, ◌≢◌, refl, inl, inr, ◌&&◌, ◌||◌, not, Bool-cases, String, Bool, true, false, Option, none,
  some, List, [], ◌∷◌, arith, if◌then◌else◌, str_eq, eq_iff,
}
use ai_project.Queue.{
  Body, Sent, to_direct, Service, ParseUuid, publish, Payload, absent, null, object,
}

pub data Handled : Type 0 where
  ignored raised : Handled
  ran : (job_id repo_path : String) → Handled

-- `not text`
abbrev pub is_empty : String → Bool
is_empty s = str_eq s ""

-- `body.get("payload", {}).get("repo_path", "")`; `none` stands for the AttributeError on `null`.
unfoldable pub repo_path_of : Payload → Option String
repo_path_of absent = some ""
repo_path_of null = none
repo_path_of (object none) = some ""
repo_path_of (object (some p)) = some p

-- `_handle_message`. The errors of the pipeline itself are caught, so once it runs nothing is raised.
unfoldable pub handle_message : ParseUuid → Body → Handled
unfolding repo_path_of
handle_message parse_uuid body = elim (repo_path_of body.payload) [
  | none ↦ raised
  | some path ↦ elim body.job_id [
    | none ↦ ignored
    | some text ↦
        if is_empty text
        then ignored
        else if is_empty path
        then ignored
        else elim (parse_uuid text) [ none ↦ raised | some id ↦ ran id path ]
  ]
]

-- What a submission leads to: messages, or a background task of the same process.
pub data Started : Type 0 where
  queued : List Sent → Started
  background : (job_id repo_path : String) → Started

-- `_enqueue_or_run_in_background`
unfoldable pub enqueue_or_run_in_background : Service → Bool → String → String → Started
unfolding publish
enqueue_or_run_in_background svc accepts job_id repo_path =
    if svc.available
    then (let (sent, failed) = publish svc accepts job_id "analyze" (object (some repo_path)) in
        if failed then background job_id repo_path else queued sent)
    else background job_id repo_path

-- What a submission hands over: the job to a background task of the process, in which case the broker is
-- not available or refuses the message; one message, whose handling calls the service for the job, once
-- for each time that it is delivered; or, where an available service has no exchange, nothing at all.
pub data HandsOver (svc : Service) (accepts : Bool) (parse_uuid : ParseUuid)
    (job_id repo_path : String) (started : Started) : Type 0 where
  in_background :
      started ≡ background job_id repo_path
      → (svc.available && (not svc.has_exchange || accepts)) ≡ false
      → HandsOver svc accepts parse_uuid job_id repo_path started
  in_message :
      (body : Body)
      → started ≡ queued (to_direct "analyze" body ∷ [])
      → handle_message parse_uuid body ≡ ran job_id repo_path
      → (svc.available && (svc.has_exchange && accepts)) ≡ true
      → HandsOver svc accepts parse_uuid job_id repo_path started
  nothing :
      started ≡ queued []
      → (svc.available && not svc.has_exchange) ≡ true
      → HandsOver svc accepts parse_uuid job_id repo_path started

-- A submission whose identifier is a canonical UUID text, and whose texts are not empty, hands its job over
-- in exactly one way, decided by the state of the broker. When the message is published, the worker that
-- gets it calls the service with the submitted identifier and repository path, at each delivery; when
-- the broker is not available or refuses the message, the background task gets the same two; and when
-- the broker is available without a declared exchange, neither happens. How often the broker delivers a
-- message, and what the service then finds, is not part of this.
pub submission-HandsOver :
    (svc : Service) (accepts : Bool) (parse_uuid : ParseUuid) (job_id repo_path : String)
    → parse_uuid job_id ≡ some job_id
    → job_id ≢ ""
    → repo_path ≢ ""
    → HandsOver svc accepts parse_uuid job_id repo_path
        (enqueue_or_run_in_background svc accepts job_id repo_path)
unfolding enqueue_or_run_in_background handle_message
submission-HandsOver svc accepts parse_uuid job_id repo_path canonical job_ne path_ne =
    elim (Bool-cases svc.available) [
      | inr down ↦ in_background (rw (enqueue_or_run_in_background, down) refl) (rw down refl)
      | inl up ↦ elim (Bool-cases svc.has_exchange) [
        | inr bare ↦ nothing (rw (enqueue_or_run_in_background, up, bare) refl) (rw (up, bare) refl)
        | inl declared ↦ elim (Bool-cases accepts) [
          | inr refuses ↦
              in_background (rw (enqueue_or_run_in_background, up, declared, refuses) refl)
                (rw (up, declared, refuses) refl)
          | inl takes ↦
              in_message
                (record {
                  job_id = some job_id;
                  stage = "analyze";
                  retry_count = some 0;
                  payload = object (some repo_path);
                })
                (rw (enqueue_or_run_in_background, up, declared, takes) refl)
                (ground (arith, eq_iff job_id "", eq_iff repo_path ""))
                (rw (up, declared, takes) refl)
        ]
      ]
    ]
