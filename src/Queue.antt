-- ===== src/Queue.antt =====
-- The message queue (backend/app/services/queue/rabbitmq.py) and its consumer
-- (backend/app/workers/pipeline_worker.py). The broker and aio-pika are not in the repository: an
-- operation is the list of the calls that it makes on them, and whether such a call raises is an
-- argument. Message identifiers and time stamps are left out: nothing reads them.
pub mod Retry
pub mod Worker
mod Examples
use ai_project.Prelude.{
  ℕ, suc, ◌+◌, ◌<◌, String, Bool, true, false, Option, none, some, List, [], ◌∷◌, ◌++◌, ◌&&◌, ltb,
  if◌then◌else◌,
}

-- The value at "payload" in a message body: no such key, `null`, or an object with the text at
-- "repo_path", if it has that key.
pub data Payload : Type 0 where
  absent null : Payload
  object : Option String → Payload

-- A decoded message body.
pub record Body : Type 0 where
  pub job_id : Option String
  pub stage : String
  pub retry_count : Option ℕ
  pub payload : Payload

pub data Exchange : Type 0 where
  direct dlq : Exchange

-- A call on an exchange that went through.
pub data Sent : Type 0 where
  to_direct : (routing_key : String) → Body → Sent
  to_dlq : (raw : Option Body) → Sent

-- The parts of the service object that `publish` and `_on_message` read.
pub record Service : Type 0 where
  pub available : Bool
  pub has_exchange : Bool
  pub has_dlq_exchange : Bool

abbrev pub max_retries : ℕ
max_retries = 3

-- `payload or {}`, of `body.get("payload")` or of the argument
unfoldable pub payload_or_empty : Payload → Payload
payload_or_empty absent = object none
payload_or_empty null = object none
payload_or_empty (object p) = object p

-- `publish`: what was sent, and whether it raised. The exchange goes through or raises by `accepts`.
unfoldable pub publish : Service → Bool → String → String → Payload → List Sent × Bool
unfolding payload_or_empty
publish svc accepts job_id stage payload =
    let message_body : Body = record {
      job_id = some job_id;
      stage = stage;
      retry_count = some 0;
      payload = payload_or_empty payload;
    } in
    if svc.available
    then (if svc.has_exchange
        then (if accepts then (to_direct stage message_body ∷ [], false) else ([], true))
        else ([], false))
    else ([], false)

-- `body.get("retry_count", 0)`
unfoldable pub retry_count_of : Body → ℕ
retry_count_of body = elim body.retry_count [ none ↦ 0 | some n ↦ n ]

-- How the block `async with message.process(requeue=False)` is left.
pub data Exit : Type 0 where
  normal raised : Exit

-- `UUID(text)` followed by `str`: the canonical text, or a ValueError.
abbrev pub ParseUuid : Type 0
ParseUuid = String → Option String

module _ (svc : Service) (accepts : Exchange → Bool) (parse_uuid : ParseUuid) (stage : String) where
  -- the re-publishing branch of the handler's `except`
  unfoldable pub republish : Body → List Sent × Exit
  unfolding publish
  republish body = elim body.job_id [
    | none ↦ ([], raised)
    | some text ↦ elim (parse_uuid text) [
      | none ↦ ([], raised)
      | some id ↦
          let (sent, failed) = publish svc (accepts direct) id stage body.payload in
          (sent, (if failed then raised else normal))
    ]
  ]

  -- the branch that routes to the dead-letter exchange; a failure there is logged
  unfoldable pub to_dead_letter : Body → List Sent × Exit
  to_dead_letter body =
      if svc.has_dlq_exchange && accepts dlq
      then (to_dlq (some body) ∷ [], normal)
      else ([], normal)

  -- the `except` block, for a body that was decoded
  unfoldable pub on_failure : Body → List Sent × Exit
  unfolding retry_count_of republish to_dead_letter
  on_failure body =
      let retry_count = retry_count_of body + 1 in
      if ltb retry_count max_retries
      then republish (record body { retry_count = some retry_count })
      else to_dead_letter body

  -- `_on_message`. `decoded` is none where the bytes are no JSON: `body` is then unbound, and the
  -- `except` block raises. `handled` says whether the handler returned without raising.
  unfoldable pub on_message : Option Body → Bool → List Sent × Exit
  unfolding on_failure
  on_message none handled = ([], raised)
  on_message (some body) handled = if handled then ([], normal) else on_failure body
