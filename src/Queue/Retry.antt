-- ===== src/Queue/Retry.antt =====
-- What becomes of a message whose handler keeps failing.
use ai_project.Prelude.{
  ℕ, zero, suc, ◌+◌, ◌<◌, ◌≡◌, refl, String, Bool, true, false, Option, none, some, List, [], ◌∷◌,
  ◌&&◌, ◌||◌, not, arith, leb, if◌then◌else◌,
}
use ai_project.Queue.{
  Body, Sent, to_direct, to_dlq, Exchange, direct, dlq, Service, ParseUuid, Exit, normal, raised,
  max_retries, payload_or_empty, retry_count_of, on_message, Payload, absent, null, object,
}

-- The message that the main exchange holds after a delivery.
unfoldable pub live_message : List Sent → Option Body
live_message [] = none
live_message (to_direct key b ∷ rest) = some b
live_message (to_dlq b ∷ rest) = live_message rest

abbrev pub is_live : Option Body → Bool
is_live none = false
is_live (some b) = true

unfoldable pub sent_to_dlq : List Sent → Bool
sent_to_dlq [] = false
sent_to_dlq (to_direct key b ∷ rest) = sent_to_dlq rest
sent_to_dlq (to_dlq b ∷ rest) = true

abbrev pub is_raised : Exit → Bool
is_raised normal = false
is_raised raised = true

-- The message reaches the dead-letter exchange: the handler sends it there, or an exception leaves
-- `message.process(requeue=False)`, which rejects the message, and the broker forwards what is rejected,
-- as the queue's `x-dead-letter-exchange` asks of it (`forwards`).
unfoldable pub dead_lettered : Bool → List Sent × Exit → Bool
unfolding sent_to_dlq
dead_lettered forwards (sent, exit) = sent_to_dlq sent || (forwards && is_raised exit)

-- The body has an identifier that `publish` can be called with.
abbrev pub is_readable : ParseUuid → Body → Bool
is_readable parse_uuid body = elim body.job_id [
  | none ↦ false
  | some text ↦ elim (parse_uuid text) [ none ↦ false | some id ↦ true ]
]

-- The body that `publish` builds for a message that is sent again.
abbrev pub resent : (stage id : String) → Body → Body
resent stage id body = record {
  job_id = some id;
  stage = stage;
  retry_count = some 0;
  payload = payload_or_empty body.payload;
}

payload_or_empty_twice : (p : Payload) → payload_or_empty (payload_or_empty p) ≡ payload_or_empty p
unfolding payload_or_empty
payload_or_empty_twice absent = refl
payload_or_empty_twice null = refl
payload_or_empty_twice (object p) = refl

module _ (svc : Service) (accepts : Exchange → Bool) (parse_uuid : ParseUuid) (stage : String) where
  -- The message in the queue after so many deliveries, each handled by a handler that raises.
  unfoldable pub failing_run : ℕ → Body → Option Body
  failing_run zero body = some body
  failing_run (suc n) body = elim (failing_run n body) [
    | none ↦ none
    | some b ↦ live_message (on_message svc accepts parse_uuid stage (some b) false).0
  ]

  module _ (up : svc.available ≡ true) (declared : svc.has_exchange ≡ true)
      (sends : accepts direct ≡ true) where
    on_message-republish :
        (body : Body) (text id : String)
        → body.job_id ≡ some text
        → parse_uuid text ≡ some id
        → retry_count_of body + 1 < max_retries
        → on_message svc accepts parse_uuid stage (some body) false
          ≡ (to_direct stage (resent stage id body) ∷ [], normal)
    unfolding on_message
    on_message-republish body text id j p few = ground arith

    failing_run-resent :
        (body : Body) (text id : String)
        → body.job_id ≡ some text
        → parse_uuid text ≡ some id
        → parse_uuid id ≡ some id
        → retry_count_of body + 1 < max_retries
        → (n : ℕ) → failing_run (suc n) body ≡ some (resent stage id body)
    unfolding failing_run live_message
    failing_run-resent body text id j p canonical few zero =
        rw (on_message-republish body text id j p few)
    failing_run-resent body text id j p canonical few (suc n) = rw (
      failing_run-resent body text id j p canonical few n,
      on_message-republish (resent stage id body) id id refl canonical
          (unfold retry_count_of in omega arith),
      payload_or_empty_twice body.payload,
    )

-- A delivery whose handler raises, for every decoded body. With its retries used up, the message
-- reaches the dead-letter exchange exactly when that exchange is declared and takes it, and is not
-- published again. With retries left, it is published again exactly when its identifier can be read, the
-- service is connected, and the exchange is declared and takes it; it reaches the dead-letter exchange
-- exactly when the broker forwards rejected messages and the identifier cannot be read or the exchange
-- that is there refuses it. In all other cases it is gone.
pub failed-delivery-routes :
    (svc : Service) (accepts : Exchange → Bool) (forwards : Bool) (parse_uuid : ParseUuid)
    (stage : String) (body : Body)
    → let outcome = on_message svc accepts parse_uuid stage (some body) false in
      let exhausted = leb max_retries (retry_count_of body + 1) in
      let connected = svc.available && svc.has_exchange in
      let readable = is_readable parse_uuid body in
      (dead_lettered forwards outcome ≡ (
        if exhausted
        then svc.has_dlq_exchange && accepts dlq
        else forwards && (not readable || (connected && not (accepts direct)))))
      × (is_live (live_message outcome.0)
          ≡ (not exhausted && (readable && (connected && accepts direct))))
unfolding on_message dead_lettered live_message
failed-delivery-routes svc accepts forwards parse_uuid stage body = ground arith

-- A message that fails with retries left stays in the queue for ever: after any number of failing
-- deliveries, one or more, the main exchange holds it with `retry_count` 0, so the bound is
-- never reached. The service is connected and the exchange takes each message.
pub failing-message-never-expires :
    (svc : Service) (accepts : Exchange → Bool) (parse_uuid : ParseUuid) (stage : String)
    (body : Body) (text id : String)
    → svc.available ≡ true
    → svc.has_exchange ≡ true
    → accepts direct ≡ true
    → body.job_id ≡ some text
    → parse_uuid text ≡ some id
    → parse_uuid id ≡ some id
    → retry_count_of body + 1 < max_retries
    → (n : ℕ) → failing_run svc accepts parse_uuid stage (suc n) body ≡ some (resent stage id body)
failing-message-never-expires svc accepts parse_uuid stage body text id up declared sends =
    failing_run-resent svc accepts parse_uuid stage up declared sends body text id
