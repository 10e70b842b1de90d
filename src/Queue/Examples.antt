-- ===== src/Queue/Examples.antt =====
-- A connected service, a broker that takes everything, and identifiers that are canonical.
use ai_project.Prelude.{suc, ◌≡◌, ◌≢◌, refl, String, Bool, true, false, none, some, arith}
use ai_project.Queue.{Body, Service, Exchange, ParseUuid, object, on_message, retry_count_of}
use ai_project.Queue.Retry.{
  is_live, live_message, dead_lettered, sent_to_dlq, resent, failing_run, failed-delivery-routes,
  failing-message-never-expires,
}
use ai_project.Queue.Worker.{HandsOver, enqueue_or_run_in_background, submission-HandsOver}

abbrev connected : Service
connected = record { available = true; has_exchange = true; has_dlq_exchange = true }

abbrev takes_all : Exchange → Bool
takes_all e = true

abbrev canonical : ParseUuid
canonical text = some text

abbrev first : Body
first = record {
  job_id = some "j1";
  stage = "analyze";
  retry_count = some 0;
  payload = object (some "/jobs/1");
}

abbrev last_try : Body
last_try = record first { retry_count = some 2 }

job_named : ◌≢◌ {A = String} "j1" ""
job_named e = cc

repo_named : ◌≢◌ {A = String} "/jobs/1" ""
repo_named e = cc

submission-HandsOver_example :
    HandsOver connected true canonical "j1" "/jobs/1"
      (enqueue_or_run_in_background connected true "j1" "/jobs/1")
submission-HandsOver_example =
    submission-HandsOver connected true canonical "j1" "/jobs/1" refl job_named repo_named

failing-message-never-expires_example :
    failing_run connected takes_all canonical "analyze" (suc 99) first
    ≡ some (resent "analyze" "j1" first)
unfolding retry_count_of
failing-message-never-expires_example =
    failing-message-never-expires connected takes_all canonical "analyze" first "j1" "j1" refl refl
      refl refl refl refl (omega arith) 99

-- A body without an identifier, whose retries are not used up: it cannot be published again.
abbrev unreadable : Body
unreadable = record first { job_id = none }

failed-delivery-routes_example :
    let outcome = on_message connected takes_all canonical "analyze" (some unreadable) false in
    (dead_lettered true outcome ≡ true) × (is_live (live_message outcome.0) ≡ false)
unfolding retry_count_of
failed-delivery-routes_example =
    failed-delivery-routes connected takes_all true canonical "analyze" unreadable

used_up :
    dead_lettered true (on_message connected takes_all canonical "analyze" (some last_try) false)
    ≡ true
unfolding dead_lettered on_message sent_to_dlq
used_up = refl
