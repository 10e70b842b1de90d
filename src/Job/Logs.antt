-- ===== src/Job/Logs.antt =====
-- The progress log of a job: `JobLog` and `insert_job_log` of backend/app/models/job_log.py,
-- `emit_progress` of backend/app/agents/base.py, which an agent calls in a session of its own, and
-- `get_job_logs` and `delete_job` of backend/app/api/v1/analyze.py.
mod Rows
mod Numbered
mod Polled
mod Followed
mod Examples
use ai_project.Prelude.{
  ℕ, suc, ◌+◌, max, String, Bool, true, false, not, Option, none, some, List, [], ◌∷◌, ◌++◌, map,
  keep, any, elem, take, length, leb, ltb, ◌==◌, ◌||◌, ◌&&◌, if◌then◌else◌,
}
use ai_project.Pagination.{QueryInt, pos, negsuc, clamp_size}

pub record JobLog : Type 0 where
  pub id : ℕ
  pub job_id : ℕ
  pub seq : ℕ
  pub stage : String
  pub message : String
  pub percent : ℕ
  pub created_at : ℕ

-- The jobs that there are, and the committed rows of `job_logs` in the order of their commits.
pub record LogTables : Type 0 where
  pub jobs : List ℕ
  pub logs : List JobLog

-- `select(…).where(JobLog.job_id == job_id)`
abbrev pub log_rows : ℕ → List JobLog → List JobLog
log_rows job_id logs = keep (λ (l : JobLog). l.job_id == job_id) logs

-- `COALESCE(MAX(seq), 0)`
unfoldable pub max_seq : List JobLog → ℕ
max_seq [] = 0
max_seq (l ∷ ls) = max l.seq (max_seq ls)

-- The row that `insert_job_log` builds on what its session reads, with the identifier drawn and the
-- time read.
unfoldable pub insert_job_log : ℕ → ℕ → ℕ → String → String → ℕ → List JobLog → JobLog
insert_job_log id now job_id stage message percent logs = record {
  id = id;
  job_id = job_id;
  seq = max_seq (log_rows job_id logs) + 1;
  stage = stage;
  message = message;
  percent = percent;
  created_at = now;
}

-- The two constraints of the table that a commit checks: the job is there, and no row of it has
-- this `seq`.
unfoldable pub commit_log : JobLog → LogTables → Option LogTables
commit_log row t =
    if elem row.job_id t.jobs
      && not (any (λ (l : JobLog). (l.job_id == row.job_id) && (l.seq == row.seq)) t.logs)
    then some record t { logs = t.logs ++ row ∷ [] }
    else none

-- The `except` of `emit_progress` swallows what the commit raises.
unfoldable pub try_commit : JobLog → LogTables → LogTables
try_commit row t = elim (commit_log row t) [ none ↦ t | some u ↦ u ]

-- The whole of `emit_progress`, with nothing between its read and its commit; `connected` says
-- that the database serves the session.
unfoldable pub emit_progress : Bool → ℕ → ℕ → ℕ → String → String → ℕ → LogTables → LogTables
emit_progress connected id now job_id stage_name message percent t =
    if connected
    then try_commit (insert_job_log id now job_id stage_name message percent t.logs) t
    else t

pub record JobLogEntry : Type 0 where
  pub seq : ℕ
  pub stage : String
  pub message : String
  pub percent : ℕ
  pub created_at : ℕ

pub record JobLogsResponse : Type 0 where
  pub job_id : ℕ
  pub total : ℕ
  pub logs : List JobLogEntry

abbrev pub entry_of : JobLog → JobLogEntry
entry_of log = record {
  seq = log.seq;
  stage = log.stage;
  message = log.message;
  percent = log.percent;
  created_at = log.created_at;
}

-- `JobLog.seq > since_seq`
abbrev pub is_newer : QueryInt → JobLog → Bool
is_newer (pos n) log = ltb n log.seq
is_newer (negsuc n) log = true

-- `order_by(JobLog.seq)`
unfoldable pub insert_seq : JobLog → List JobLog → List JobLog
insert_seq x [] = x ∷ []
insert_seq x (y ∷ ys) =
    let later = insert_seq x ys in if leb x.seq y.seq then x ∷ y ∷ ys else y ∷ later

unfoldable pub order_by_seq : List JobLog → List JobLog
unfolding insert_seq
order_by_seq [] = []
order_by_seq (x ∷ xs) = insert_seq x (order_by_seq xs)

-- `none` is the answer 404.
unfoldable pub get_job_logs : ℕ → QueryInt → QueryInt → LogTables → Option JobLogsResponse
get_job_logs job_id since_seq limit t =
    if elem job_id t.jobs
    then some record {
      job_id = job_id;
      total = length (log_rows job_id t.logs);
      logs = map entry_of (
          take (clamp_size 500 limit)
            (order_by_seq (keep (is_newer since_seq) (log_rows job_id t.logs))));
    }
    else none

-- What a deletion leaves of the two tables: the rows of the job go with it (`ondelete="CASCADE"`),
-- and the status "cancelled" that a running job gets first is written in the same transaction.
-- `none` is the answer 404.
unfoldable pub delete_job : ℕ → LogTables → Option LogTables
delete_job job_id t =
    if elem job_id t.jobs
    then some record {
      jobs = keep (λ j. not (j == job_id)) t.jobs;
      logs = keep (λ (l : JobLog). not (l.job_id == job_id)) t.logs;
    }
    else none
