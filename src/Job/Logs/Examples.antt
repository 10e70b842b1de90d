-- ===== src/Job/Logs/Examples.antt =====
-- Two sessions that write to the log of one job at once, and a client that follows it.
use ai_project.Prelude.{ℕ, ◌≡◌, refl, [], ◌∷◌, map, take, arith}
use ai_project.Pagination.{pos, negsuc, clamp_size}
use ai_project.Job.Logs.{
  JobLog, log_rows, max_seq, insert_job_log, commit_log, try_commit, entry_of, insert_seq,
  order_by_seq, get_job_logs,
}
use ai_project.Job.Logs.Numbered.{
  Sessions, reads, commits, SessionRun, here, next, start, SessionRun-Numbered,
}
use ai_project.Job.Logs.Rows.{Numbered}
use ai_project.Job.Logs.Polled.{polls}
use ai_project.Job.Logs.Followed.{Life, begins, moves, polled, polls-catch_up}

abbrev log : ℕ → ℕ → JobLog
log id seq = record {
  id = id;
  job_id = 7;
  seq = seq;
  stage = "mapping";
  message = "parsed";
  percent = 40;
  created_at = 50;
}

abbrev written : Sessions
written = record { db = record { jobs = 7 ∷ []; logs = log 2 1 ∷ log 3 2 ∷ [] }; pending = [] }

-- Both sessions read the empty log and take the number 1. The second is committed first, the commit
-- of the first is refused, and a third entry follows.
abbrev race : SessionRun (start (7 ∷ [])) written
unfolding insert_job_log max_seq try_commit commit_log
race =
    next
      (next
        (next
          (next
            (next (next here (reads 1 50 7 40 "mapping" "parsed" refl))
              (reads 2 50 7 40 "mapping" "parsed" refl))
            (commits [] (log 1 1 ∷ []) (log 2 1) refl refl))
          (commits [] [] (log 1 1) refl refl))
        (reads 3 50 7 40 "mapping" "parsed" refl))
      (commits [] [] (log 3 2) refl refl)

SessionRun-Numbered_example : Numbered 0 (log_rows 7 written.db.logs)
SessionRun-Numbered_example = SessionRun-Numbered (7 ∷ []) 7 written race

-- The client polls when one entry is there, and again when both are, with a limit below 1.
abbrev followed : Life (7 ∷ []) 7 written (entry_of (log 2 1) ∷ [])
unfolding insert_job_log max_seq try_commit commit_log get_job_logs clamp_size order_by_seq
    insert_seq
followed =
    moves
      (moves
        (polled (pos 1) (
          moves
            (moves
              (moves (moves (begins) (reads 1 50 7 40 "mapping" "parsed" refl))
                (reads 2 50 7 40 "mapping" "parsed" refl))
              (commits [] (log 1 1 ∷ []) (log 2 1) refl refl))
            (commits [] [] (log 1 1) refl refl)))
        (reads 3 50 7 40 "mapping" "parsed" refl))
      (commits [] [] (log 3 2) refl refl)

polls-catch_up_example :
    (entry_of (log 2 1) ∷ [] ≡ map entry_of (take 1 (log_rows 7 written.db.logs)))
    × (polls 7 (negsuc 0) 1 written.db (entry_of (log 2 1) ∷ [])
        ≡ map entry_of (log_rows 7 written.db.logs))
polls-catch_up_example =
    polls-catch_up (7 ∷ []) 7 (negsuc 0) 1 {s = written} {received = entry_of (log 2 1) ∷ []}
      followed refl (omega arith)
