-- ===== src/Job/Logs/Numbered.antt =====
-- The numbers of a job's log entries when sessions of several agents, workers and requests
-- interleave: between the read of `insert_job_log` and the commit of `emit_progress` anything may
-- happen.
use ai_project.Prelude.{
  ℕ, ◌≡◌, refl, sym, ap, ◌∙◌, subst, String, Bool, true, false, some, List, [], ◌∷◌, ◌++◌, elem,
  length, ◌==◌, All, Bool-cases, inl, inr, arith, All-imply,
}
use ai_project.Job.Logs.{
  JobLog, LogTables, log_rows, insert_job_log, emit_progress, try_commit, delete_job,
}
use ai_project.Job.Logs.Rows.{
  Numbered, All-picked, Fits, IsNumbered, insert_job_log-Fits, try_commit-IsNumbered,
  try_commit-Fits, elem-kept, delete_job_lem,
}

-- The database, and the rows of the sessions that have read and not committed.
pub record Sessions : Type 0 where
  pub db : LogTables
  pub pending : List JobLog

-- One session reads and builds its row, commits it, or is lost; or a job is deleted.
pub data SessionStep (s : Sessions) (t : Sessions) : Type 0 where
  reads :
      (id now job_id percent : ℕ) (stage message : String)
      → t ≡ record s {
        pending = insert_job_log id now job_id stage message percent s.db.logs ∷ s.pending;
      }
      → SessionStep s t
  commits :
      (xs ys : List JobLog) (row : JobLog)
      → s.pending ≡ xs ++ row ∷ ys
      → t ≡ record { db = try_commit row s.db; pending = xs ++ ys }
      → SessionStep s t
  lost :
      (xs ys : List JobLog) (row : JobLog)
      → s.pending ≡ xs ++ row ∷ ys
      → t ≡ record s { pending = xs ++ ys }
      → SessionStep s t
  deletes :
      (job_id : ℕ) (db : LogTables)
      → delete_job job_id s.db ≡ some db
      → t ≡ record s { db = db }
      → SessionStep s t

pub data SessionRun (s : Sessions) : Sessions → Type 0 where
  here : SessionRun s s
  next : {t u : Sessions} → SessionRun s t → SessionStep t u → SessionRun s u

-- No row is written, and no session is under way.
abbrev pub start : List ℕ → Sessions
start jobs = record { db = record { jobs = jobs; logs = [] }; pending = [] }

abbrev pub IsGood : Sessions → Type 0
IsGood s = IsNumbered s.db × All (Fits s.db) s.pending

-- A row that is taken from the pending ones leaves the rest, and fits.
pub picked :
    (s : Sessions) (xs ys : List JobLog) (row : JobLog)
    → s.pending ≡ xs ++ row ∷ ys
    → IsGood s
    → Fits s.db row × All (Fits s.db) (xs ++ ys)
picked s xs ys row e g = All-picked (Fits s.db) xs ys row (subst (All (Fits s.db)) e g.1)

deleted-IsNumbered :
    (j : ℕ) (t u : LogTables) → delete_job j t ≡ some u → IsNumbered t → IsNumbered u
deleted-IsNumbered j t u e h i =
    let rows = (delete_job_lem j t u e).1 i in
    elim (Bool-cases (i == j)) [
      | inl own ↦ subst (Numbered 0) (sym (rw own at rows)) tt
      | inr other ↦ subst (Numbered 0) (sym (rw other at rows)) (h i)
    ]

deleted-Fits :
    (j : ℕ) (t u : LogTables) → delete_job j t ≡ some u → (p : JobLog) → Fits t p → Fits u p
deleted-Fits j t u e p fit there =
    let (jobs, rows) = delete_job_lem j t u e in
    let (was, other) = elem-kept p.job_id j t.jobs (sym (ap (elem p.job_id) jobs) ∙ there) in
    let same = rw other at (rows p.job_id) in
    let (lo, hi) = fit was in (lo, omega (arith, hi, ap length same))

pub SessionStep-IsGood : (s t : Sessions) → SessionStep s t → IsGood s → IsGood t
SessionStep-IsGood s t (reads id now job_id percent stage message e) g =
    subst IsGood (sym e)
      (g.0, (insert_job_log-Fits id now job_id percent stage message s.db g.0, g.1))
SessionStep-IsGood s t (commits xs ys row p e) g =
    let (fits, rest) = picked s xs ys row p g in
    subst IsGood (sym e) (
      try_commit-IsNumbered row s.db g.0 fits,
      All-imply (Fits s.db) (Fits (try_commit row s.db)) (try_commit-Fits row s.db g.0 fits)
          (xs ++ ys) rest,
    )
SessionStep-IsGood s t (lost xs ys row p e) g =
    subst IsGood (sym e) (g.0, (picked s xs ys row p g).1)
SessionStep-IsGood s t (deletes job_id db d e) g = subst IsGood (sym e) (
  deleted-IsNumbered job_id s.db db d g.0,
  All-imply (Fits s.db) (Fits db) (deleted-Fits job_id s.db db d) s.pending g.1,
)

pub SessionRun-IsGood : {s t : Sessions} → SessionRun s t → IsGood s → IsGood t
SessionRun-IsGood here g = g
SessionRun-IsGood (next {t} {u} r st) g = SessionStep-IsGood t u st (SessionRun-IsGood r g)

pub start-IsGood : (jobs : List ℕ) → IsGood (start jobs)
start-IsGood jobs = (λ j. tt, tt)

-- A call of `emit_progress` that nothing interrupts is a read and a commit, or nothing.
emit_progress-SessionRun :
    (connected : Bool) (id now job_id percent : ℕ) (stage message : String) (s : Sessions)
    → SessionRun s
        record s { db = emit_progress connected id now job_id stage message percent s.db }
unfolding emit_progress
emit_progress-SessionRun false id now job_id percent stage message s = here
emit_progress-SessionRun true id now job_id percent stage message s =
    let row = insert_job_log id now job_id stage message percent s.db.logs in
    next (next here (reads id now job_id percent stage message refl))
      (commits [] s.pending row refl refl)

-- Let any number of sessions read the log, build their rows, commit them or be lost, of any jobs
-- and in any order, and let jobs be deleted in between, from the empty log on. Then at every
-- moment the committed rows of each job are numbered 1, 2, 3, … in the order of their commits,
-- without a gap and without a number twice.
pub SessionRun-Numbered :
    (jobs : List ℕ) (j : ℕ) (s : Sessions)
    → SessionRun (start jobs) s
    → Numbered 0 (log_rows j s.db.logs)
SessionRun-Numbered jobs j s r = (SessionRun-IsGood r (start-IsGood jobs)).0 j
