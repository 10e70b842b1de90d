-- ===== src/Job/Logs/Followed.antt =====
-- A client that follows the progress of a job while sessions write to the log.
use ai_project.Prelude.{
  ℕ, zero, suc, ◌+◌, ◌≤◌, ◌≡◌, refl, sym, ap, ◌∙◌, subst, true, some, List, [], ◌∷◌, ◌++◌, map,
  elem, take, length, ◌==◌, inl, inr, arith, length-take, length-map, length-append, if◌then◌else◌,
}
use mathlib.Core.List.{append-nil}
use ai_project.Pagination.{QueryInt, clamp_size}
use ai_project.Pagination.Cover.{take_all, clamp_size_bounds}
use ai_project.Job.Logs.{JobLog, LogTables, log_rows, try_commit, delete_job, JobLogEntry, entry_of}
use ai_project.Job.Logs.Rows.{
  Numbered, Fits, IsNumbered, try_commit_outcome, elem-kept, delete_job_lem, log_rows-last,
}
use ai_project.Job.Logs.Numbered.{
  Sessions, SessionStep, reads, commits, lost, deletes, start, IsGood, SessionStep-IsGood,
  start-IsGood, picked,
}
use ai_project.Job.Logs.Polled.{Follows, first-Follows, take-longer, poll, polls, poll-next}

-- The job was there already, and its rows come first.
abbrev Grows : ℕ → LogTables → LogTables → Type 0
Grows j t u =
    (elem j t.jobs ≡ true)
    × ((more : List JobLog) × (log_rows j u.logs ≡ log_rows j t.logs ++ more))

Grows-self : (j : ℕ) (t : LogTables) → elem j t.jobs ≡ true → Grows j t t
Grows-self j t there = (there, ([], sym (append-nil (log_rows j t.logs))))

-- What a table keeps, a table equal to it keeps.
Grows-same :
    (j : ℕ) (t u v : LogTables)
    → v ≡ u
    → (elem j u.jobs ≡ true → Grows j t u)
    → elem j v.jobs ≡ true
    → Grows j t v
Grows-same j t u v e f = subst (λ (w : LogTables). elem j w.jobs ≡ true → Grows j t w) (sym e) f

try_commit-Grows :
    (j : ℕ) (row : JobLog) (t : LogTables)
    → IsNumbered t
    → Fits t row
    → elem j (try_commit row t).jobs ≡ true
    → Grows j t (try_commit row t)
try_commit-Grows j row t h fits there = elim (try_commit_outcome row t h fits) [
  | inl same ↦ Grows-same j t t (try_commit row t) same (Grows-self j t) there
  | inr (_, longer) ↦
      let added = if row.job_id == j then row ∷ [] else [] in
      Grows-same j t record t { logs = t.logs ++ row ∷ [] } (try_commit row t) longer
        (λ was. (was, (added, log_rows-last j t.logs row))) there
]

delete_job-Grows :
    (j job_id : ℕ) (t u : LogTables)
    → delete_job job_id t ≡ some u
    → elem j u.jobs ≡ true
    → Grows j t u
delete_job-Grows j job_id t u e there =
    let (jobs, rows) = delete_job_lem job_id t u e in
    let (was, other) = elem-kept j job_id t.jobs (sym (ap (elem j) jobs) ∙ there) in
    (was, ([], rw other at (rows j) ∙ sym (append-nil (log_rows j t.logs))))

-- While a job is there, a step appends to its rows, or leaves them.
SessionStep-Grows :
    (j : ℕ) (s t : Sessions)
    → SessionStep s t
    → IsGood s
    → elem j t.db.jobs ≡ true
    → Grows j s.db t.db
SessionStep-Grows j s t (reads id now job_id percent stage message e) g there =
    Grows-same j s.db s.db t.db (ap (λ (u : Sessions). u.db) e) (Grows-self j s.db) there
SessionStep-Grows j s t (commits xs ys row p e) g there =
    Grows-same j s.db (try_commit row s.db) t.db (ap (λ (u : Sessions). u.db) e)
      (try_commit-Grows j row s.db g.0 (picked s xs ys row p g).0) there
SessionStep-Grows j s t (lost xs ys row p e) g there =
    Grows-same j s.db s.db t.db (ap (λ (u : Sessions). u.db) e) (Grows-self j s.db) there
SessionStep-Grows j s t (deletes job_id db d e) g there =
    Grows-same j s.db db t.db (ap (λ (u : Sessions). u.db) e) (delete_job-Grows j job_id s.db db d)
      there

Grows-Follows :
    (j : ℕ) (t u : LogTables) (received : List JobLogEntry)
    → Follows j t received
    → Grows j t u
    → Follows j u received
Grows-Follows j t u received f (there, (more, e)) =
    let rows = log_rows j t.logs in
    let n = length received in
    (
      omega (arith, f.0, ap length e, length-append rows more),
      f.1 ∙ ap (map entry_of) (sym (ap (take n) e ∙ take-longer n rows more f.0)),
    )

-- Sessions write and jobs are deleted, from the empty log on, while one client polls for the job,
-- with any limit each time.
pub data Life (jobs : List ℕ) (j : ℕ) : Sessions → List JobLogEntry → Type 0 where
  begins : Life jobs j (start jobs) []
  moves :
      {s t : Sessions} {received : List JobLogEntry}
      → Life jobs j s received
      → SessionStep s t
      → Life jobs j t received
  polled :
      {s : Sessions} {received : List JobLogEntry} (limit : QueryInt)
      → Life jobs j s received
      → Life jobs j s (poll j limit s.db received)

poll-Follows :
    (j : ℕ) (limit : QueryInt) (t : LogTables) (received : List JobLogEntry)
    → elem j t.jobs ≡ true
    → Numbered 0 (log_rows j t.logs)
    → Follows j t received
    → Follows j t (poll j limit t received)
poll-Follows j limit t received there h f =
    first-Follows j (length received + clamp_size 500 limit) t (poll j limit t received)
      (poll-next j limit t received there h f)

Life-invariant :
    (jobs : List ℕ) (j : ℕ) {s : Sessions} {received : List JobLogEntry}
    → Life jobs j s received
    → IsGood s × (elem j s.db.jobs ≡ true → Follows j s.db received)
Life-invariant jobs j begins = (start-IsGood jobs, λ there. (omega arith, refl))
Life-invariant jobs j (moves {s} {t} {received} life step) =
    let (g, f) = Life-invariant jobs j life in
    (
      SessionStep-IsGood s t step g,
      λ there.
          let grows = SessionStep-Grows j s t step g there in
          Grows-Follows j s.db t.db received (f grows.0) grows,
    )
Life-invariant jobs j (polled {s} {received} limit life) =
    let (g, f) = Life-invariant jobs j life in
    (g, λ there. poll-Follows j limit s.db received there (g.0 j) (f there))

polls-all :
    (j : ℕ) (limit : QueryInt) (k : ℕ) (t : LogTables) (received : List JobLogEntry)
    → elem j t.jobs ≡ true
    → Numbered 0 (log_rows j t.logs)
    → Follows j t received
    → length (log_rows j t.logs) ≤ length received + k
    → polls j limit k t received ≡ map entry_of (log_rows j t.logs)
polls-all j limit zero t received there h f enough =
    f.1 ∙ ap (map entry_of) (take_all (length received) (log_rows j t.logs) (omega (arith, enough)))
polls-all j limit (suc k) t received there h f enough =
    let rows = log_rows j t.logs in
    let c = clamp_size 500 limit in
    let after = poll j limit t received in
    let e = ap length (poll-next j limit t received there h f) in
    let l = length-map entry_of (take (length received + c) rows) in
    let m = length-take (length received + c) rows in
    let lo = (clamp_size_bounds 500 limit (omega arith)).0 in
    polls-all j limit k t after there h (poll-Follows j limit t received there h f)
      (omega (arith, e, l, m, lo, enough))

-- Let sessions of any agents write to the log from the empty one on, be lost on the way, and jobs be
-- deleted, while a client asks for what is behind the last number it has, with any limits. As long
-- as the job is there, the client has the first entries of its log, each once and in the order of
-- their numbers; and as many more polls as entries are missing, or any larger number, with whatever limit,
-- bring it the whole log.
pub polls-catch_up :
    (jobs : List ℕ) (j : ℕ) (limit : QueryInt) (k : ℕ) {s : Sessions} {received : List JobLogEntry}
    → Life jobs j s received
    → elem j s.db.jobs ≡ true
    → length (log_rows j s.db.logs) ≤ length received + k
    → (received ≡ map entry_of (take (length received) (log_rows j s.db.logs)))
      × (polls j limit k s.db received ≡ map entry_of (log_rows j s.db.logs))
polls-catch_up jobs j limit k {s} {received} life there enough =
    let (g, follows) = Life-invariant jobs j life in
    let f = follows there in (f.1, polls-all j limit k s.db received there (g.0 j) f enough)
