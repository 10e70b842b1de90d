-- ===== src/Job/Logs/Rows.antt =====
-- The rows of a job in the table of log entries: their numbers, and what a commit and a deletion
-- change of them.
use mathlib.Core.List.{append-nil}
use ai_project.Prelude.{
  ℕ, suc, ◌+◌, ◌≤◌, ◌<◌, max, ◌≡◌, ◌⊎◌, refl, sym, ap, ◌∙◌, subst, String, true, false, not, some,
  List, [], ◌∷◌, ◌++◌, keep, any, elem, length, ◌==◌, ◌&&◌, All, Bool-cases, Option-cases, inl, inr,
  arith, ==_iff, keep-append, length-append, if◌then◌else◌,
}
use ai_project.Job.Logs.{
  JobLog, LogTables, log_rows, max_seq, insert_job_log, commit_log, try_commit, delete_job,
}

-- The rows are numbered k + 1, k + 2, … in their order.
abbrev pub Numbered : ℕ → List JobLog → Type 0
Numbered k [] = Unit
Numbered k (l ∷ ls) = (l.seq ≡ suc k) × Numbered (suc k) ls

max_seq-Numbered : (k : ℕ) (ls : List JobLog) → Numbered k ls → max k (max_seq ls) ≡ k + length ls
unfolding max_seq
max_seq-Numbered k [] h = omega arith
max_seq-Numbered k (l ∷ ls) h = omega (arith, h.0, max_seq-Numbered (suc k) ls h.1)

Numbered-last :
    (k : ℕ) (ls : List JobLog) (l : JobLog)
    → Numbered k ls
    → l.seq ≡ suc (k + length ls)
    → Numbered k (ls ++ l ∷ [])
Numbered-last k [] l h e = (omega (arith, e), tt)
Numbered-last k (x ∷ ls) l h e = (h.0, Numbered-last (suc k) ls l h.1 (omega (arith, e)))

-- Each number up to the last is taken.
Numbered-taken :
    (k s : ℕ) (ls : List JobLog)
    → Numbered k ls
    → k < s
    → s ≤ k + length ls
    → any (λ (l : JobLog). l.seq == s) ls ≡ true
Numbered-taken k s [] h lo hi = absurd (omega arith)
Numbered-taken k s (l ∷ ls) h lo hi = elim (Bool-cases (l.seq == s)) [
  | inl e ↦ rw e refl
  | inr e ↦ rw e (Numbered-taken (suc k) s ls h.1 (ground (arith, h.0)) (omega arith))
]

-- The test of the constraint on (job_id, seq) looks at the rows of the job.
any-log_rows :
    (j s : ℕ) (ls : List JobLog)
    → any (λ (l : JobLog). (l.job_id == j) && (l.seq == s)) ls
      ≡ any (λ (l : JobLog). l.seq == s) (log_rows j ls)
any-log_rows j s [] = refl
any-log_rows j s (l ∷ ls) = ground (arith, any-log_rows j s ls)

module _ {ℓ κ} {A : Type ℓ} (P : A → Type κ) where
  pub All-picked : (xs ys : List A) (y : A) → All P (xs ++ y ∷ ys) → P y × All P (xs ++ ys)
  All-picked [] ys y h = h
  All-picked (x ∷ xs) ys y h = let (p, q) = All-picked xs ys y h.1 in (p, (h.0, q))

-- A row that is not committed has a number that is taken, or the next one.
abbrev pub Fits : LogTables → JobLog → Type 0
Fits t row =
    elem row.job_id t.jobs ≡ true
    → (0 < row.seq) × (row.seq ≤ suc (length (log_rows row.job_id t.logs)))

abbrev pub IsNumbered : LogTables → Type 0
IsNumbered t = (j : ℕ) → Numbered 0 (log_rows j t.logs)

pub insert_job_log-Fits :
    (id now j percent : ℕ) (stage message : String) (t : LogTables)
    → IsNumbered t
    → Fits t (insert_job_log id now j stage message percent t.logs)
unfolding insert_job_log
insert_job_log-Fits id now j percent stage message t h there =
    let m = max_seq-Numbered 0 (log_rows j t.logs) (h j) in omega (arith, m)

-- What a commit that goes through has found and done.
commit_log_lem :
    (row : JobLog) (t u : LogTables)
    → commit_log row t ≡ some u
    → (elem row.job_id t.jobs ≡ true)
      × (any (λ (l : JobLog). l.seq == row.seq) (log_rows row.job_id t.logs) ≡ false)
      × (u ≡ record t { logs = t.logs ++ row ∷ [] })
unfolding commit_log
commit_log_lem row t u h = elim (Bool-cases (elem row.job_id t.jobs)) [
  | inr gone ↦ cc (rw gone at h)
  | inl there ↦
      elim (Bool-cases
        (any (λ (l : JobLog). (l.job_id == row.job_id) && (l.seq == row.seq)) t.logs)) [
          | inl taken ↦ cc (rw (there, taken) at h)
          | inr free ↦ (
            there,
            sym (any-log_rows row.job_id row.seq t.logs) ∙ free,
            cc (rw (there, free) at h),
          )
        ]
]

-- A commit that goes through takes the next number.
committed-seq :
    (row : JobLog) (t u : LogTables)
    → IsNumbered t
    → Fits t row
    → commit_log row t ≡ some u
    → row.seq ≡ suc (length (log_rows row.job_id t.logs))
committed-seq row t u h fits e =
    let (there, free, _) = commit_log_lem row t u e in
    let (lo, hi) = fits there in
    let rows = log_rows row.job_id t.logs in
    let new : ¬ (row.seq ≤ length rows) =
      λ old. cc (Numbered-taken 0 row.seq rows (h row.job_id) lo (omega (arith, old)), free) in
    omega (arith, hi, new)

pub log_rows-last :
    (j : ℕ) (ls : List JobLog) (row : JobLog)
    → log_rows j (ls ++ row ∷ []) ≡ log_rows j ls ++ (if row.job_id == j then row ∷ [] else [])
log_rows-last j ls row = keep-append (λ (l : JobLog). l.job_id == j) ls (row ∷ [])

-- A commit changes nothing, or it appends the row, which has the next number.
pub try_commit_outcome :
    (row : JobLog) (t : LogTables)
    → IsNumbered t
    → Fits t row
    → (try_commit row t ≡ t)
      ⊎ ((row.seq ≡ suc (length (log_rows row.job_id t.logs)))
          × (try_commit row t ≡ record t { logs = t.logs ++ row ∷ [] }))
unfolding try_commit
try_commit_outcome row t h fits = elim (Option-cases (commit_log row t)) [
  | inl refused ↦ inl (rw (try_commit, refused) refl)
  | inr (u, e) ↦
      let (_, _, same) = commit_log_lem row t u e in
      inr (committed-seq row t u h fits e, rw (try_commit, e) same)
]

Numbered-next :
    (j : ℕ) (row : JobLog) (ls : List JobLog)
    → Numbered 0 (log_rows j ls)
    → row.seq ≡ suc (length (log_rows row.job_id ls))
    → Numbered 0 (log_rows j (ls ++ row ∷ []))
Numbered-next j row ls h e = elim (Bool-cases (row.job_id == j)) [
  | inr other ↦
      rw (log_rows-last j ls row, other) (subst (Numbered 0) (sym (append-nil (log_rows j ls))) h)
  | inl own ↦
      rw (log_rows-last j ls row, own)
        (Numbered-last 0 (log_rows j ls) row h
          (omega (arith, e, ap (λ i. length (log_rows i ls)) ((==_iff row.job_id j).0 own))))
]

pub try_commit-IsNumbered :
    (row : JobLog) (t : LogTables) → IsNumbered t → Fits t row → IsNumbered (try_commit row t)
try_commit-IsNumbered row t h fits = elim (try_commit_outcome row t h fits) [
  | inl same ↦ subst IsNumbered (sym same) h
  | inr (e, longer) ↦ subst IsNumbered (sym longer) (λ j. Numbered-next j row t.logs (h j) e)
]

pub try_commit-Fits :
    (row : JobLog) (t : LogTables)
    → IsNumbered t
    → Fits t row
    → (p : JobLog) → Fits t p
    → Fits (try_commit row t) p
try_commit-Fits row t h fits p fit = elim (try_commit_outcome row t h fits) [
  | inl same ↦ subst (λ u. Fits u p) (sym same) fit
  | inr (e, longer) ↦
      subst (λ u. Fits u p) (sym longer)
        (λ there.
          let (lo, hi) = fit there in
          let m =
            length-append (log_rows p.job_id t.logs)
              (if row.job_id == p.job_id then row ∷ [] else []) in
          (lo, rw (log_rows-last p.job_id t.logs row) (omega (arith, hi, m))))
]

pub elem-kept :
    (i j : ℕ) (ks : List ℕ)
    → elem i (keep (λ k. not (k == j)) ks) ≡ true
    → (elem i ks ≡ true) × ((i == j) ≡ false)
elem-kept i j [] h = cc
elem-kept i j (k ∷ ks) h = elim (Bool-cases (k == j)) [
  | inl e ↦ let ih = elem-kept i j ks (rw e at h) in ground (arith, ih)
  | inr e ↦ elim (Bool-cases (i == k)) [
    | inl own ↦ (rw own refl, ground (arith, own, e))
    | inr other ↦ let ih = elem-kept i j ks (rw (e, other) at h) in (rw other ih.0, ih.1)
  ]
]

pub log_rows-kept :
    (i j : ℕ) (ls : List JobLog)
    → log_rows i (keep (λ (l : JobLog). not (l.job_id == j)) ls)
      ≡ (if i == j then [] else log_rows i ls)
log_rows-kept i j [] = elim (Bool-cases (i == j)) [ inl e ↦ rw e refl | inr e ↦ rw e refl ]
log_rows-kept i j (l ∷ ls) = ground (arith, log_rows-kept i j ls)

-- The rows of each job after a deletion.
pub delete_job_lem :
    (j : ℕ) (t u : LogTables)
    → delete_job j t ≡ some u
    → (u.jobs ≡ keep (λ k. not (k == j)) t.jobs)
      × ((i : ℕ) → log_rows i u.logs ≡ (if i == j then [] else log_rows i t.logs))
unfolding delete_job
delete_job_lem j t u h = elim (Bool-cases (elem j t.jobs)) [
  | inr gone ↦ cc (rw gone at h)
  | inl there ↦
      let e = rw there at h in
      let logs : u.logs ≡ keep (λ (l : JobLog). not (l.job_id == j)) t.logs = cc (e) in
      (cc (e), λ i. ap (log_rows i) logs ∙ log_rows-kept i j t.logs)
]
